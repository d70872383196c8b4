-- ===== src/Mapping.antt =====
-- internal/mapping/mapping.go: how a source's payload becomes canonical fields. A float of the
-- payload is the text that stringify gives it. What the code takes from other libraries is a record of functions (Host).
pub mod Eval
pub mod Edges
pub mod Apply
use gontext.Base.{ℕ}
use gontext.Base.{String, string_eq, ◌==◌, concat, trim_prefix, contains, lower, trim_space, cut}
use gontext.Base.{Bool, false, not, ◌&&◌, ◌||◌, Option, none, some, List, [], ◌∷◌}
use gontext.Base.{ltb, leb, if◌then◌else◌, length, any}
use gontext.Base.{number_eq}
use gontext.Base.Dict.{Dict}
use gontext.Ports.{Confidence, LedgerRecord}
use gontext.Platform.{Result, ok, err, err_forbidden}

-- a value of the payload
mutual
  pub data Json : Type 0 where
    null : Json
    text : String → Json
    number : String → Json
    truth : Bool → Json
    arr : Items → Json
    obj : Fields → Json

  pub data Items : Type 0 where
    nil : Items
    cons : Json → Items → Items

  pub data Fields : Type 0 where
    end : Fields
    field : String → Json → Fields → Fields

-- Expr
pub record Expr : Type 0 where
  pub expr : String
  pub default : Option Json
  pub transform : String

-- EdgeMapping
pub record EdgeMapping : Type 0 where
  pub predicate : Option Expr
  pub from : Option Expr
  pub to : Option Expr
  pub confidence : Option Expr
  pub ensure_endpoints : Option Bool
  pub sync_authz_parent : Option Bool

-- FieldMappings, with TimestampMappings
pub record FieldMappings : Type 0 where
  pub source_external_id : Option Expr
  pub source_revision : Option Expr
  pub context_space_id : Option Expr
  pub resource_id : Option Expr
  pub resource_type : Option Expr
  pub brand_id : Option Expr
  pub occurred_at : Option Expr
  pub observed_at : Option Expr
  pub content_locator : Option Expr
  pub controlled_taxonomy : Dict (Option Expr)
  pub visibility_ref : Option Expr
  pub classification : Option Expr
  pub purpose_allowlist : Option Expr
  pub trust : Option Expr
  pub source_authority : Option Expr
  pub retention_policy_id : Option Expr
  pub tags : Option Expr
  pub organization_id : Option Expr
  pub title : Option Expr
  pub parent_resource_id : Option Expr

-- Constraints
pub record Constraints : Type 0 where
  pub cannot_mint_organization : Bool
  pub cannot_broaden_acl : Bool
  pub authority_ceiling_from_source : Bool
  pub client_fields_may_only_narrow : Bool

-- Spec
pub record Spec : Type 0 where
  pub id : String
  pub revision : String
  pub organization_id : String
  pub source_id : String
  pub status : String
  pub mappings : FieldMappings
  pub edges : List EdgeMapping
  pub constraints : Constraints

-- SourceCeilings
pub record SourceCeilings : Type 0 where
  pub organization_id : String
  pub trust_ceiling : String
  pub authority_ceiling : String
  pub classification_ceiling : String
  pub allowed_visibility_refs : List String
  pub allowed_record_types : List String

-- CanonicalEdge
pub record CanonicalEdge : Type 0 where
  pub from_id : String
  pub to_id : String
  pub predicate : String
  pub confidence : Confidence
  pub ensure_endpoints : Bool
  pub sync_authz_parent : Bool
  pub to_kind : String
  pub to_title : String
  pub to_external_id : String

-- Canonical
pub record Canonical : Type 0 where
  pub organization_id : String
  pub resource_id : String
  pub resource_type : String
  pub title : String
  pub context_space_id : String
  pub brand_id : String
  pub source_external_id : String
  pub source_revision : String
  pub content_locator : String
  pub classification : String
  pub trust : String
  pub authority : String
  pub visibility_ref : String
  pub purpose_allowlist : String
  pub retention_policy_id : String
  pub tags : List String
  pub occurred_at : ℕ
  pub observed_at : ℕ
  pub attributes : Dict String
  pub edges : List CanonicalEdge
  pub dry_run : Bool

-- What the code takes from uuid, crypto, encoding/json, time and strconv.
pub record Host : Type 0 where
  pub uuid_v5 : String → String
  pub sha256_hex : String → String
  pub marshal : Json → String
  pub parse_time : String → Option ℕ
  pub parse_float : String → Option Confidence

-- firstNonEmpty
unfoldable pub first_non_empty : List String → String
first_non_empty [] = ""
first_non_empty (v ∷ vs) = if trim_space v == "" then first_non_empty vs else v

-- a rank of a table, none where the code returns -1
unfoldable pub rank_in : List (String × ℕ) → String → Option ℕ
rank_in [] v = none
rank_in ((k, n) ∷ table) v = if k == lower (trim_space v) then some n else rank_in table v

-- RankTrust
unfoldable pub rank_trust : String → Option ℕ
unfolding rank_in
rank_trust v =
    rank_in
      (("generated", 1)
        ∷ ("untrusted_external", 2)
        ∷ ("trusted_internal", 3)
        ∷ ("trusted_system", 4)
        ∷ [])
      v

-- RankAuthority
unfoldable pub rank_authority : String → Option ℕ
unfolding rank_in
rank_authority v =
    rank_in
      (("inferred", 1) ∷ ("user_claim", 2) ∷ ("corroborating", 3) ∷ ("source_of_truth", 4) ∷ []) v

-- RankClassification
unfoldable pub rank_classification : String → Option ℕ
unfolding rank_in
rank_classification v =
    rank_in (("public", 1) ∷ ("internal", 2) ∷ ("confidential", 3) ∷ ("restricted", 4) ∷ []) v

-- outRank >= 0 && ceilRank >= 0 && outRank <= ceilRank
unfoldable pub rank_within : Option ℕ → Option ℕ → Bool
rank_within none ceiling = false
rank_within (some n) none = false
rank_within (some n) (some c) = leb n c

-- c == (Constraints{})
unfoldable pub no_constraints : Constraints → Bool
no_constraints c =
    not c.cannot_mint_organization
    && not c.cannot_broaden_acl
    && not c.authority_ceiling_from_source
    && not c.client_fields_may_only_narrow

-- enforceConstraints
unfoldable pub enforce_constraints : Constraints → Result (Unit {0})
enforce_constraints c =
    if no_constraints c
    then ok tt
    else if not c.cannot_mint_organization
    then err (err_forbidden "mapping constraints.cannot_mint_organization must be true")
    else if not c.cannot_broaden_acl
    then err (err_forbidden "mapping constraints.cannot_broaden_acl must be true")
    else if not c.authority_ceiling_from_source
    then err (err_forbidden "mapping constraints.authority_ceiling_from_source must be true")
    else if not c.client_fields_may_only_narrow
    then err (err_forbidden "mapping constraints.client_fields_may_only_narrow must be true")
    else ok tt

-- enforceCeilings
unfoldable pub enforce_ceilings : Canonical → SourceCeilings → Result (Unit {0})
enforce_ceilings out ceilings =
    if not (ceilings.trust_ceiling == "")
      && not (rank_within (rank_trust out.trust) (rank_trust ceilings.trust_ceiling))
    then err (err_forbidden "mapping raises trust above source ceiling")
    else if not (ceilings.authority_ceiling == "")
        && not
            (rank_within (rank_authority out.authority) (rank_authority ceilings.authority_ceiling))
    then err (err_forbidden "mapping raises authority above source ceiling")
    else if not (ceilings.classification_ceiling == "")
        && not (
            rank_within (rank_classification out.classification)
              (rank_classification ceilings.classification_ceiling))
    then err (err_forbidden "mapping raises classification above source ceiling")
    else if not (out.visibility_ref == "")
        && ltb 0 (length ceilings.allowed_visibility_refs)
        && not (contains ceilings.allowed_visibility_refs out.visibility_ref)
    then err (err_forbidden "mapping broadens ACL via visibility_ref outside source policy")
    else ok tt

-- the part of a reference before its first '#', without blanks around it
unfoldable pub object_of : String → String
object_of ref = elim (cut b'#' ref) [ none ↦ trim_space ref | some (a, b) ↦ trim_space a ]

unfoldable pub ref_allows : String → String → Bool
ref_allows parent_id item =
    let ref = trim_space item in
    let object = object_of ref in
    not (ref == "")
    && (contains (parent_id ∷ concat "resource:" parent_id ∷ []) ref
        || contains (parent_id ∷ concat "resource:" parent_id ∷ []) object
        || object == parent_id
        || trim_prefix object "resource:" == parent_id)

-- parentAllowedForAuthzSync
unfoldable pub parent_allowed_for_authz_sync : String → List String → Bool
parent_allowed_for_authz_sync parent_id allowlist =
    not (parent_id == "") && any (ref_allows parent_id) allowlist

unfoldable pub cannot_broaden : Constraints → Bool
cannot_broaden c = c.cannot_broaden_acl || no_constraints c

-- the loop of enforceParentAuthzSync
unfoldable pub check_sync : List CanonicalEdge → List String → Result (Unit {0})
check_sync [] allowlist = ok tt
check_sync (e ∷ es) allowlist =
    if e.sync_authz_parent && not (parent_allowed_for_authz_sync e.to_id allowlist)
    then err (
        err_forbidden
          "sync_authz_parent broadens ACL; parent must be listed in source allowed_visibility_refs")
    else check_sync es allowlist

-- enforceParentAuthzSync
unfoldable pub enforce_parent_authz_sync :
    List CanonicalEdge → SourceCeilings → Constraints → Result (Unit {0})
enforce_parent_authz_sync edges ceilings c =
    if cannot_broaden c then check_sync edges ceilings.allowed_visibility_refs else ok tt

-- Canonical.ToRecord
unfoldable pub to_record : Canonical → String → String → ℕ → LedgerRecord
to_record c org_id source_system now = record {
  resource_id = c.resource_id;
  org_id = org_id;
  kind = c.resource_type;
  title = first_non_empty (c.title ∷ c.source_external_id ∷ []);
  classification = c.classification;
  labels = c.tags;
  source_system = source_system;
  external_id = c.source_external_id;
  current_rev_id = "";
  state = "ACCEPTED";
  attributes = c.attributes;
  created_at = now;
  updated_at = now;
}
