-- ===== src/Mapping/Apply.antt =====
-- Apply of internal/mapping/mapping.go. The clock's reading and a new resource identifier are
-- arguments.
pub mod Ceilings
use gontext.Base.{ℕ}
use gontext.Base.{String, string_eq, ◌==◌, concat, contains, trim_space, split_comma}
use gontext.Base.{Bool, not, ◌&&◌, Option, none, some, List, [], ◌∷◌, ◌++◌, map}
use gontext.Base.{ltb, if◌then◌else◌, length, select}
use gontext.Base.Dict.{Dict, put}
use gontext.Platform.{Result, ok, err, ◌>>=◌, err_validation, err_forbidden}
use gontext.Mapping.{
  Json, Expr, Spec, SourceCeilings, Canonical, Host, first_non_empty, enforce_constraints,
  enforce_ceilings, enforce_parent_authz_sync,
}
use gontext.Mapping.Eval.{eval_string}
use gontext.Mapping.Edges.{or_else, resolve_edges}

-- splitCSV
unfoldable pub split_csv : String → List String
split_csv s = select (λ p. not (p == "")) (map trim_space (split_comma s))

-- evalTime: the RFC 3339 forms and Unix seconds are read by the host
unfoldable pub eval_time : Host → Option Expr → Json → ℕ → Result ℕ
eval_time host e payload now =
    let s = eval_string host e payload in
    let read : Result ℕ = elim (host.parse_time s) [
      | none ↦ err (err_validation (concat "invalid timestamp: " s))
      | some t ↦ ok t
    ] in
    if s == "" then ok now else read

-- the loop over the taxonomy: attributes and tags
unfoldable pub add_taxonomy :
    Host → Json → Dict (Option Expr) → Dict String × List String → Dict String × List String
add_taxonomy host payload [] found = found
add_taxonomy host payload ((k, e) ∷ m) found =
    let v = eval_string host e payload in
    add_taxonomy host payload m
      (if v == "" then found else (put found.0 k v, found.1 ++ (concat (concat k ":") v ∷ [])))

unfoldable pub put_some : String → String → Dict String → Dict String
put_some k v m = if v == "" then m else put m k v

-- the attributes that the source's policy governs
unfoldable pub governed : Canonical → Dict String → Dict String
governed c m = put_some "content_locator" c.content_locator (
    put_some "context_space_id" c.context_space_id (
      put_some "purpose_allowlist" c.purpose_allowlist (
        put_some "visibility_ref" c.visibility_ref (
          put (put (put m "trust" c.trust) "authority" c.authority) "source_authority"
            c.authority))))

-- the fields that the expressions give, with the defaults of classification, trust and authority
unfoldable pub mapped_fields : Host → Spec → Json → SourceCeilings → ℕ → ℕ → Bool → Canonical
mapped_fields host spec payload ceilings occurred observed dry_run =
    let ms = spec.mappings in
    let field_at = λ (e : Option Expr). eval_string host e payload in
    let tags = field_at ms.tags in
    let found =
      add_taxonomy host payload ms.controlled_taxonomy
        ([], if tags == "" then [] else split_csv tags) in
    record {
      organization_id = ceilings.organization_id;
      resource_id = field_at ms.resource_id;
      resource_type = field_at ms.resource_type;
      title = field_at ms.title;
      context_space_id = field_at ms.context_space_id;
      brand_id = field_at ms.brand_id;
      source_external_id = field_at ms.source_external_id;
      source_revision = field_at ms.source_revision;
      content_locator = field_at ms.content_locator;
      classification =
          first_non_empty
            (field_at ms.classification ∷ ceilings.classification_ceiling ∷ "internal" ∷ []);
      trust = first_non_empty (field_at ms.trust ∷ "untrusted_external" ∷ []);
      authority = first_non_empty (field_at ms.source_authority ∷ "corroborating" ∷ []);
      visibility_ref = field_at ms.visibility_ref;
      purpose_allowlist = field_at ms.purpose_allowlist;
      retention_policy_id = field_at ms.retention_policy_id;
      tags = found.1;
      occurred_at = occurred;
      observed_at = observed;
      attributes = found.0;
      edges = [];
      dry_run = dry_run;
    }

-- the identifier and the type where the mapping gives none
unfoldable pub identified : Canonical → String → Canonical
unfolding or_else
identified c fresh = record c {
  resource_id = or_else c.resource_id fresh;
  resource_type = or_else c.resource_type "event";
}

-- with the fields: constraints, ceilings, record types, attributes, edges
unfoldable pub governed_fields :
    Host → Spec → Json → SourceCeilings → String → Canonical → Result Canonical
governed_fields host spec payload ceilings fresh fields =
    enforce_constraints spec.constraints >>= λ constrained.
    enforce_ceilings fields ceilings >>= λ capped.
    let c = identified fields fresh in
    if ltb 0 (length ceilings.allowed_record_types)
      && not (contains ceilings.allowed_record_types c.resource_type)
    then err (err_forbidden "resource_type not allowed by source registration")
    else resolve_edges host spec.mappings.parent_resource_id spec.edges payload c.resource_id
        c.visibility_ref
      >>= λ edges. enforce_parent_authz_sync edges ceilings spec.constraints >>= λ synced.
          ok (record c { attributes = governed c c.attributes; edges = edges })

-- Apply
unfoldable pub apply : Host → Spec → Json → SourceCeilings → Bool → String → ℕ → Result Canonical
apply host spec payload ceilings dry_run fresh now =
    let mapped_org = eval_string host spec.mappings.organization_id payload in
    if ceilings.organization_id == ""
    then err (err_validation "source organization_id required")
    else if not (spec.organization_id == "")
        && not (spec.organization_id == ceilings.organization_id)
    then err (err_forbidden "mapping organization_id differs from source registration")
    else if not (mapped_org == "") && not (mapped_org == ceilings.organization_id)
    then err (err_forbidden "mapping cannot set organization_id different from source registration")
    else eval_time host spec.mappings.occurred_at payload now >>= λ occurred.
        eval_time host spec.mappings.observed_at payload now >>= λ observed.
        governed_fields host spec payload ceilings fresh
          (mapped_fields host spec payload ceilings occurred observed dry_run)
