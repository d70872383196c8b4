-- ===== src/Ingest.antt =====
-- internal/ingest/ingest.go: the checks of an intake and the records that it builds. What the code
-- takes from crypto, encoding/json, time and strconv is a record of functions (Codec).
pub mod Window
pub mod Commit
pub mod Intake
use gontext.Base.{min, ◌%◌, ◌^◌}
use gontext.Base.{ℕ, ◌+◌, ◌-◌, ◌*◌}
use gontext.Base.{
  String, string_eq, ◌==◌, concat, trim_prefix, contains, lower, trim_space, equal_fold,
}
use gontext.Base.{Bool, true, false, not, ◌&&◌, ◌||◌, Option, none, some, [], ◌∷◌}
use gontext.Base.{ltb, if◌then◌else◌}
use gontext.Base.{number_eq}
use gontext.Base.Dict.{Dict, put}
use gontext.Ports.{LedgerRecord, SourceRegistration}
use gontext.Platform.{Result, ok, err, ◌>>=◌, err_unauthorized}
use gontext.Ledger.{or_default}
use gontext.Index.{text_of}
use gontext.Mapping.{Json, obj, field, Expr, Spec, SourceCeilings, Canonical, Host, first_non_empty}
use gontext.Mapping.Eval.{index_in}

-- ports.IntakeEvent
pub record IntakeEvent : Type 0 where
  pub event_id : String
  pub org_id : String
  pub source_system : String
  pub external_id : String
  pub source_revision : String
  pub idempotency_key : String
  pub content_type : String
  pub content_hash : String
  pub evidence_ref : String
  pub attributes : Dict String

-- Request: a body and a payload that are there or not
pub record Request : Type 0 where
  pub org_id : String
  pub source_id : String
  pub body : String
  pub signature : String
  pub timestamp : String
  pub idempotency_key : String
  pub mapping : Spec
  pub payload : Option Json
  pub event : IntakeEvent
  pub dry_run : Bool
  pub skip_hmac : Bool

-- Result (the name is taken by errors)
pub record IntakeResult : Type 0 where
  pub event_id : String
  pub organization_id : String
  pub resource_id : String
  pub revision_id : String
  pub status : String
  pub duplicate : Bool
  pub idempotent_replay : Bool
  pub evidence_ref : String
  pub content_hash : String
  pub edge_count : ℕ

-- hex of HMAC-SHA256 of a key and a body; hex of SHA-256; JSON; the forms of a timestamp
pub record Codec : Type 0 where
  pub host : Host
  pub hmac_hex : String → String → String
  pub marshal_payload : Json → String
  pub marshal_event : IntakeEvent → String
  pub unmarshal : String → Json
  pub read_timestamp : String → Option ℕ

-- VerifyHMAC
unfoldable pub verify_hmac : Codec → String → String → String → Result (Unit {0})
verify_hmac codec secret body signature =
    let sig = trim_prefix (trim_prefix (trim_space signature) "sha256=") "v1=" in
    if sig == ""
    then err (err_unauthorized "missing signature")
    else if lower sig == lower (codec.hmac_hex secret body)
    then ok tt
    else err (err_unauthorized "invalid HMAC signature")

-- the distance of two times
unfoldable pub distance : ℕ → ℕ → ℕ
distance a b = (a - b) + (b - a)

-- math.MaxInt64 nanoseconds
abbrev pub max_duration : ℕ
max_duration = 9_223_372_036_854_775_807

-- Whether now.Sub(t), made positive, is above a window of 64 bits. The difference saturates, and
-- the least duration is its own negation, so it is above no window.
unfoldable pub is_outside : ℕ → ℕ → ℕ → Bool
is_outside window now t =
    not (ltb max_duration (t - now))
    && (ltb max_duration window || ltb window (min (distance now t) max_duration))

-- CheckReplayWindow, with the window in nanoseconds of 64 bits
unfoldable pub check_replay_window : Codec → String → ℕ → ℕ → Result (Unit {0})
check_replay_window codec ts now window =
    let read : Result (Unit {0}) = elim (codec.read_timestamp ts) [
      | none ↦ err (err_unauthorized "invalid timestamp")
      | some t ↦
          if is_outside window now t
          then err (err_unauthorized "timestamp outside replay window")
          else ok tt
    ] in
    if trim_space ts == "" then err (err_unauthorized "missing timestamp") else read

-- the source's window in seconds: its own, its attribute's, or the default; Atoi answers the largest
-- integer for a number that is too large
unfoldable pub replay_window : SourceRegistration → ℕ
replay_window src =
    let named = text_of src.attributes "replay_window_seconds" in
    let read : ℕ = elim (index_in named) [ none ↦ 0 | some n ↦ min n max_duration ] in
    let window =
      if src.replay_window_seconds == 0
      then (if named == "" then 0 else read)
      else src.replay_window_seconds in
    if window == 0 then 300 else window

unfoldable pub signing_secret : SourceRegistration → String
signing_secret src = or_default src.signing_secret (text_of src.attributes "signing_secret")

-- the checks of the signature and of the time, unless the request skips them
unfoldable pub authenticate : Codec → SourceRegistration → Request → String → ℕ → Result (Unit {0})
authenticate codec src req body now =
    if req.skip_hmac
    then ok tt
    else if signing_secret src == ""
    then err (err_unauthorized "source signing secret not configured")
    else verify_hmac codec (signing_secret src) body req.signature >>= λ verified.
        check_replay_window codec req.timestamp now ((replay_window src * 1_000_000_000) % 2 ^ 64)

-- len(payload) > 0
unfoldable pub has_fields : Json → Bool
has_fields (obj (field k v fs)) = true
has_fields v = false

-- the bytes that are signed and hashed
unfoldable pub body_of : Codec → Request → String
body_of codec req =
    let from_payload : String = elim req.payload [
      | none ↦ ""
      | some p ↦ if has_fields p then codec.marshal_payload p else ""
    ] in
    let body = or_default req.body from_payload in or_default body (codec.marshal_event req.event)

unfoldable pub payload_of : Codec → Request → String → Json
payload_of codec req body = elim req.payload [ none ↦ codec.unmarshal body | some p ↦ p ]

unfoldable pub idempotency_key_of : Request → String
unfolding or_default
idempotency_key_of req =
    or_default (or_default req.idempotency_key req.event.idempotency_key) req.event.event_id

-- EffectiveTrustCeiling, EffectiveClassificationCeiling of ports.SourceRegistration
unfoldable pub effective_trust_ceiling : SourceRegistration → String
effective_trust_ceiling src = or_default src.trust_ceiling src.trust_tier

unfoldable pub effective_classification_ceiling : SourceRegistration → String
effective_classification_ceiling src =
    or_default (or_default src.classification_ceiling src.classification_default) "internal"

unfoldable pub ceilings_of : SourceRegistration → String → SourceCeilings
ceilings_of src org_id = record {
  organization_id = org_id;
  trust_ceiling = effective_trust_ceiling src;
  authority_ceiling = first_non_empty (src.authority_ceiling ∷ "source_of_truth" ∷ []);
  classification_ceiling = effective_classification_ceiling src;
  allowed_visibility_refs = src.allowed_visibility_refs;
  allowed_record_types = src.allowed_record_types;
}

-- mk of SpecFromPorts
unfoldable pub rule : String → Option Expr
rule v = if v == "" then none else some (record { expr = v; default = none; transform = "" })

unfoldable pub quote : String → String
quote v = concat "\"" (concat v "\"")

unfoldable pub quoted_rule : String → Option Expr
quoted_rule v = if v == "" then none else rule (quote v)

-- defaultSpec
unfoldable pub default_spec : Request → Spec
default_spec req =
    let own = λ (k : String). quoted_rule (text_of req.event.attributes k) in
    record {
      id = "";
      revision = "";
      organization_id = req.org_id;
      source_id = "";
      status = "active";
      mappings = record {
        source_external_id =
            rule (if req.event.external_id == "" then "$.id" else quote req.event.external_id);
        source_revision =
            rule
              (if req.event.source_revision == "" then "$.id" else quote req.event.source_revision);
        context_space_id = rule "\"default\"";
        resource_id = own "resource_id";
        resource_type =
            rule (quote (or_default (text_of req.event.attributes "resource_type") "event"));
        brand_id = none;
        occurred_at = none;
        observed_at = none;
        content_locator = rule "\"\"";
        controlled_taxonomy = [];
        visibility_ref = none;
        classification = own "classification";
        purpose_allowlist = none;
        trust = own "trust";
        source_authority = own "authority";
        retention_policy_id = none;
        tags = none;
        organization_id = none;
        title = none;
        parent_resource_id = none;
      };
      edges = [];
      constraints = record {
        cannot_mint_organization = false;
        cannot_broaden_acl = false;
        authority_ceiling_from_source = false;
        client_fields_may_only_narrow = false;
      };
    }

unfoldable pub is_there : Option Expr → Bool
is_there none = false
is_there (some e) = true

-- the request's mapping, or the default where it maps neither identifier nor type
unfoldable pub spec_of : Request → SourceRegistration → Spec
spec_of req src =
    let named =
      if req.mapping.id == "" && not (src.mapping_spec == "")
      then record req.mapping { id = src.mapping_spec; organization_id = req.org_id }
      else req.mapping in
    if is_there req.mapping.mappings.source_external_id
      || is_there req.mapping.mappings.resource_type
    then named
    else default_spec req

-- isSourceOfTruth: the authority of a record
unfoldable pub authority_of : LedgerRecord → String
authority_of rec =
    or_default (text_of rec.attributes "authority") (text_of rec.attributes "source_authority")

unfoldable pub is_source_of_truth : LedgerRecord → Bool
is_source_of_truth rec = equal_fold (authority_of rec) "source_of_truth"

unfoldable pub differs : String → String → Bool
differs incoming existing =
    not (incoming == "") && not (existing == "") && not (incoming == existing)

-- wouldOverwriteSoT
unfoldable pub would_overwrite : LedgerRecord → LedgerRecord → Bool
would_overwrite existing incoming =
    is_source_of_truth incoming
    || differs incoming.title existing.title
    || differs incoming.classification existing.classification

-- the attributes of the existing record that are kept
unfoldable pub keep_attributes : Dict String → Dict String → Dict String
keep_attributes [] incoming = incoming
keep_attributes ((k, v) ∷ m) incoming = keep_attributes m (
    if contains ("authority" ∷ "source_authority" ∷ "trust" ∷ "visibility_ref" ∷ []) k
    then put incoming k v
    else incoming)

-- preserveSoT
unfoldable pub preserve : LedgerRecord → LedgerRecord → LedgerRecord
preserve existing incoming = record incoming {
  title = existing.title;
  classification = existing.classification;
  labels = existing.labels;
  kind = existing.kind;
  external_id = existing.external_id;
  source_system = existing.source_system;
  attributes = keep_attributes existing.attributes incoming.attributes;
}

-- whether what was mapped is an observation and not a statement of the source
unfoldable pub is_generated : Canonical → LedgerRecord → Bool
is_generated c rec =
    equal_fold c.trust "generated"
    || equal_fold c.authority "user_claim"
    || equal_fold c.authority "inferred"
    || equal_fold rec.kind "observation"
