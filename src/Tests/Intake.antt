-- ===== src/Tests/Intake.antt =====
-- Intakes of a request into the in-memory ledger, and the mapping that they apply.
use gontext.Base.{◌≤◌}
use gontext.Base.{String, string_eq, ◌==◌, lower, trim_space, equal_fold, cut}
use gontext.Base.{ℕ}
use gontext.Base.{◌≡◌, refl}
use gontext.Base.{true, false, Option, none, some, List, [], ◌∷◌}
use gontext.Base.{length, All}
use gontext.Base.Dict.{Dict, get2}
use gontext.Ports.{LedgerRecord, SourceRegistration}
use gontext.Platform.{Result, ok, err}
use gontext.Ledger.{Store, new_store}
use gontext.Ledger.Records.{get_record}
use gontext.Mapping.{Json, text, obj, end, field, Host, Expr, Spec, Canonical, CanonicalEdge}
use gontext.Mapping.Edges.{resolve_edges, edge_key}
use gontext.Mapping.Edges.Sound.{IsSound, resolve_edges-IsSound}
use gontext.Mapping.Apply.{apply}
use gontext.Mapping.Apply.Ceilings.{IsWithin, apply-IsWithin}
use gontext.Base.Sort.{tally}
use gontext.Ingest.{Request, IntakeEvent, IntakeResult, Codec, default_spec, ceilings_of}
use gontext.Ingest.Intake.{Fresh, PutEvidence, World, keep_evidence, intake}
use gontext.Ingest.Intake.Replay.{IsRepeat, intake-IsRepeat}
use gontext.Ingest.Intake.Truth.{KeepsTruth, intake-KeepsTruth}
use gontext.Ingest.{body_of, is_generated}
use gontext.Ingest.Commit.{merged}
use gontext.Ingest.Intake.{canonical_of}
use gontext.Ingest.Intake.Taken.{Taken, hash_of, new_record}
use gontext.Ingest.Intake.Accepts.{intake-Taken}
use gontext.Base.Dict.{get2}
use gontext.Ingest.{distance, max_duration, is_outside, check_replay_window}
use gontext.Ingest.Window.{check_replay_window_iff}
use gontext.Base.{arith, ◌<◌, ◌+◌, ◌↔◌, ◌⊎◌, trim_space, ◌==◌}
use gontext.Tests.Data.{acme, plan}

abbrev crm : SourceRegistration
crm = record {
  source_id = "crm";
  org_id = acme;
  system = "crm";
  display_name = "CRM";
  trust_tier = "trusted_internal";
  trust_ceiling = "";
  authority_ceiling = "corroborating";
  classification_ceiling = plan.classification;
  classification_default = "";
  mapping_spec = "";
  mapping_spec_inline = none;
  enabled = true;
  signing_secret = "s";
  replay_window_seconds = 0;
  allowed_record_types = "event" ∷ [];
  allowed_visibility_refs = [];
  attributes = [];
  created_at = 1;
  updated_at = 1;
}

abbrev host : Host
host = record {
  uuid_v5 = λ s. s;
  sha256_hex = λ s. "0123456789abcdef0123456789abcdef";
  marshal = λ j. "{}";
  parse_time = λ s. none;
  parse_float = λ s. none;
}

abbrev codec : Codec
codec = record {
  host = host;
  hmac_hex = λ key body. "aa";
  marshal_payload = λ j. "{}";
  marshal_event = λ e. "{}";
  unmarshal = λ s. obj end;
  read_timestamp = λ s. some 50;
}

abbrev event : IntakeEvent
event = record {
  event_id = "evt";
  org_id = acme;
  source_system = "crm";
  external_id = "";
  source_revision = "";
  idempotency_key = "k";
  content_type = "";
  content_hash = "";
  evidence_ref = "";
  attributes = ("resource_id", "plan") ∷ ("trust", "generated") ∷ [];
}

abbrev blank : Spec
blank = record {
  id = "";
  revision = "";
  organization_id = "";
  source_id = "";
  status = "";
  mappings = record {
    source_external_id = none;
    source_revision = none;
    context_space_id = none;
    resource_id = none;
    resource_type = none;
    brand_id = none;
    occurred_at = none;
    observed_at = none;
    content_locator = none;
    controlled_taxonomy = [];
    visibility_ref = none;
    classification = none;
    purpose_allowlist = none;
    trust = none;
    source_authority = none;
    retention_policy_id = none;
    tags = none;
    organization_id = none;
    title = none;
    parent_resource_id = none;
  };
  edges = [];
  constraints = record {
    cannot_mint_organization = false;
    cannot_broaden_acl = false;
    authority_ceiling_from_source = false;
    client_fields_may_only_narrow = false;
  };
}

abbrev request : Request
request = record {
  org_id = acme;
  source_id = "crm";
  body = "b";
  signature = "sha256=AA";
  timestamp = "50";
  idempotency_key = "";
  mapping = blank;
  payload = none;
  event = event;
  dry_run = false;
  skip_hmac = false;
}

-- the plan, which its source holds as the truth
abbrev true_plan : LedgerRecord
true_plan = record plan { attributes = ("authority", "source_of_truth") ∷ [] }

abbrev ledger : Store
ledger = record new_store {
  sources = (acme, ("crm", crm) ∷ []) ∷ [];
  records = (acme, ("plan", true_plan) ∷ []) ∷ [];
}

abbrev fresh : Fresh
fresh = record { event = "e2"; resource = "r2"; revision = "rev2"; op = λ id. id }

-- a ledger before, with an evidence store that keeps every body under its key
abbrev world : World
world = record { ledger = ledger; evidence = [] }

abbrev keeper : Option PutEvidence
keeper = some (λ puts key body. ok (key, "v1"))

abbrev answered : IntakeResult
answered = record {
  event_id = "evt";
  organization_id = acme;
  resource_id = "plan";
  revision_id = "rev2";
  status = "accepted";
  duplicate = false;
  idempotent_replay = false;
  evidence_ref = "acme/quarantine/sha256:0123456789abcdef0123456789abcdef@v1";
  content_hash = "sha256:0123456789abcdef0123456789abcdef";
  edge_count = 0;
}

taken : (intake codec keeper 50 fresh request world).0 ≡ ok answered
unfolding intake gontext.Ledger.or_default gontext.Ingest.Intake.enabled_source
    gontext.Ledger.Records.get_source get2 gontext.Base.Dict.get gontext.Ingest.Intake.from_source
    gontext.Ingest.authenticate gontext.Ingest.signing_secret gontext.Ingest.verify_hmac trim_space
    lower gontext.Ingest.check_replay_window gontext.Ingest.replay_window gontext.Index.text_of
    gontext.Ingest.distance gontext.Ingest.idempotency_key_of gontext.Ledger.Once.get_idempotency
    gontext.Platform.err_not_found gontext.Ingest.Intake.take_in gontext.Ingest.Intake.canonical_of
    gontext.Ingest.Intake.keep_evidence apply ceilings_of gontext.Ingest.spec_of
    gontext.Ingest.is_there default_spec gontext.Mapping.Eval.eval_string
    gontext.Mapping.Apply.eval_time gontext.Mapping.Apply.governed_fields
    gontext.Mapping.enforce_constraints gontext.Mapping.no_constraints
    gontext.Mapping.enforce_ceilings gontext.Ingest.effective_trust_ceiling
    gontext.Mapping.rank_within gontext.Mapping.rank_trust gontext.Mapping.Apply.mapped_fields
    gontext.Mapping.first_non_empty gontext.Ingest.quoted_rule gontext.Ingest.rule
    gontext.Ingest.quote gontext.Mapping.Eval.eval_expr gontext.Mapping.Eval.is_blank
    gontext.Mapping.Eval.resolve gontext.Mapping.Eval.quoted gontext.Mapping.Eval.apply_transform
    gontext.Mapping.Eval.stringify gontext.Mapping.rank_authority
    gontext.Ingest.effective_classification_ceiling gontext.Mapping.rank_classification
    gontext.Mapping.Apply.identified resolve_edges gontext.Mapping.Edges.add_mapped
    gontext.Mapping.enforce_parent_authz_sync gontext.Mapping.cannot_broaden
    gontext.Mapping.check_sync gontext.Mapping.Edges.add_visible gontext.Mapping.Edges.start_edges
    gontext.Ingest.Intake.accept gontext.Ingest.Intake.answer gontext.Ingest.Commit.commit
    get_record gontext.Ingest.Intake.record_of gontext.Mapping.to_record
    gontext.Ingest.Commit.write_merged gontext.Ingest.Commit.merged gontext.Ingest.is_generated
    equal_fold gontext.Ingest.is_source_of_truth gontext.Ingest.authority_of
    gontext.Ingest.would_overwrite gontext.Mapping.Apply.governed gontext.Mapping.Apply.put_some
    gontext.Base.Dict.put gontext.Mapping.Apply.add_taxonomy gontext.Ingest.differs
    gontext.Mapping.Eval.dig gontext.Mapping.Eval.dig_parts gontext.Base.Text.split_on
    gontext.Mapping.Eval.dig_part gontext.Ingest.payload_of gontext.Mapping.Eval.at_index
    gontext.Mapping.Eval.part_of cut gontext.Mapping.Eval.field_of gontext.Ledger.and_then
    gontext.Ingest.Commit.write_all gontext.Ledger.Records.promote_placeholder
    gontext.Ledger.Records.append_revision gontext.Ingest.Commit.write_edges
    gontext.Ledger.Outbox.enqueue_outbox gontext.Ingest.Commit.put_once
    gontext.Ingest.Intake.writes_of gontext.Ledger.Once.put_idempotency gontext.Ingest.preserve
    gontext.Ingest.Intake.revision_of is_outside gontext.Ingest.Intake.with_puts
    gontext.Ingest.Intake.map_in gontext.Ingest.Intake.evidence_ref_of
    gontext.Ingest.Intake.evidence_key
taken = refl

intake-IsRepeat_example :
    IsRepeat codec 60 request answered
      (intake codec keeper 50 fresh request world).1
      (intake codec keeper 60 fresh request (intake codec keeper 50 fresh request world).1)
unfolding gontext.Ingest.idempotency_key_of
intake-IsRepeat_example =
    intake-IsRepeat codec keeper keeper 50 60 fresh fresh request world answered taken refl refl

intake-KeepsTruth_example :
    KeepsTruth codec keeper 50 fresh request "plan" true_plan world
      (intake codec keeper 50 fresh request world)
unfolding get2 gontext.Base.Dict.get gontext.Ingest.is_source_of_truth equal_fold lower
    gontext.Ingest.authority_of gontext.Ledger.or_default gontext.Index.text_of
intake-KeepsTruth_example =
    intake-KeepsTruth codec keeper 50 fresh request world "plan" true_plan refl refl

abbrev no_canonical : Canonical
no_canonical = record {
  organization_id = "";
  resource_id = "";
  resource_type = "";
  title = "";
  context_space_id = "";
  brand_id = "";
  source_external_id = "";
  source_revision = "";
  content_locator = "";
  classification = "";
  trust = "";
  authority = "";
  visibility_ref = "";
  purpose_allowlist = "";
  retention_policy_id = "";
  tags = [];
  occurred_at = 0;
  observed_at = 0;
  attributes = [];
  edges = [];
  dry_run = false;
}

canonical_in : Result Canonical → Canonical
canonical_in (ok c) = c
canonical_in (err e) = no_canonical

record_in : Result LedgerRecord → LedgerRecord
record_in (ok r) = r
record_in (err e) = plan

abbrev found : Canonical
found = canonical_in (canonical_of codec keeper 50 fresh request crm (body_of codec request))

abbrev merging : Result LedgerRecord
merging =
    merged (is_generated found (new_record codec keeper 50 fresh request crm found))
      (new_record codec keeper 50 fresh request crm found)
      (get2 ledger.records acme found.resource_id) 50

mapped : canonical_of codec keeper 50 fresh request crm (body_of codec request) ≡ ok found
unfolding canonical_in canonical_of gontext.Ingest.Intake.keep_evidence apply ceilings_of
    gontext.Ingest.spec_of gontext.Ingest.is_there default_spec gontext.Mapping.Eval.eval_string
    gontext.Mapping.Apply.eval_time gontext.Mapping.Apply.governed_fields
    gontext.Mapping.enforce_constraints gontext.Mapping.no_constraints
    gontext.Mapping.enforce_ceilings gontext.Ingest.effective_trust_ceiling
    gontext.Ledger.or_default gontext.Mapping.rank_within gontext.Mapping.rank_trust lower
    trim_space gontext.Mapping.Apply.mapped_fields gontext.Mapping.first_non_empty
    gontext.Ingest.quoted_rule gontext.Index.text_of gontext.Base.Dict.get gontext.Ingest.rule
    gontext.Ingest.quote gontext.Mapping.Eval.eval_expr gontext.Mapping.Eval.is_blank
    gontext.Mapping.Eval.resolve gontext.Mapping.Eval.quoted gontext.Mapping.Eval.apply_transform
    gontext.Mapping.Eval.stringify gontext.Mapping.rank_authority
    gontext.Ingest.effective_classification_ceiling gontext.Mapping.rank_classification
    gontext.Mapping.Apply.identified resolve_edges gontext.Mapping.Edges.add_mapped
    gontext.Mapping.enforce_parent_authz_sync gontext.Mapping.cannot_broaden
    gontext.Mapping.check_sync gontext.Mapping.Edges.add_visible gontext.Mapping.Edges.start_edges
mapped = refl

evident : keep_evidence keeper request (hash_of codec request) (body_of codec request) [] ≡ (
  ok "acme/quarantine/sha256:0123456789abcdef0123456789abcdef@v1",
  ("acme/quarantine/sha256:0123456789abcdef0123456789abcdef", body_of codec request) ∷ [],
)
unfolding keep_evidence gontext.Ingest.Intake.evidence_ref_of gontext.Ingest.Intake.evidence_key
    hash_of
evident = refl

merges : merging ≡ ok (record_in merging)
unfolding canonical_in record_in merged get2 gontext.Base.Dict.get canonical_of
    gontext.Ingest.Intake.keep_evidence apply ceilings_of gontext.Ingest.spec_of
    gontext.Ingest.is_there default_spec gontext.Mapping.Eval.eval_string
    gontext.Mapping.Apply.eval_time gontext.Mapping.Apply.governed_fields
    gontext.Mapping.enforce_constraints gontext.Mapping.no_constraints
    gontext.Mapping.enforce_ceilings gontext.Ingest.effective_trust_ceiling
    gontext.Ledger.or_default gontext.Mapping.rank_within gontext.Mapping.rank_trust lower
    trim_space gontext.Mapping.Apply.mapped_fields gontext.Mapping.first_non_empty
    gontext.Ingest.quoted_rule gontext.Index.text_of gontext.Ingest.rule gontext.Ingest.quote
    gontext.Mapping.Eval.eval_expr gontext.Mapping.Eval.is_blank gontext.Mapping.Eval.resolve
    gontext.Mapping.Eval.quoted gontext.Mapping.Eval.apply_transform gontext.Mapping.Eval.stringify
    gontext.Mapping.rank_authority gontext.Ingest.effective_classification_ceiling
    gontext.Mapping.rank_classification gontext.Mapping.Apply.identified resolve_edges
    gontext.Mapping.Edges.add_mapped gontext.Mapping.enforce_parent_authz_sync
    gontext.Mapping.cannot_broaden gontext.Mapping.check_sync gontext.Mapping.Edges.add_visible
    gontext.Mapping.Edges.start_edges is_generated equal_fold gontext.Ingest.is_source_of_truth
    gontext.Ingest.authority_of gontext.Ingest.would_overwrite new_record
    gontext.Ingest.Intake.record_of gontext.Mapping.to_record gontext.Mapping.Apply.governed
    gontext.Mapping.Apply.put_some gontext.Base.Dict.put gontext.Mapping.Apply.add_taxonomy
    gontext.Ingest.differs gontext.Mapping.Eval.dig gontext.Mapping.Eval.dig_parts
    gontext.Base.Text.split_on gontext.Mapping.Eval.dig_part gontext.Ingest.payload_of
    gontext.Mapping.Eval.at_index gontext.Mapping.Eval.part_of cut gontext.Mapping.Eval.field_of
merges = refl

intake-Taken_example :
    Taken codec keeper 50 fresh request world (intake codec keeper 50 fresh request world)
unfolding gontext.Ingest.Intake.Taken.source_of gontext.Ledger.or_default
    gontext.Ingest.Intake.enabled_source gontext.Ledger.Records.get_source get2
    gontext.Base.Dict.get gontext.Ingest.authenticate gontext.Ingest.signing_secret
    gontext.Ingest.verify_hmac trim_space lower gontext.Ingest.check_replay_window
    gontext.Ingest.replay_window gontext.Index.text_of gontext.Ingest.distance
    gontext.Ingest.Intake.Accepts.is_unused gontext.Ingest.idempotency_key_of is_outside
intake-Taken_example =
    intake-Taken codec keeper 50 fresh request world crm found
      "acme/quarantine/sha256:0123456789abcdef0123456789abcdef@v1"
      (("acme/quarantine/sha256:0123456789abcdef0123456789abcdef", body_of codec request) ∷ [])
      (record_in merging) refl refl refl refl refl evident mapped merges refl

-- a mapping with a reference for visibility and a parent
abbrev rule_of : String → Option Expr
rule_of s = some (record { expr = s; default = none; transform = "" })

abbrev placed : Spec
placed = record blank {
  mappings = record {
    source_external_id = none;
    source_revision = none;
    context_space_id = none;
    resource_id = rule_of "\"plan\"";
    resource_type = rule_of "$.kind";
    brand_id = none;
    occurred_at = none;
    observed_at = none;
    content_locator = none;
    controlled_taxonomy = [];
    visibility_ref = rule_of "\"team:a#member\"";
    classification = none;
    purpose_allowlist = none;
    trust = none;
    source_authority = none;
    retention_policy_id = none;
    tags = none;
    organization_id = none;
    title = none;
    parent_resource_id = rule_of "$.parent";
  };
}

abbrev payload : Json
payload = obj (field "kind" (text "event") (field "parent" (text "folder") end))

abbrev canonical : Canonical
canonical = canonical_in (apply host placed payload (ceilings_of crm acme) false "r2" 50)

applied : apply host placed payload (ceilings_of crm acme) false "r2" 50 ≡ ok canonical
unfolding canonical_in apply ceilings_of gontext.Mapping.Eval.eval_string
    gontext.Mapping.Apply.eval_time gontext.Mapping.Apply.governed_fields
    gontext.Mapping.enforce_constraints gontext.Mapping.no_constraints
    gontext.Mapping.enforce_ceilings gontext.Ingest.effective_trust_ceiling
    gontext.Ledger.or_default gontext.Mapping.rank_within gontext.Mapping.rank_trust lower
    trim_space gontext.Mapping.Apply.mapped_fields gontext.Mapping.first_non_empty
    gontext.Mapping.rank_authority gontext.Ingest.effective_classification_ceiling
    gontext.Mapping.rank_classification gontext.Mapping.Eval.eval_expr gontext.Mapping.Eval.is_blank
    gontext.Mapping.Eval.resolve gontext.Mapping.Eval.quoted gontext.Mapping.Eval.apply_transform
    gontext.Mapping.Eval.stringify gontext.Mapping.Apply.identified gontext.Mapping.Eval.dig
    gontext.Mapping.Eval.dig_parts gontext.Base.Text.split_on gontext.Mapping.Eval.dig_part
    gontext.Mapping.Eval.at_index gontext.Mapping.Eval.part_of cut gontext.Mapping.Eval.field_of
    resolve_edges gontext.Mapping.Edges.add_mapped gontext.Mapping.enforce_parent_authz_sync
    gontext.Mapping.cannot_broaden gontext.Mapping.check_sync gontext.Mapping.Edges.add_visible
    gontext.Mapping.Edges.has_parent gontext.Mapping.Edges.start_edges gontext.Mapping.Edges.add
    gontext.Mapping.Edges.is_malformed gontext.Mapping.Edges.parent_edge
applied = refl

apply-IsWithin_example : IsWithin (ceilings_of crm acme) canonical
apply-IsWithin_example =
    apply-IsWithin host placed payload (ceilings_of crm acme) false "r2" 50 canonical applied

edges_in : Result (List CanonicalEdge) → List CanonicalEdge
edges_in (ok es) = es
edges_in (err e) = []

abbrev edges : List CanonicalEdge
edges = edges_in (resolve_edges host (rule_of "$.parent") [] payload "plan" "")

resolved : resolve_edges host (rule_of "$.parent") [] payload "plan" "" ≡ ok edges
unfolding edges_in resolve_edges gontext.Mapping.Edges.add_mapped
resolved = refl

one_edge : length edges ≡ 1
unfolding edges_in resolve_edges gontext.Mapping.Edges.add_mapped gontext.Mapping.Edges.add_visible
    gontext.Mapping.Edges.start_edges gontext.Mapping.Eval.eval_string
    gontext.Mapping.Eval.eval_expr trim_space gontext.Mapping.Eval.is_blank
    gontext.Mapping.Eval.resolve gontext.Mapping.Eval.quoted gontext.Mapping.Eval.dig
    gontext.Mapping.Eval.dig_parts gontext.Base.Text.split_on gontext.Mapping.Eval.dig_part
    gontext.Mapping.Eval.at_index gontext.Mapping.Eval.part_of cut gontext.Mapping.Eval.field_of
    gontext.Mapping.Eval.apply_transform lower gontext.Mapping.Eval.stringify
    gontext.Mapping.Edges.add gontext.Mapping.Edges.is_malformed gontext.Mapping.Edges.parent_edge
one_edge = refl

resolve_edges-IsSound_example :
    All IsSound edges × ((k : String) → tally (λ (e : CanonicalEdge). edge_key e == k) edges ≤ 1)
resolve_edges-IsSound_example =
    resolve_edges-IsSound host (rule_of "$.parent") [] payload "plan" "" edges resolved

-- a timestamp far ahead, which a window of five minutes accepts
abbrev far_codec : Codec
far_codec = record codec { read_timestamp = λ s. some 99_223_372_036_854_775_807 }

check_replay_window_iff_example :
    (check_replay_window far_codec "99" 50 300_000_000_000 ≡ ok tt) ↔ (
      ((trim_space "99" == "") ≡ false)
      × (t : ℕ) × (far_codec.read_timestamp "99" ≡ some t)
      × ((distance 50 t ≤ 300_000_000_000) ⊎ (50 + max_duration < t)))
check_replay_window_iff_example =
    check_replay_window_iff far_codec "99" 50 300_000_000_000 (omega arith)

far_accepted : check_replay_window far_codec "99" 50 300_000_000_000 ≡ ok tt
unfolding check_replay_window is_outside distance trim_space
far_accepted = refl
