-- ===== src/Ingest/Intake.antt =====
-- IntakeService.Intake of internal/ingest/ingest.go, over the in-memory ledger and the evidence
-- store, whose state is the list of the Puts that it was asked for, keys and bodies in order. What a
-- Put answers, its key and version or an error, is an argument.
pub mod Taken
pub mod Answer
pub mod Outcome
pub mod Replay
pub mod Truth
pub mod Accepts
use gontext.Base.{ℕ}
use gontext.Base.{String, string_eq, ◌==◌, concat}
use gontext.Base.{Bool, true, false, not, ◌&&◌, Option, none, some, List, [], ◌∷◌, ◌++◌}
use gontext.Base.{if◌then◌else◌, length}
use gontext.Base.{number_eq}
use gontext.Ports.{LedgerRecord, Revision, SourceRegistration, IdempotencyRecord}
use gontext.Platform.{
  Result, ok, err, ◌>>=◌, Error, api, plain, err_validation, err_forbidden, status_of,
}
use gontext.Ledger.{Store, Step, or_default}
use gontext.Ledger.Records.{get_source}
use gontext.Ledger.Once.{get_idempotency}
use gontext.Mapping.{Json, text, obj, end, field, Canonical, first_non_empty, to_record}
use gontext.Mapping.Apply.{apply}
use gontext.Ingest.{
  Request, IntakeResult, Codec, authenticate, body_of, payload_of, idempotency_key_of, ceilings_of,
  spec_of, is_generated,
}
use gontext.Ingest.Commit.{Writes, commit}

-- the new identifiers of an intake
pub record Fresh : Type 0 where
  pub event : String
  pub resource : String
  pub revision : String
  pub op : String → String

-- the Puts that the evidence store was asked for: keys and bodies
abbrev pub Puts : Type 0
Puts = List (String × String)

-- the answer of Put after the Puts before: its key and version
abbrev pub PutEvidence : Type 0
PutEvidence = Puts → String → String → Result (String × String)

-- what an intake changes
pub record World : Type 0 where
  pub ledger : Store
  pub evidence : Puts

abbrev pub Act {ℓ} : Type ℓ → Type ℓ
Act A = Result A × World

-- a step of the ledger, with the evidence store as it is given
unfoldable pub with_puts {ℓ} : {A : Type ℓ} → Puts → Step A → Act A
with_puts puts (a, s) = (a, record { ledger = s; evidence = puts })

unfoldable pub duplicate_of : Request → IdempotencyRecord → IntakeResult
duplicate_of req prev = record {
  event_id = prev.event_id;
  organization_id = req.org_id;
  resource_id = prev.resource_id;
  revision_id = prev.revision_id;
  status = "duplicate";
  duplicate = true;
  idempotent_replay = true;
  evidence_ref = "";
  content_hash = "";
  edge_count = 0;
}

-- the source of the request, checked
unfoldable pub enabled_source : Request → String → Store → Result SourceRegistration
enabled_source req source_id s = get_source req.org_id source_id s >>= λ src.
    if not src.enabled
    then err (err_forbidden "source disabled")
    else if not (src.org_id == "") && not (src.org_id == req.org_id)
    then err (err_forbidden "source organization mismatch")
    else ok src

unfoldable pub evidence_ref_of : String × String → String
evidence_ref_of (key, version) = if version == "" then key else concat key (concat "@" version)

unfoldable pub evidence_key : Request → String → String
evidence_key req hash = concat req.org_id (concat "/quarantine/" hash)

-- the evidence of the body, with an evidence store and not in a dry run
unfoldable pub keep_evidence :
    Option PutEvidence → Request → String → String → Puts → Result String × Puts
keep_evidence none req hash body puts = (ok "", puts)
keep_evidence (some put) req hash body puts = if req.dry_run then (ok "", puts) else (
  put puts (evidence_key req hash) body >>= λ r. ok (evidence_ref_of r),
  puts ++ (evidence_key req hash, body) ∷ [],
)

-- the payload of the outbox: an object, whose keys json.Marshal sorts
unfoldable pub event_payload : Request → String → String → Revision → Json
event_payload req source_id event_id rev = obj (
    field "event_id" (text event_id) (
      field "org_id" (text req.org_id) (
        field "resource_id" (text rev.resource_id)
          (field "revision_id" (text rev.revision_id) (field "source_id" (text source_id) end)))))

module _ (codec : Codec) (evidence : Option PutEvidence) (now : ℕ) (fresh : Fresh) where
  unfoldable pub revision_of : Request → Canonical → Bool → String → String → Revision
  revision_of req c generated hash evidence_ref = record {
    revision_id = fresh.revision;
    resource_id = c.resource_id;
    org_id = req.org_id;
    content_hash = first_non_empty (req.event.content_hash ∷ hash ∷ []);
    evidence_ref = first_non_empty (evidence_ref ∷ req.event.evidence_ref ∷ c.content_locator ∷ []);
    sequence = 0;
    state = "ACCEPTED";
    attributes =
        ("trust", c.trust)
        ∷ ("authority", c.authority)
        ∷ (if generated then ("observation", "generated") ∷ [] else []);
    observed_at = c.observed_at;
    created_at = now;
  }

  -- the record of the canonical fields, with the event's identifier where the mapping gives none
  unfoldable pub record_of : Request → String → SourceRegistration → Canonical → LedgerRecord
  record_of req source_id src c =
      let rec = to_record c req.org_id (first_non_empty (src.system ∷ source_id ∷ [])) now in
      record rec {
        external_id = or_default rec.external_id req.event.external_id;
        current_rev_id = fresh.revision;
        updated_at = now;
      }

  unfoldable pub writes_of : Request → String → String → String → Revision → Writes
  writes_of req source_id event_id key rev = record {
    revision = rev;
    entry = record {
      id = event_id;
      org_id = req.org_id;
      subject = "context.work.v1";
      payload = codec.host.marshal (event_payload req source_id event_id rev);
      headers = some (("Nats-Msg-Id", event_id) ∷ ("event_id", event_id) ∷ []);
      created_at = now;
      published = none;
    };
    once =
        if key == ""
        then none
        else some (record {
          org_id = req.org_id;
          idempotency_key = key;
          event_id = event_id;
          resource_id = rev.resource_id;
          revision_id = rev.revision_id;
          created_at = now;
        });
  }

  -- the answer to a conflict in the transaction: the record of the key, where it is there now
  unfoldable pub recover : Request → String → Error → Store → Result IntakeResult
  recover req key e s =
      let known : Result IntakeResult = elim (get_idempotency req.org_id key s) [
        | ok prev ↦ ok (duplicate_of req prev)
        | err x ↦ err e
      ] in
      elim (status_of e) [ none ↦ err e | some code ↦ if code == 409 then known else err e ]

  unfoldable pub answer :
      Request → Canonical → String → Revision → String → Step LedgerRecord → Step IntakeResult
  answer req c event_id rev key (err e, s) = (recover req key e s, s)
  answer req c event_id rev key (ok rec, s) = (
    ok (record {
      event_id = event_id;
      organization_id = req.org_id;
      resource_id = rec.resource_id;
      revision_id = rev.revision_id;
      status = "accepted";
      duplicate = false;
      idempotent_replay = false;
      evidence_ref = rev.evidence_ref;
      content_hash = rev.content_hash;
      edge_count = length c.edges;
    }),
    s,
  )

  -- with the canonical fields: the answer to a dry run, or the transaction
  unfoldable pub accept :
      Request
      → String
      → SourceRegistration
      → String
      → String
      → String
      → Canonical
      → Store
      → Step IntakeResult
  accept req source_id src key hash evidence_ref c s =
      let rec = record_of req source_id src c in
      let generated = is_generated c rec in
      let event_id = or_default req.event.event_id fresh.event in
      let rev = revision_of req c generated hash evidence_ref in
      if req.dry_run
      then (
        ok (record {
          event_id = first_non_empty (req.event.event_id ∷ fresh.event ∷ []);
          organization_id = req.org_id;
          resource_id = c.resource_id;
          revision_id = "";
          status = "accepted";
          duplicate = false;
          idempotent_replay = false;
          evidence_ref = evidence_ref;
          content_hash = hash;
          edge_count = length c.edges;
        }),
        s,
      )
      else answer req c event_id rev key (
          commit codec.host req.org_id now fresh.op generated rec c.edges
            (writes_of req source_id event_id key rev) s)

  -- the canonical fields of a request that is no replay
  unfoldable pub canonical_of : Request → SourceRegistration → String → Result Canonical
  canonical_of req src body =
      apply codec.host (spec_of req src) (payload_of codec req body) (ceilings_of src req.org_id)
        req.dry_run fresh.resource now

  -- with the evidence that was kept: the mapping, then the answer or the transaction
  unfoldable pub map_in :
      Request
      → String
      → SourceRegistration
      → String
      → String
      → Result String
      → Store
      → Step IntakeResult
  map_in req source_id src key body (err e) s = (err e, s)
  map_in req source_id src key body (ok evidence_ref) s =
      let hash = concat "sha256:" (codec.host.sha256_hex body) in
      elim (canonical_of req src body) [
        | err e ↦ (err e, s)
        | ok c ↦ accept req source_id src key hash evidence_ref c s
      ]

  unfoldable pub take_in :
      Request → String → SourceRegistration → String → String → World → Act IntakeResult
  take_in req source_id src key body w =
      let hash = concat "sha256:" (codec.host.sha256_hex body) in
      let kept = keep_evidence evidence req hash body w.evidence in
      with_puts kept.1 (map_in req source_id src key body kept.0 w.ledger)

  -- with the checked source: signature and time, then the key
  unfoldable pub from_source : Request → String → SourceRegistration → World → Act IntakeResult
  from_source req source_id src w =
      let body = body_of codec req in
      let key = idempotency_key_of req in
      let taken = take_in req source_id src key body w in
      let replayed : Act IntakeResult = elim (get_idempotency req.org_id key w.ledger) [
        | ok prev ↦ (ok (duplicate_of req prev), w)
        | err (api e) ↦ taken
        | err (plain e) ↦ (err (plain e), w)
      ] in
      elim (authenticate codec src req body now) [
        | err e ↦ (err e, w)
        | ok done ↦ if key == "" then taken else replayed
      ]

  -- Intake
  unfoldable pub intake : Request → World → Act IntakeResult
  intake req w =
      let source_id = or_default req.source_id req.event.source_system in
      if req.org_id == ""
      then (err (err_validation "organization_id required"), w)
      else if source_id == ""
      then (err (err_validation "source_id required"), w)
      else elim (enabled_source req source_id w.ledger) [
        | err e ↦ (err e, w)
        | ok src ↦ from_source req source_id src w
      ]
