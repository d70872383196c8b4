-- ===== src/Ingest/Intake/Taken.antt =====
-- What it is that an intake took a request, in terms of the functions that it is made of.
use gontext.Base.{ℕ}
use gontext.Base.{String, concat}
use gontext.Base.{◌≡◌, ◌⊎◌}
use gontext.Base.{true, false, ◌||◌, Option, [], ◌∷◌, ◌++◌}
use gontext.Base.Dict.{get2}
use gontext.Ports.{LedgerRecord, Revision, SourceRegistration}
use gontext.Platform.{Result, ok, err}
use gontext.Ledger.{or_default}
use gontext.Mapping.{Canonical}
use gontext.Mapping.Apply.Ceilings.{IsWithin}
use gontext.Ingest.{
  Request, IntakeResult, Codec, authenticate, body_of, idempotency_key_of, ceilings_of,
  is_generated,
}
use gontext.Ingest.Commit.{Writes, merged}
use gontext.Ingest.Commit.Outcome.{Written}
use gontext.Ingest.Intake.{
  Fresh, Puts, PutEvidence, World, Act, evidence_key, keep_evidence, canonical_of, enabled_source,
  revision_of, record_of, writes_of,
}

-- the identifier of the request's source, and the hash of its body
unfoldable pub source_of : Request → String
source_of req = or_default req.source_id req.event.source_system

unfoldable pub hash_of : Codec → Request → String
hash_of codec req = concat "sha256:" (codec.host.sha256_hex (body_of codec req))

module _ (codec : Codec) (evidence : Option PutEvidence) (now : ℕ) (fresh : Fresh) where
  -- the record and the revision that a request gives, and all that is written beside
  unfoldable pub new_record : Request → SourceRegistration → Canonical → LedgerRecord
  new_record req src c = record_of codec evidence now fresh req (source_of req) src c

  unfoldable pub new_revision : Request → SourceRegistration → Canonical → String → Revision
  new_revision req src c evidence_ref =
      revision_of codec evidence now fresh req c (is_generated c (new_record req src c))
        (hash_of codec req) evidence_ref

  unfoldable pub new_writes : Request → SourceRegistration → Canonical → String → Writes
  new_writes req src c evidence_ref =
      writes_of codec evidence now fresh req (source_of req)
        (or_default req.event.event_id fresh.event) (idempotency_key_of req)
        (new_revision req src c evidence_ref)

  -- The intake of a request that was taken: from an enabled source, authentic, its body kept as
  -- evidence, mapped within the source's limits, merged with what was there, and written as a whole.
  pub record Taken (req : Request) (w : World) (r : Act IntakeResult) : Type 0 where
    pub source : SourceRegistration
    pub canonical : Canonical
    pub evidence_ref : String
    pub old : Option LedgerRecord
    pub new : LedgerRecord
    pub answered : IntakeResult
    pub live : req.dry_run ≡ false
    pub enabled : enabled_source req (source_of req) w.ledger ≡ ok source
    pub authentic : authenticate codec source req (body_of codec req) now ≡ ok tt
    pub evident :
        keep_evidence evidence req (hash_of codec req) (body_of codec req) w.evidence
        ≡ (ok evidence_ref, r.1.evidence)
    pub mapped : canonical_of codec evidence now fresh req source (body_of codec req) ≡ ok canonical
    pub within : IsWithin (ceilings_of source req.org_id) canonical
    pub before : get2 w.ledger.records req.org_id canonical.resource_id ≡ old
    pub merges :
        merged
          (is_generated canonical (new_record req source canonical))
          (new_record req source canonical)
          old
          now
        ≡ ok new
    pub answers : r.0 ≡ ok answered
    pub accepted : answered.status ≡ "accepted"
    pub organization : answered.organization_id ≡ req.org_id
    pub event : answered.event_id ≡ or_default req.event.event_id fresh.event
    pub resource : answered.resource_id ≡ canonical.resource_id
    pub revision : answered.revision_id ≡ fresh.revision
    pub wrote :
        Written codec.host req.org_id now fresh.op canonical.edges new
          (new_writes req source canonical evidence_ref)
          w.ledger
          r.1.ledger

  -- an answer to a dry run, a duplicate, or an error
  unfoldable pub IsQuiet : Request → Result IntakeResult → Type 0
  IsQuiet req (err e) = Unit
  IsQuiet req (ok a) = (req.dry_run || a.duplicate) ≡ true

  -- The evidence store was asked for nothing, or for one Put: of the body of a request that its
  -- enabled source accepts and that is no dry run, under the key of its organization and its hash.
  unfoldable pub KeepsPuts : Request → World → Puts → Type 0
  KeepsPuts req w puts =
      (puts ≡ w.evidence)
      ⊎ ((src : SourceRegistration) × (req.dry_run ≡ false)
          × (enabled_source req (source_of req) w.ledger ≡ ok src)
          × (authenticate codec src req (body_of codec req) now ≡ ok tt)
          × (puts ≡ w.evidence ++ (evidence_key req (hash_of codec req), body_of codec req) ∷ []))

  -- The ledger is as it was, the evidence store at most asked for the body, and the answer claims
  -- nothing new; or the request was taken.
  unfoldable pub IsAtomic : Request → World → Act IntakeResult → Type 0
  IsAtomic req w r =
      ((r.1.ledger ≡ w.ledger) × KeepsPuts req w r.1.evidence × IsQuiet req r.0) ⊎ Taken req w r
