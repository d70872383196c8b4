-- ===== src/Ingest/Intake/Accepts.antt =====
-- When an intake is taken.
use gontext.Base.{ℕ}
use gontext.Base.{String, string_eq, ◌==◌, eq_iff}
use gontext.Base.{◌≡◌, refl, ap, ◌∙◌, ◌≢◌, inl, inr}
use gontext.Base.{Bool, true, false, not, ◌||◌, Option, List}
use gontext.Base.{arith, Bool-cases, Option-cases, is_some, All}
use gontext.Base.{number_eq}
use gontext.Base.Dict.{get, get2}
use gontext.Ports.{LedgerRecord, SourceRegistration}
use gontext.Platform.{Result, ok, err, err_not_found}
use gontext.Ledger.{Store, Step, found, or_default}
use gontext.Ledger.Records.{get_record}
use gontext.Ledger.Once.{get_idempotency, idempotency_index}
use gontext.Mapping.{Canonical, CanonicalEdge, Host, to_record}
use gontext.Mapping.Edges.Sound.{IsSound}
use gontext.Ingest.{
  Request, IntakeResult, Codec, authenticate, body_of, idempotency_key_of, is_generated,
  ceilings_of,
}
use gontext.Ingest.Commit.{Writes, write_all, write_merged, merged, commit}
use gontext.Ingest.Commit.Steps.{missing}
use gontext.Ingest.Commit.Outcome.{IsFree, write_all-Written, merged-keys, answered}
use gontext.Ingest.Intake.{
  Fresh, Puts, PutEvidence, World, Act, with_puts, map_in, keep_evidence, enabled_source,
  canonical_of, answer, accept, take_in, from_source, record_of, intake,
}
use gontext.Ingest.Intake.Taken.{source_of, hash_of, new_record, new_revision, new_writes, Taken}
use gontext.Ingest.Intake.Answer.{IsNew, IsNew-IsFree, within_edges, if_no}
use gontext.Ingest.Intake.Outcome.{canonical-IsWithin, intake-IsAtomic}
use gontext.Ingest.Intake.Replay.{took, intake-from_source}

commit-writes :
    (host : Host) (org_id : String) (now : ℕ) (fresh : String → String) (named : org_id ≢ "")
    (generated : Bool) (rec new : LedgerRecord) (edges : List CanonicalEdge) (w : Writes)
    (s : Store)
    → rec.org_id ≡ org_id
    → merged generated rec (get2 s.records org_id rec.resource_id) now ≡ ok new
    → All IsSound edges
    → IsFree w.once s
    → (commit host org_id now fresh generated rec edges w s).0 ≡ ok new
unfolding commit get_record found write_merged
commit-writes host org_id now fresh named generated rec new edges w s org m sound free =
    let keys = merged-keys generated rec (get2 s.records org_id rec.resource_id) new now m in
    let fine =
      (write_all-Written host org_id now fresh named new edges w s (keys.0 ∙ org) sound free).0 in
    elim (Option-cases (get2 s.records org_id rec.resource_id)) [
      | inl e ↦
          rw
            (
              e,
              commit,
              missing "record not found",
              rw (e) at m,
              write_merged,
              answered (write_all host org_id now fresh new edges w s) new fine,
            )
            refl
      | inr (old, e) ↦
          rw
            (
              e,
              commit,
              rw (e) at m,
              write_merged,
              answered (write_all host org_id now fresh new edges w s) new fine,
            )
            refl
    ]

module _ (codec : Codec) (evidence : Option PutEvidence) (now : ℕ) (fresh : Fresh) (req : Request)
    (w : World) where
  answer-ok :
      (c : Canonical) (src : SourceRegistration) (evidence_ref : String) (new : LedgerRecord)
      (puts : Puts) (r : Step LedgerRecord)
      → r.0 ≡ ok new
      → (a : IntakeResult) × ((with_puts puts (
            answer codec evidence now fresh req c
              (or_default req.event.event_id fresh.event)
              (new_revision codec evidence now fresh req src c evidence_ref)
              (idempotency_key_of req)
              r)).0
          ≡ ok a)
        × (a.duplicate ≡ false)
  unfolding answer with_puts
  answer-ok c src evidence_ref new puts (ok rec, t) h = (_, refl, refl)
  answer-ok c src evidence_ref new puts (err e, t) h = absurd (cc (h))

  -- the key of the request is "", or it has no record
  unfoldable pub is_unused : Bool
  is_unused =
      idempotency_key_of req == ""
      || not (
          is_some
            (get w.ledger.idempotency (idempotency_index req.org_id (idempotency_key_of req))))

  unused-IsNew : is_unused ≡ true → IsNew codec evidence now fresh req w.ledger
  unfolding is_unused IsNew get_idempotency found
  unused-IsNew u = elim (Bool-cases (idempotency_key_of req == "")) [
    | inl y ↦ inl y
    | inr n ↦
        elim (Option-cases
          (get w.ledger.idempotency (idempotency_index req.org_id (idempotency_key_of req)))) [
            | inl e ↦ inr (
              err_not_found "idempotency key not found",
              ap (λ o. found o "idempotency key not found") e,
            )
            | inr (old, e) ↦ absurd (ground arith)
          ]
  ]

  from_source-takes :
      (src : SourceRegistration)
      → authenticate codec src req (body_of codec req) now ≡ ok tt
      → is_unused ≡ true
      → from_source codec evidence now fresh req (source_of req) src w
        ≡ take_in codec evidence now fresh req
            (source_of req)
            src
            (idempotency_key_of req)
            (body_of codec req)
            w
  unfolding is_unused from_source get_idempotency found err_not_found
  from_source-takes src h u = elim (Bool-cases (idempotency_key_of req == "")) [
    | inl y ↦ rw (h, y, from_source) refl
    | inr n ↦
        elim (Option-cases
          (get w.ledger.idempotency (idempotency_index req.org_id (idempotency_key_of req)))) [
            | inl e ↦ rw (h, n, e, from_source) refl
            | inr (old, e) ↦ absurd (ground arith)
          ]
  ]

  -- the transaction that a request asks for
  abbrev written : SourceRegistration → Canonical → String → Step LedgerRecord
  written src c evidence_ref =
      commit codec.host req.org_id now fresh.op
        (is_generated c (new_record codec evidence now fresh req src c))
        (new_record codec evidence now fresh req src c) c.edges
        (new_writes codec evidence now fresh req src c evidence_ref) w.ledger

  take_in-answers :
      (src : SourceRegistration) (c : Canonical) (evidence_ref : String) (puts : Puts)
      → keep_evidence evidence req (hash_of codec req) (body_of codec req) w.evidence
        ≡ (ok evidence_ref, puts)
      → canonical_of codec evidence now fresh req src (body_of codec req) ≡ ok c
      → req.dry_run ≡ false
      → take_in codec evidence now fresh req
          (source_of req)
          src
          (idempotency_key_of req)
          (body_of codec req)
          w
        ≡ with_puts puts (
            answer codec evidence now fresh req c
              (or_default req.event.event_id fresh.event)
              (new_revision codec evidence now fresh req src c evidence_ref)
              (idempotency_key_of req)
              (written src c evidence_ref))
  unfolding take_in map_in accept hash_of new_record new_revision new_writes
  take_in-answers src c evidence_ref puts evident mapped live =
      ap
        (λ (kept : Result String × Puts). with_puts kept.1 (
          map_in codec evidence now fresh req (source_of req) src (idempotency_key_of req)
            (body_of codec req) kept.0 w.ledger))
        evident
      ∙ rw (mapped, map_in) (ap (with_puts puts) (if_no _ _ live))

  -- A request is taken when all its checks pass: it names an organization and an enabled source, the
  -- source accepts its signature and time, its key has no record, its evidence is kept and its
  -- payload mapped, the mapped record may be merged with the one that is there, and it is no dry run.
  pub intake-Taken :
      (src : SourceRegistration) (c : Canonical) (evidence_ref : String) (puts : Puts)
      (new : LedgerRecord)
      → (req.org_id == "") ≡ false
      → (source_of req == "") ≡ false
      → enabled_source req (source_of req) w.ledger ≡ ok src
      → authenticate codec src req (body_of codec req) now ≡ ok tt
      → is_unused ≡ true
      → keep_evidence evidence req (hash_of codec req) (body_of codec req) w.evidence
        ≡ (ok evidence_ref, puts)
      → canonical_of codec evidence now fresh req src (body_of codec req) ≡ ok c
      → merged
          (is_generated c (new_record codec evidence now fresh req src c))
          (new_record codec evidence now fresh req src c)
          (get2 w.ledger.records req.org_id c.resource_id)
          now
        ≡ ok new
      → req.dry_run ≡ false
      → Taken codec evidence now fresh req w (intake codec evidence now fresh req w)
  unfolding new_record record_of to_record
  intake-Taken src c evidence_ref puts new named given enabled authentic unused evident mapped
        merges live =
      let within = canonical-IsWithin codec evidence now fresh req src c mapped in
      let org : req.org_id ≢ "" = λ z. absurd (ground (arith, eq_iff req.org_id "")) in
      let all = new_writes codec evidence now fresh req src c evidence_ref in
      let wrote =
        commit-writes codec.host req.org_id now fresh.op org
          (is_generated c (new_record codec evidence now fresh req src c))
          (new_record codec evidence now fresh req src c) new c.edges all w.ledger refl merges
          (within_edges codec evidence now fresh (ceilings_of src req.org_id) c within)
          (IsNew-IsFree codec evidence now fresh req src c evidence_ref w.ledger
            (unused-IsNew unused)) in
      let (a, answers, new_answer) =
        answer-ok c src evidence_ref new puts (written src c evidence_ref) wrote in
      let same =
        intake-from_source codec evidence now fresh req w src named given enabled
        ∙ from_source-takes src authentic unused
        ∙ take_in-answers src c evidence_ref puts evident mapped live in
      took codec evidence now fresh req w a _ (intake-IsAtomic codec evidence now fresh req w)
        (ap (λ (r : Act IntakeResult). r.0) same ∙ answers) (ground arith)
