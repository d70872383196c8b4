-- ===== src/Ingest/Intake/Replay.antt =====
-- A request that is sent again after it was taken.
use gontext.Base.{ℕ}
use gontext.Base.{String, string_eq, ◌==◌}
use gontext.Base.{◌≡◌, refl, sym, ap, subst, ◌∙◌, ◌⊎◌, inl, inr}
use gontext.Base.{true, false, not, ◌&&◌, ◌||◌, Option}
use gontext.Base.{if◌then◌else◌, Bool-cases}
use gontext.Base.Dict.{Dict2, get2}
use gontext.Ports.{SourceRegistration, IdempotencyRecord}
use gontext.Platform.{ok, err, Error, ◌>>=◌, ok_injective, Result-cases, err_forbidden}
use gontext.Ledger.{Store, found}
use gontext.Ledger.Records.{get_source}
use gontext.Ledger.Once.{get_idempotency}
use gontext.Ingest.{Request, IntakeResult, Codec, authenticate, body_of, idempotency_key_of}
use gontext.Ingest.Commit.Outcome.{Remembers, with_all}
use gontext.Ingest.Intake.{
  Fresh, PutEvidence, World, Act, duplicate_of, enabled_source, revision_of, writes_of, from_source,
  intake,
}
use gontext.Ingest.Intake.Taken.{Taken, IsAtomic, IsQuiet, source_of, new_writes, new_revision}
use gontext.Ingest.Intake.Answer.{if_no, if_yes}
use gontext.Ingest.Intake.Outcome.{intake-IsAtomic}

-- the answer to the second of two equal requests
unfoldable pub duplicate_answer : IntakeResult → IntakeResult
duplicate_answer a = record a {
  status = "duplicate";
  duplicate = true;
  idempotent_replay = true;
  evidence_ref = "";
  content_hash = "";
  edge_count = 0;
}

enabled_source-same :
    (req : Request) (id : String) (s t : Store)
    → t.sources ≡ s.sources
    → enabled_source req id t ≡ enabled_source req id s
unfolding enabled_source get_source
enabled_source-same req id s t e =
    ap
      (λ (m : Dict2 SourceRegistration). found (get2 m req.org_id id) "source not found" >>= λ src.
        if not src.enabled
        then err (err_forbidden "source disabled")
        else if not (src.org_id == "") && not (src.org_id == req.org_id)
        then err (err_forbidden "source organization mismatch")
        else ok src)
      e

module _ (codec : Codec) (evidence : Option PutEvidence) (now : ℕ) (fresh : Fresh) where
  -- An answer that claims something new is of a request that was taken.
  pub took :
      (req : Request) (w : World) (a : IntakeResult) (r : Act IntakeResult)
      → IsAtomic codec evidence now fresh req w r
      → r.0 ≡ ok a
      → (req.dry_run || a.duplicate) ≡ false
      → Taken codec evidence now fresh req w r
  unfolding IsAtomic IsQuiet
  took req s a r (inr t) h new = t
  took req w a (ok b, t) (inl (same, puts, quiet)) h new =
      absurd
        (cc (quiet, new, ap (λ (x : IntakeResult). req.dry_run || x.duplicate) (ok_injective h)))
  took req w a (err e, t) (inl (same, puts, quiet)) h new = absurd (cc (h))

  -- the checks before the source, of an intake that is answered
  intake-IsNamed :
      (req : Request) (w : World) (a : IntakeResult)
      → (intake codec evidence now fresh req w).0 ≡ ok a
      → ((req.org_id == "") ≡ false) × ((source_of req == "") ≡ false)
  unfolding intake source_of
  intake-IsNamed req w a h = elim (Bool-cases (req.org_id == "")) [
    | inl y ↦ absurd (cc (ap (λ (r : Act IntakeResult). r.0) (if_yes _ _ y), h))
    | inr n ↦ elim (Bool-cases (source_of req == "")) [
      | inl y ↦ absurd (cc (ap (λ (r : Act IntakeResult). r.0) (if_no _ _ n ∙ if_yes _ _ y), h))
      | inr m ↦ (n, m)
    ]
  ]

  -- With the checks before the source passed, the intake goes on with the source.
  pub intake-from_source :
      (req : Request) (w : World) (src : SourceRegistration)
      → (req.org_id == "") ≡ false
      → (source_of req == "") ≡ false
      → enabled_source req (source_of req) w.ledger ≡ ok src
      → intake codec evidence now fresh req w
        ≡ from_source codec evidence now fresh req (source_of req) src w
  unfolding intake source_of
  intake-from_source req w src n m h = if_no _ _ n ∙ if_no _ _ m ∙ rw (h) refl

  -- A key that has a record answers the duplicate, where the signature and the time are accepted.
  from_source-replays :
      (req : Request) (src : SourceRegistration) (prev : IdempotencyRecord) (w : World)
      → (idempotency_key_of req == "") ≡ false
      → get_idempotency req.org_id (idempotency_key_of req) w.ledger ≡ ok prev
      → ((e : Error) × (authenticate codec src req (body_of codec req) now ≡ err e)
          × (from_source codec evidence now fresh req (source_of req) src w ≡ (err e, w)))
        ⊎ (from_source codec evidence now fresh req (source_of req) src w
            ≡ (ok (duplicate_of req prev), w))
  unfolding from_source
  from_source-replays req src prev w n k =
      elim (Result-cases (authenticate codec src req (body_of codec req) now)) [
        | inl (e, h) ↦ inl (e, h, rw (h, from_source) refl)
        | inr (u, h) ↦ inr (rw (h, n, k, from_source) refl)
      ]

  -- What the key of a taken request stands for.
  remembered-duplicate :
      (req : Request) (w : World) (r : Act IntakeResult)
      (t : Taken codec evidence now fresh req w r)
      → (idempotency_key_of req == "") ≡ false
      → (prev : IdempotencyRecord) × (get_idempotency req.org_id (idempotency_key_of req) r.1.ledger
          ≡ ok prev)
        × (duplicate_of req prev ≡ duplicate_answer t.answered)
  unfolding Remembers new_writes writes_of get_idempotency found duplicate_of duplicate_answer
      new_revision revision_of
  remembered-duplicate req w r t n =
      let kept =
        subst (λ (o : Option IdempotencyRecord). Remembers o now r.1.ledger) (if_no _ _ n)
          t.wrote.remembered in
      (
        _,
        ap (λ o. found o "idempotency key not found") kept,
        cc (t.organization, t.event, t.resource, t.revision),
      )

-- What a second intake does: it changes neither the ledger nor the evidence store, and the enabled source's check of the signature and
-- the time refuses it, or it answers the duplicate of the first answer.
unfoldable pub IsRepeat : Codec → ℕ → Request → IntakeResult → World → Act IntakeResult → Type 0
IsRepeat codec now req a t second =
    ((e : Error) × (src : SourceRegistration) × (enabled_source req (source_of req) t.ledger
        ≡ ok src)
      × (authenticate codec src req (body_of codec req) now ≡ err e)
      × (second ≡ (err e, t)))
    ⊎ (second ≡ (ok (duplicate_answer a), t))

-- Once a request with a key was answered as taken, the same request at any later time, with other
-- new identifiers and other answers of the evidence store, changes nothing of the ledger and the
-- evidence store: either the source refuses its
-- signature or its time, or it is answered as the duplicate, with the event, the record and the
-- revision of the first answer.
pub intake-IsRepeat :
    (codec : Codec) (evidence other : Option PutEvidence) (now later : ℕ) (fresh again : Fresh)
    (req : Request) (w : World) (a : IntakeResult)
    → (intake codec evidence now fresh req w).0 ≡ ok a
    → (req.dry_run || a.duplicate) ≡ false
    → (idempotency_key_of req == "") ≡ false
    → IsRepeat codec later req a
        (intake codec evidence now fresh req w).1
        (intake codec other later again req (intake codec evidence now fresh req w).1)
unfolding IsRepeat with_all
intake-IsRepeat codec evidence other now later fresh again req w a h new keyed =
    let first = intake codec evidence now fresh req w in
    let t =
      took codec evidence now fresh req w a first (intake-IsAtomic codec evidence now fresh req w) h
        new in
    let (n, m) = intake-IsNamed codec evidence now fresh req w a h in
    let enabled =
      enabled_source-same req (source_of req) w.ledger first.1.ledger
        (ap (λ (x : Store). x.sources) t.wrote.rest)
      ∙ t.enabled in
    let (prev, k, same) = remembered-duplicate codec evidence now fresh req w first t keyed in
    let go = intake-from_source codec other later again req first.1 t.source n m enabled in
    elim (from_source-replays codec other later again req t.source prev first.1 keyed k) [
      | inl (e, refused, r) ↦ inl (e, t.source, enabled, refused, go ∙ r)
      | inr r ↦ inr (
          go
          ∙ r
          ∙ ap (λ (x : IntakeResult). (ok x, first.1))
              (same ∙ ap duplicate_answer (ok_injective (sym t.answers ∙ h))))
    ]
