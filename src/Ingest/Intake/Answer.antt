-- ===== src/Ingest/Intake/Answer.antt =====
-- What an intake does once its payload is mapped: the dry run, the transaction and its answer.
use gontext.Base.{ℕ}
use gontext.Base.{String, string_eq, ◌==◌}
use gontext.Base.{◌≡◌, refl, sym, ap, subst, ◌∙◌, ◌≢◌, ◌⊎◌, inl, inr}
use gontext.Base.{Bool, true, false, Option, none, some, [], ◌∷◌, ◌++◌}
use gontext.Base.{arith, if◌then◌else◌, Bool-cases, Option-cases, All}
use gontext.Base.{number_eq}
use gontext.Base.Dict.{get}
use gontext.Ports.{LedgerRecord, SourceRegistration}
use gontext.Platform.{Result, ok, err, Error, api, plain, ok_injective, Result-cases, status_of}
use gontext.Ledger.{Store, Step, found, or_default}
use gontext.Ledger.Once.{get_idempotency, idempotency_index}
use gontext.Mapping.{Canonical, SourceCeilings, to_record}
use gontext.Mapping.Apply.Ceilings.{IsWithin}
use gontext.Mapping.Edges.Sound.{IsSound}
use gontext.Ingest.{
  Request, IntakeResult, Codec, authenticate, body_of, idempotency_key_of, ceilings_of,
  is_generated,
}
use gontext.Ingest.Commit.Outcome.{IsFree, IsDecided, merged-keys, commit-IsDecided}
use gontext.Ingest.Intake.{
  Fresh, Puts, PutEvidence, World, with_puts, evidence_key, keep_evidence, canonical_of,
  duplicate_of, enabled_source, revision_of, record_of, writes_of, recover, answer, accept,
}
use gontext.Ingest.Intake.Taken.{
  source_of, hash_of, new_record, new_revision, new_writes, IsQuiet, KeepsPuts, IsAtomic,
}

pub if_yes {ℓ} : {A : Type ℓ} {b : Bool} (x y : A) → b ≡ true → (if b then x else y) ≡ x
if_yes x y h = rw (h) refl

pub if_no {ℓ} : {A : Type ℓ} {b : Bool} (x y : A) → b ≡ false → (if b then x else y) ≡ y
if_no x y h = rw (h) refl

keep_evidence-puts :
    (evidence : Option PutEvidence) (req : Request) (hash body : String) (puts : Puts)
    → ((keep_evidence evidence req hash body puts).1 ≡ puts)
      ⊎ ((req.dry_run ≡ false)
          × ((keep_evidence evidence req hash body puts).1
              ≡ puts ++ (evidence_key req hash, body) ∷ []))
unfolding keep_evidence
keep_evidence-puts none req hash body puts = inl refl
keep_evidence-puts (some put) req hash body puts = elim (Bool-cases req.dry_run) [
  | inl y ↦ rw (y) (inl refl)
  | inr n ↦ inr (n, rw (n) refl)
]

module _ (codec : Codec) (evidence : Option PutEvidence) (now : ℕ) (fresh : Fresh) where
  -- The key of the request has no record: it is "", or the ledger does not find it.
  unfoldable pub IsNew : Request → Store → Type 0
  IsNew req s =
      ((idempotency_key_of req == "") ≡ true)
      ⊎ ((e : Error) × (get_idempotency req.org_id (idempotency_key_of req) s ≡ err e))

  pub IsNew-IsFree :
      (req : Request) (src : SourceRegistration) (c : Canonical) (evidence_ref : String) (s : Store)
      → IsNew req s
      → IsFree (new_writes codec evidence now fresh req src c evidence_ref).once s
  unfolding IsNew IsFree get_idempotency new_writes writes_of found
  IsNew-IsFree req src c evidence_ref s fresh_key =
      elim (Bool-cases (idempotency_key_of req == "")) [
        | inl y ↦ rw (y) tt
        | inr n ↦ rw (n) (elim fresh_key [
          | inl y ↦ absurd (ground arith)
          | inr (e, h) ↦
              elim (Option-cases
                (get s.idempotency (idempotency_index req.org_id (idempotency_key_of req)))) [
                  | inl k ↦ rw (k) refl
                  | inr (old, k) ↦ absurd (cc (rw (k, found) at h))
                ]
        ])
      ]

  pub within_edges :
      (ceilings : SourceCeilings) (c : Canonical) → IsWithin ceilings c → All IsSound c.edges
  unfolding IsWithin
  within_edges ceilings c (org, capped, kind, trust, authority, synced, edges, once) = edges

  recover-IsQuiet :
      (req : Request) (key : String) (e : Error) (s : Store)
      → IsQuiet codec evidence now fresh req (recover codec evidence now fresh req key e s)
  unfolding recover IsQuiet duplicate_of status_of
  recover-IsQuiet req key (plain x) s = tt
  recover-IsQuiet req key (api x) s = elim (Bool-cases (x.http_status == 409)) [
    | inr n ↦ subst (IsQuiet codec evidence now fresh req) (sym (if_no _ _ n)) tt
    | inl y ↦
        subst (IsQuiet codec evidence now fresh req) (sym (if_yes _ _ y))
          (elim (Result-cases (get_idempotency req.org_id key s)) [
            | inl (z, h) ↦ rw (h) tt
            | inr (prev, h) ↦ rw (h) (ground arith)
          ])
  ]

  -- What is given once the payload is mapped.
  pub record Mapped (req : Request) (w : World) (src : SourceRegistration) (c : Canonical)
      (evidence_ref : String) (puts : Puts) : Type 0 where
    pub enabled : enabled_source req (source_of req) w.ledger ≡ ok src
    pub authentic : authenticate codec src req (body_of codec req) now ≡ ok tt
    pub evident :
        keep_evidence evidence req (hash_of codec req) (body_of codec req) w.evidence
        ≡ (ok evidence_ref, puts)
    pub mapped : canonical_of codec evidence now fresh req src (body_of codec req) ≡ ok c
    pub within : IsWithin (ceilings_of src req.org_id) c

  pub evident-KeepsPuts :
      (req : Request) (w : World) (src : SourceRegistration)
      → enabled_source req (source_of req) w.ledger ≡ ok src
      → authenticate codec src req (body_of codec req) now ≡ ok tt
      → KeepsPuts codec evidence now fresh req w
          (keep_evidence evidence req (hash_of codec req) (body_of codec req) w.evidence).1
  unfolding KeepsPuts
  evident-KeepsPuts req w src enabled authentic =
      elim (keep_evidence-puts evidence req (hash_of codec req) (body_of codec req) w.evidence) [
        | inl e ↦ inl e
        | inr (n, e) ↦ inr (src, n, enabled, authentic, e)
      ]

  answer-IsAtomic :
      (req : Request) (src : SourceRegistration) (c : Canonical) (evidence_ref : String) (w : World)
      (puts : Puts) (named : req.org_id ≢ "") (r : Step LedgerRecord)
      → req.dry_run ≡ false
      → Mapped req w src c evidence_ref puts
      → IsDecided codec.host req.org_id now fresh.op named
          (is_generated c (new_record codec evidence now fresh req src c))
          (new_record codec evidence now fresh req src c)
          c.edges
          (new_writes codec evidence now fresh req src c evidence_ref)
          w.ledger
          r
      → IsAtomic codec evidence now fresh req w (
          with_puts puts (
            answer codec evidence now fresh req c
              (or_default req.event.event_id fresh.event)
              (new_revision codec evidence now fresh req src c evidence_ref)
              (idempotency_key_of req)
              r))
  unfolding IsAtomic IsDecided answer new_record record_of to_record new_revision revision_of
      with_puts
  answer-IsAtomic req src c evidence_ref w puts named (ok rec, t) live m (inl (e, h)) =
      absurd (cc (ap (λ (r : Step LedgerRecord). r.0) h))
  answer-IsAtomic req src c evidence_ref w puts named (err x, t) live m (inl (e, h)) = inl (
    ap (λ (r : Step LedgerRecord). r.1) h,
    subst (KeepsPuts codec evidence now fresh req w)
        (ap (λ (k : Result String × Puts). k.1) m.evident)
        (evident-KeepsPuts req w src m.enabled m.authentic),
    recover-IsQuiet req (idempotency_key_of req) x t,
  )
  answer-IsAtomic req src c evidence_ref w puts named (err x, t) live m
        (inr (old, new, before, merges, fine, wrote)) =
      absurd (cc (fine))
  answer-IsAtomic req src c evidence_ref w puts named (ok rec, t) live m
        (inr (old, new, before, merges, fine, wrote)) =
      inr (record {
        source = src;
        canonical = c;
        evidence_ref = evidence_ref;
        old = old;
        new = new;
        answered = _;
        live = live;
        enabled = m.enabled;
        authentic = m.authentic;
        evident = m.evident;
        mapped = m.mapped;
        within = m.within;
        before = before;
        merges = merges;
        answers = refl;
        accepted = refl;
        organization = refl;
        event = refl;
        resource =
            ap (λ (x : LedgerRecord). x.resource_id) (ok_injective fine)
            ∙ (merged-keys _ _ old new now merges).1;
        revision = refl;
        wrote = wrote;
      })

  pub accept-IsAtomic :
      (req : Request) (src : SourceRegistration) (c : Canonical) (evidence_ref : String) (w : World)
      (puts : Puts)
      → req.org_id ≢ ""
      → Mapped req w src c evidence_ref puts
      → IsNew req w.ledger
      → IsAtomic codec evidence now fresh req w (
          with_puts puts (
            accept codec evidence now fresh req
              (source_of req)
              src
              (idempotency_key_of req)
              (hash_of codec req)
              evidence_ref
              c
              w.ledger))
  unfolding IsAtomic IsQuiet accept new_record new_writes new_revision record_of to_record with_puts
  accept-IsAtomic req src c evidence_ref w puts named m fresh_key =
      let claim =
        λ (r : Step IntakeResult). IsAtomic codec evidence now fresh req w (with_puts puts r) in
      elim (Bool-cases req.dry_run) [
        | inl y ↦ subst claim (sym (if_yes _ _ y)) (
            inl (
              refl,
              subst (KeepsPuts codec evidence now fresh req w)
                  (ap (λ (k : Result String × Puts). k.1) m.evident)
                  (evident-KeepsPuts req w src m.enabled m.authentic),
              ground arith,
            ))
        | inr n ↦ subst claim (sym (if_no _ _ n)) (
            answer-IsAtomic req src c evidence_ref w puts named _ n m (
              commit-IsDecided codec.host req.org_id now fresh.op named
                (is_generated c (new_record codec evidence now fresh req src c))
                (new_record codec evidence now fresh req src c) c.edges
                (new_writes codec evidence now fresh req src c evidence_ref) w.ledger refl
                (within_edges (ceilings_of src req.org_id) c m.within)
                (IsNew-IsFree req src c evidence_ref w.ledger fresh_key)))
      ]
