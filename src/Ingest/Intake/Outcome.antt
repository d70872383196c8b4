-- ===== src/Ingest/Intake/Outcome.antt =====
-- What an intake does to the ledger, nothing or all its writes, and to the evidence store.
use gontext.Base.{ℕ}
use gontext.Base.{String, string_eq, ◌==◌, eq_iff}
use gontext.Base.{◌≡◌, refl, sym, ap, subst, ◌≢◌, inl, inr}
use gontext.Base.{Option}
use gontext.Base.{arith, Bool-cases}
use gontext.Base.{number_eq}
use gontext.Ports.{SourceRegistration}
use gontext.Platform.{Result, ok, err, api, plain, Result-cases}
use gontext.Ledger.Once.{get_idempotency}
use gontext.Mapping.{Canonical}
use gontext.Mapping.Apply.Ceilings.{apply-IsWithin, IsWithin}
use gontext.Ingest.{
  Request, IntakeResult, Codec, authenticate, body_of, payload_of, idempotency_key_of, ceilings_of,
  spec_of,
}
use gontext.Ingest.Intake.{
  Fresh, Puts, PutEvidence, World, with_puts, map_in, duplicate_of, enabled_source, keep_evidence,
  canonical_of, take_in, from_source, intake,
}
use gontext.Ingest.Intake.Taken.{source_of, hash_of, IsQuiet, KeepsPuts, IsAtomic}
use gontext.Ingest.Intake.Answer.{if_yes, if_no, IsNew, evident-KeepsPuts, accept-IsAtomic}

module _ (codec : Codec) (evidence : Option PutEvidence) (now : ℕ) (fresh : Fresh) where
  pub canonical-IsWithin :
      (req : Request) (src : SourceRegistration) (c : Canonical)
      → canonical_of codec evidence now fresh req src (body_of codec req) ≡ ok c
      → IsWithin (ceilings_of src req.org_id) c
  unfolding canonical_of
  canonical-IsWithin req src c h =
      apply-IsWithin codec.host (spec_of req src) (payload_of codec req (body_of codec req))
        (ceilings_of src req.org_id) req.dry_run fresh.resource now c h

  unchanged :
      (req : Request) (w : World) (a : Result IntakeResult)
      → IsQuiet codec evidence now fresh req a
      → IsAtomic codec evidence now fresh req w (a, w)
  unfolding IsAtomic KeepsPuts
  unchanged req w a quiet = inl (refl, inl refl, quiet)

  asked :
      (req : Request) (src : SourceRegistration) (w : World) (puts : Puts) (r : Result String)
      → enabled_source req (source_of req) w.ledger ≡ ok src
      → authenticate codec src req (body_of codec req) now ≡ ok tt
      → keep_evidence evidence req (hash_of codec req) (body_of codec req) w.evidence ≡ (r, puts)
      → KeepsPuts codec evidence now fresh req w puts
  asked req src w puts r enabled authentic evident =
      subst (KeepsPuts codec evidence now fresh req w)
        (ap (λ (k : Result String × Puts). k.1) evident)
        (evident-KeepsPuts codec evidence now fresh req w src enabled authentic)

  map_in-IsAtomic :
      (req : Request) (src : SourceRegistration) (w : World) (puts : Puts) (r : Result String)
      → req.org_id ≢ ""
      → enabled_source req (source_of req) w.ledger ≡ ok src
      → authenticate codec src req (body_of codec req) now ≡ ok tt
      → keep_evidence evidence req (hash_of codec req) (body_of codec req) w.evidence ≡ (r, puts)
      → IsNew codec evidence now fresh req w.ledger
      → IsAtomic codec evidence now fresh req w (
          with_puts puts (
            map_in codec evidence now fresh req
              (source_of req)
              src
              (idempotency_key_of req)
              (body_of codec req)
              r
              w.ledger))
  unfolding map_in IsAtomic IsQuiet hash_of with_puts
  map_in-IsAtomic req src w puts (err e) named enabled authentic evident fresh_key =
      inl (refl, asked req src w puts (err e) enabled authentic evident, tt)
  map_in-IsAtomic req src w puts (ok evidence_ref) named enabled authentic evident fresh_key =
      elim (Result-cases (canonical_of codec evidence now fresh req src (body_of codec req))) [
        | inl (e, h) ↦
            rw (h, map_in)
              (inl (refl, asked req src w puts (ok evidence_ref) enabled authentic evident, tt))
        | inr (c, h) ↦
            rw (h, map_in)
              (accept-IsAtomic codec evidence now fresh req src c evidence_ref w puts named
                (record {
                  enabled = enabled;
                  authentic = authentic;
                  evident = evident;
                  mapped = h;
                  within = canonical-IsWithin req src c h;
                })
                fresh_key)
      ]

  from_source-IsAtomic :
      (req : Request) (src : SourceRegistration) (w : World)
      → req.org_id ≢ ""
      → enabled_source req (source_of req) w.ledger ≡ ok src
      → IsAtomic codec evidence now fresh req w
          (from_source codec evidence now fresh req (source_of req) src w)
  unfolding from_source IsAtomic IsNew IsQuiet take_in hash_of
  from_source-IsAtomic req src w named enabled =
      elim (Result-cases (authenticate codec src req (body_of codec req) now)) [
        | inl (e, h) ↦ rw (h, from_source) (unchanged req w _ tt)
        | inr (u, h) ↦
            let taken = λ (k : IsNew codec evidence now fresh req w.ledger).
              map_in-IsAtomic req src w _ _ named enabled h refl k in
            elim (Bool-cases (idempotency_key_of req == "")) [
              | inl y ↦ rw (h, y, from_source) (taken (inl y))
              | inr n ↦
                  elim (Result-cases
                    (get_idempotency req.org_id (idempotency_key_of req) w.ledger)) [
                      | inl (api e, k) ↦ rw (h, n, k, from_source) (taken (inr (api e, k)))
                      | inl (plain e, k) ↦ rw (h, n, k, from_source) (unchanged req w _ tt)
                      | inr (prev, k) ↦
                          rw (h, n, k, from_source)
                            (unchanged req w _ (unfold duplicate_of in ground arith))
                    ]
            ]
      ]

  pub intake-IsAtomic :
      (req : Request) (w : World)
      → IsAtomic codec evidence now fresh req w (intake codec evidence now fresh req w)
  unfolding intake IsAtomic IsQuiet source_of
  intake-IsAtomic req w =
      let claim = IsAtomic codec evidence now fresh req w in
      elim (Bool-cases (req.org_id == "")) [
        | inl y ↦ subst claim (sym (if_yes _ _ y)) (unchanged req w _ tt)
        | inr a ↦ subst claim (sym (if_no _ _ a)) (elim (Bool-cases (source_of req == "")) [
          | inl y ↦ subst claim (sym (if_yes _ _ y)) (unchanged req w _ tt)
          | inr b ↦
              subst claim (sym (if_no _ _ b))
                (elim (Result-cases (enabled_source req (source_of req) w.ledger)) [
                  | inl (e, h) ↦ rw (h) (unchanged req w _ tt)
                  | inr (src, h) ↦ rw (h) (
                      from_source-IsAtomic req src w
                        (λ z. absurd (ground (arith, eq_iff req.org_id ""))) h)
                ])
        ])
      ]
