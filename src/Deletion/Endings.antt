-- ===== src/Deletion/Endings.antt =====
-- What the manifest of a run says.
use gontext.Base.{String, string_eq, ◌==◌, eq_iff}
use gontext.Base.{◌≡◌, refl, sym, ap, subst, ◌≢◌, ◌⊎◌, inl, inr}
use gontext.Base.{Bool, true, false, ◌&&◌, ◌||◌, Option, none, some, List, [], ◌∷◌}
use gontext.Base.{arith, if◌then◌else◌, Bool-cases, All}
use gontext.Ports.{AuthzCheck, AuthzDecision, LedgerRecord}
use gontext.Platform.{Error, Result, ok, err, ok_injective, err_validation}
use gontext.Ledger.{Store}
use gontext.Ledger.Records.{get_record}
use gontext.Deletion.{
  Request, DerivativeRef, CompletionManifest, Fresh, Clock, split_evidence_ref, buried,
  revoke_visibility, authorize, purge,
}
use gontext.Deletion.Saga.{
  ending, manifest, held, unindexed, complete, clean_up, revoked, delete_record, authorized, run,
}

-- A derivative that the evidence store refuses to delete.
unfoldable pub is_refused : Option (String × String → Bool) → DerivativeRef → Bool
is_refused none d = false
is_refused (some fails) d = d.kind == "evidence" && fails (split_evidence_ref d.ref)

-- A manifest that says "completed" is of a run with no hold and no refused evidence.
unfoldable pub IsHonest :
    Option (String × String → Bool) → Result Bool → CompletionManifest → Type 0
IsHonest evidence h m =
    (m.status ≢ "completed")
    ⊎ ((h ≡ ok false) × All (λ d. is_refused evidence d ≡ false) m.derivatives)

purge-none :
    (evidence : Option (String × String → Bool)) (ds : List DerivativeRef)
    → (purge evidence ds).1 ≡ false
    → All (λ d. is_refused evidence d ≡ false) ds
unfolding purge is_refused
purge-none none [] h = tt
purge-none none (d ∷ ds) h = (refl, purge-none none ds refl)
purge-none (some fails) [] h = tt
purge-none (some fails) (d ∷ ds) h = elim (Bool-cases (d.kind == "evidence")) [
  | inr n ↦ (ground arith, purge-none (some fails) ds (ground arith))
  | inl y ↦ elim (Bool-cases (fails (split_evidence_ref d.ref))) [
    | inl f ↦ absurd (ground arith)
    | inr f ↦ (ground arith, purge-none (some fails) ds (ground arith))
  ]
]

not_completed : (status : String) → status ≡ "blocked" → status ≢ "completed"
not_completed status h e =
    let no : ("blocked" == status) ≡ true = (eq_iff "blocked" status).1 (sym h) in
    absurd (ground (arith, subst (λ t. ("blocked" == t) ≡ true) e no))

err_ok {ℓ} : {A : Type ℓ} (P : Type 0) {e : Error} {a : A} → err e ≡ ok a → P
err_ok P h = absurd (ground arith)

module _ {I : Type 0} (check : AuthzCheck → Result AuthzDecision)
    (index_delete : Option (String → List String → I → Result I))
    (evidence : Option (String × String → Bool)) (holds : Option (String → String → Result Bool))
    (feed : Bool) (req : Request) (fresh : Fresh) (clock : Clock) (m : CompletionManifest) where
  ending-IsHonest :
      (hold : Bool) (p : Bool × Bool) (ds : List DerivativeRef) (removed : Bool)
      → purge evidence ds ≡ p
      → IsHonest evidence (ok hold) (manifest req fresh clock ds removed (ending hold p))
  unfolding IsHonest manifest ending
  ending-IsHonest true p ds removed h = inl (not_completed _ refl)
  ending-IsHonest false (had, true) ds removed h = inl (not_completed _ refl)
  ending-IsHonest false (had, false) ds removed h =
      inr (refl, purge-none evidence ds (ap (λ p. p.1) h))

  complete-IsHonest :
      (h : Result Bool) (rec : LedgerRecord) (ds : List DerivativeRef) (removed : Bool) (s : Store)
      (idx : I)
      → (complete check index_delete evidence holds feed h req rec fresh clock ds removed s idx).0
        ≡ ok m
      → IsHonest evidence h m
  unfolding complete
  complete-IsHonest (err e) rec ds removed s idx k = err_ok _ k
  complete-IsHonest (ok hold) rec ds removed s idx k =
      subst (λ x. IsHonest evidence (ok hold) x) (ok_injective k)
        (ending-IsHonest hold (purge evidence ds) ds removed refl)

  clean_up-IsHonest :
      (r : Result (I × Bool)) (rec : LedgerRecord) (s : Store) (idx : I)
      → (clean_up check index_delete evidence holds feed r req rec fresh clock s idx).0 ≡ ok m
      → IsHonest evidence (held check index_delete evidence holds feed req) m
  unfolding clean_up
  clean_up-IsHonest (err e) rec s idx k = err_ok _ k
  clean_up-IsHonest (ok (new, removed)) rec s idx k =
      complete-IsHonest (held check index_delete evidence holds feed req) rec _ removed s new k

  revoked-IsHonest :
      (r : Result (Unit {0})) (rec : LedgerRecord) (s : Store) (idx : I)
      → (revoked check index_delete evidence holds feed r req rec fresh clock s idx).0 ≡ ok m
      → IsHonest evidence (held check index_delete evidence holds feed req) m
  unfolding revoked
  revoked-IsHonest (err e) rec s idx k = err_ok _ k
  revoked-IsHonest (ok done) rec s idx k =
      clean_up-IsHonest (unindexed check index_delete evidence holds feed req idx) rec _ idx k

  delete_record-IsHonest :
      (r : Result LedgerRecord) (s : Store) (idx : I)
      → (delete_record check index_delete evidence holds feed r req fresh clock s idx).0 ≡ ok m
      → IsHonest evidence (held check index_delete evidence holds feed req) m
  unfolding delete_record
  delete_record-IsHonest (err e) s idx k = err_ok _ k
  delete_record-IsHonest (ok rec) s idx k =
      let tx = revoke_visibility req (buried rec fresh clock) fresh clock s in
      revoked-IsHonest tx.0 (buried rec fresh clock) tx.1 idx k

  authorized-IsHonest :
      (r : Result (Unit {0})) (s : Store) (idx : I)
      → (authorized check index_delete evidence holds feed r req fresh clock s idx).0 ≡ ok m
      → IsHonest evidence (held check index_delete evidence holds feed req) m
  unfolding authorized
  authorized-IsHonest (err e) s idx k = err_ok _ k
  authorized-IsHonest (ok done) s idx k =
      delete_record-IsHonest (get_record req.org_id req.resource_id s) s idx k

  guarded-IsHonest :
      (b : Bool) (s : Store) (idx : I)
      → (if b
          then (err (err_validation "org and resource required"), s, idx)
          else authorized check index_delete evidence holds feed
              (authorize check req)
              req
              fresh
              clock
              s
              idx).0
        ≡ ok m
      → IsHonest evidence (held check index_delete evidence holds feed req) m
  guarded-IsHonest true s idx k = err_ok _ k
  guarded-IsHonest false s idx k = authorized-IsHonest (authorize check req) s idx k

  -- The manifest of a run has the status "completed" only where the resource is under no legal hold
  -- and the evidence store has refused to delete none of the evidence that the manifest lists. The
  -- theorem does not speak of evidence that the manifest does not list, nor of the edges, of which a
  -- run takes the first 1000.
  pub run-IsHonest :
      (s : Store) (idx : I)
      → (run check index_delete evidence holds feed req fresh clock s idx).0 ≡ ok m
      → IsHonest evidence (held check index_delete evidence holds feed req) m
  unfolding run
  run-IsHonest s idx k = guarded-IsHonest (req.org_id == "" || req.resource_id == "") s idx k
