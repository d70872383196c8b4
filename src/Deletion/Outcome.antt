-- ===== src/Deletion/Outcome.antt =====
-- What a run of the saga leaves, whatever fails.
use gontext.Base.{String, string_eq, ◌==◌, eq_iff}
use gontext.Base.{◌≡◌, refl, sym, ap, subst, ◌∙◌, ◌≢◌}
use gontext.Base.{Bool, true, false, ◌||◌, Option, List}
use gontext.Base.{arith, if◌then◌else◌}
use gontext.Ports.{AuthzCheck, AuthzDecision, LedgerRecord}
use gontext.Platform.{Result, ok, err, err_validation}
use gontext.Ledger.{Store, or_now}
use gontext.Ledger.Records.{get_record, upsert_record}
use gontext.Ledger.Feed.{append_change}
use gontext.Deletion.{
  revoke_visibility, Request, DerivativeRef, Fresh, Clock, is_tombstoned, buried, authorize, purge,
}
use gontext.Deletion.Saga.{
  Ending, ending, announce, finish, complete, clean_up, revoked, delete_record, authorized, run,
}
use gontext.Deletion.Frames.{append-records, get_record-frame, upsert-get_own, revoke-get_record}

-- The ledger has a record of the organization and the resource, in a state with the property.
unfoldable pub HasState : String → String → (String → Type 0) → Store → Type 0
HasState org id P s = (new : LedgerRecord) × (get_record org id s ≡ ok new) × P new.state

announce-records :
    (feed : Bool) (req : Request) (fresh : Fresh) (clock : Clock) (status : String) (s : Store)
    → (announce feed req fresh clock status s).records ≡ s.records
unfolding announce append_change
announce-records false req fresh clock status s = refl
announce-records true req fresh clock status s = refl

finish-HasState :
    (feed : Bool) (req : Request) (rec : LedgerRecord) (fresh : Fresh) (clock : Clock) (e : Ending)
    (s : Store)
    → rec.org_id ≢ ""
    → rec.resource_id ≢ ""
    → HasState rec.org_id rec.resource_id
        (λ state. state ≡ e.state)
        (finish feed req rec fresh clock e s)
unfolding finish HasState
finish-HasState feed req rec fresh clock e s a b =
    let last = record rec { state = e.state } in
    let s1 = (upsert_record last clock.store s).1 in
    (
      record last { created_at = or_now rec.created_at clock.store; updated_at = clock.store },
      get_record-frame rec.org_id rec.resource_id s1 _ (
            append-records _ clock.store fresh.final_audit_id _
            ∙ announce-records feed req fresh clock e.status s1)
          ∙ upsert-get_own last clock.store s a b,
      refl,
    )

ending-is_tombstoned : (hold : Bool) (p : Bool × Bool) → is_tombstoned (ending hold p).state ≡ true
unfolding ending is_tombstoned
ending-is_tombstoned true p = refl
ending-is_tombstoned false (had, true) = refl
ending-is_tombstoned false (had, false) = refl

weaken :
    (org id : String) (P Q : String → Type 0) (s : Store)
    → ((x : String) → P x → Q x)
    → HasState org id P s
    → HasState org id Q s
unfolding HasState
weaken org id P Q s f (new, e, p) = (new, e, f new.state p)

moved :
    (org id : String) (P : String → Type 0) (s t : Store)
    → t.records ≡ s.records
    → HasState org id P s
    → HasState org id P t
unfolding HasState
moved org id P s t h (new, e, p) = (new, get_record-frame org id s t h ∙ e, p)

module _ {I : Type 0} (check : AuthzCheck → Result AuthzDecision)
    (index_delete : Option (String → List String → I → Result I))
    (evidence : Option (String × String → Bool)) (holds : Option (String → String → Result Bool))
    (feed : Bool) where
  abbrev Gone : LedgerRecord → Store → Type 0
  Gone rec s = HasState rec.org_id rec.resource_id (λ state. is_tombstoned state ≡ true) s

  complete-Gone :
      (h : Result Bool) (req : Request) (rec : LedgerRecord) (fresh : Fresh) (clock : Clock)
      (ds : List DerivativeRef) (removed : Bool) (s : Store) (idx : I)
      → rec.org_id ≢ ""
      → rec.resource_id ≢ ""
      → Gone rec s
      → Gone rec
          (complete check index_delete evidence holds feed h req rec fresh clock ds removed s idx).1
  unfolding complete
  complete-Gone (err e) req rec fresh clock ds removed s idx a b g = g
  complete-Gone (ok hold) req rec fresh clock ds removed s idx a b g =
      let e = ending hold (purge evidence ds) in
      weaken rec.org_id rec.resource_id (λ state. state ≡ e.state)
        (λ state. is_tombstoned state ≡ true) _
        (λ x same. ap is_tombstoned same ∙ ending-is_tombstoned hold (purge evidence ds))
        (finish-HasState feed req rec fresh clock e s a b)

  clean_up-Gone :
      (r : Result (I × Bool)) (req : Request) (rec : LedgerRecord) (fresh : Fresh) (clock : Clock)
      (s : Store) (idx : I)
      → rec.org_id ≢ ""
      → rec.resource_id ≢ ""
      → Gone rec s
      → Gone rec (clean_up check index_delete evidence holds feed r req rec fresh clock s idx).1
  unfolding clean_up
  clean_up-Gone (err e) req rec fresh clock s idx a b g = g
  clean_up-Gone (ok (new, removed)) req rec fresh clock s idx a b g =
      complete-Gone _ req rec fresh clock _ removed s new a b g

  revoked-Gone :
      (r : Result (Unit {0})) (req : Request) (rec : LedgerRecord) (fresh : Fresh) (clock : Clock)
      (s : Store) (idx : I)
      → rec.org_id ≢ ""
      → rec.resource_id ≢ ""
      → Gone rec s
      → Gone rec (revoked check index_delete evidence holds feed r req rec fresh clock s idx).1
  unfolding revoked
  revoked-Gone (err e) req rec fresh clock s idx a b g = g
  revoked-Gone (ok done) req rec fresh clock s idx a b g =
      clean_up-Gone _ req rec fresh clock _ idx a b (
        moved rec.org_id rec.resource_id (λ state. is_tombstoned state ≡ true) s _
          (append-records _ clock.store fresh.audit_id s) g)

  run-proceeds :
      (req : Request) (fresh : Fresh) (clock : Clock) (s : Store) (idx : I) (rec : LedgerRecord)
      → req.org_id ≢ ""
      → req.resource_id ≢ ""
      → authorize check req ≡ ok tt
      → get_record req.org_id req.resource_id s ≡ ok rec
      → run check index_delete evidence holds feed req fresh clock s idx
        ≡ delete_record check index_delete evidence holds feed (ok rec) req fresh clock s idx
  unfolding run authorized
  run-proceeds req fresh clock s idx rec a b allowed found =
      let blank : (req.org_id == "" || req.resource_id == "") ≡ false =
        ground (arith, eq_iff req.org_id "", eq_iff req.resource_id "") in
      ap
        (λ t.
          if t
          then (err (err_validation "org and resource required"), s, idx)
          else authorized check index_delete evidence holds feed (authorize check req) req fresh
              clock s idx)
        blank
      ∙ ap (λ r. authorized check index_delete evidence holds feed r req fresh clock s idx) allowed
      ∙ ap (λ r. delete_record check index_delete evidence holds feed r req fresh clock s idx) found

  -- The visibility is revoked first: once the caller is authorized and the record found, the record
  -- is in a deleted state when the run ends, also where the transaction, the index, the legal hold
  -- or the evidence store fails.
  pub run-revokes :
      (req : Request) (fresh : Fresh) (clock : Clock) (s : Store) (idx : I) (rec : LedgerRecord)
      → req.org_id ≢ ""
      → req.resource_id ≢ ""
      → authorize check req ≡ ok tt
      → get_record req.org_id req.resource_id s ≡ ok rec
      → rec.org_id ≡ req.org_id
      → rec.resource_id ≡ req.resource_id
      → HasState req.org_id req.resource_id
          (λ state. is_tombstoned state ≡ true)
          (run check index_delete evidence holds feed req fresh clock s idx).1
  unfolding delete_record HasState is_tombstoned buried
  run-revokes req fresh clock s idx rec a b allowed found org id =
      let gone = buried rec fresh clock in
      let o : rec.org_id ≢ "" = λ e. a (sym org ∙ e) in
      let r : rec.resource_id ≢ "" = λ e. b (sym id ∙ e) in
      let tx = revoke_visibility req gone fresh clock s in
      let last =
        (revoked check index_delete evidence holds feed tx.0 req gone fresh clock tx.1 idx).1 in
      subst (λ t. HasState req.org_id req.resource_id (λ state. is_tombstoned state ≡ true) t.1)
        (sym (run-proceeds req fresh clock s idx rec a b allowed found))
        (subst (λ i. HasState i req.resource_id (λ state. is_tombstoned state ≡ true) last) org
          (subst (λ i. HasState rec.org_id i (λ state. is_tombstoned state ≡ true) last) id
            (revoked-Gone tx.0 req gone fresh clock tx.1 idx o r
              (_, revoke-get_record req gone fresh clock s o r, refl))))
