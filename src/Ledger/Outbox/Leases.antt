-- ===== src/Ledger/Outbox/Leases.antt =====
-- A claimed event is not claimed again before its lease ends.
use gontext.Base.{ℕ, zero, suc, ◌+◌, ◌<◌}
use gontext.Base.{String, string_eq, ◌==◌, eq_iff}
use gontext.Base.{◌≡◌, sym, subst, ◌≢◌, inl, inr}
use gontext.Base.{true, ◌||◌, List, [], ◌∷◌}
use gontext.Base.{arith, ltb, if◌then◌else◌, Bool-cases, is_some, All}
use gontext.Base.Dict.{Dict, put, get-put}
use gontext.Ports.{OutboxEntry}
use gontext.Platform.{ok, ok_injective}
use gontext.Ledger.{Store, or_limit, thirty_seconds}
use gontext.Ledger.Outbox.{held, stamped, claim_entries, claim_outbox}

held-put :
    (leases : Dict ℕ) (k id : String) (until t : ℕ)
    → held (put leases k until) id t ≡ (if k == id then ltb t until else held leases id t)
unfolding held
held-put leases k id until t = ground (arith, get-put leases k id until)

module _ (now until : ℕ) (stamp : String) where
  claim-held :
      (es : List OutboxEntry) (leases : Dict ℕ) (room : ℕ) (id : String) (t : ℕ)
      → t < until
      → held leases id t ≡ true
      → held (claim_entries now until stamp es leases room).leases id t ≡ true
  unfolding claim_entries
  claim-held [] leases room id t k h = h
  claim-held (e ∷ es) leases zero id t k h = h
  claim-held (e ∷ es) leases (suc room) id t k h =
      elim (Bool-cases (is_some e.published || held leases e.id now)) [
        | inl b ↦ rw (b) (claim-held es leases (suc room) id t k h)
        | inr b ↦ rw (b) (
            claim-held es (put leases e.id until) room id t k
              (ground (arith, held-put leases e.id id until t)))
      ]

  taken-held :
      (es : List OutboxEntry) (leases : Dict ℕ) (room t : ℕ)
      → t < until
      → All
          (λ e. held (claim_entries now until stamp es leases room).leases e.id t ≡ true)
          (claim_entries now until stamp es leases room).taken
  unfolding claim_entries stamped
  taken-held [] leases room t k = tt
  taken-held (e ∷ es) leases zero t k = tt
  taken-held (e ∷ es) leases (suc room) t k =
      elim (Bool-cases (is_some e.published || held leases e.id now)) [
        | inl b ↦ rw (b) (taken-held es leases (suc room) t k)
        | inr b ↦ rw (b) (
          claim-held es (put leases e.id until) room e.id t k
              (ground (arith, held-put leases e.id e.id until t, eq_iff e.id e.id)),
          taken-held es (put leases e.id until) room t k,
        )
      ]

  held-not_taken :
      (es : List OutboxEntry) (leases : Dict ℕ) (room : ℕ) (id : String)
      → now < until
      → held leases id now ≡ true
      → All (λ e. e.id ≢ id) (claim_entries now until stamp es leases room).taken
  unfolding claim_entries stamped
  held-not_taken [] leases room id k h = tt
  held-not_taken (e ∷ es) leases zero id k h = tt
  held-not_taken (e ∷ es) leases (suc room) id k h =
      elim (Bool-cases (is_some e.published || held leases e.id now)) [
        | inl b ↦ rw (b) (held-not_taken es leases (suc room) id k h)
        | inr b ↦ rw (b) (
          (λ same. absurd (ground (arith, subst (λ i. held leases i now ≡ true) (sym same) h))),
          held-not_taken es (put leases e.id until) room id k
              (ground (arith, held-put leases e.id id until now)),
        )
      ]

both :
    {P Q : OutboxEntry → Type 0} (xs : List OutboxEntry)
    → ((x : OutboxEntry) → P x → Q x)
    → All P xs
    → All Q xs
both [] f a = tt
both (x ∷ xs) f (p, a) = (f x p, both xs f a)

-- Two claims, the second one at a time before the first one's lease of 30 seconds ends and with
-- nothing marked between them, return no event of the same identifier.
pub claim_outbox-exclusive :
    (limit now limit' later : ℕ) (stamp stamp' : String) (s : Store)
    (first second : List OutboxEntry)
    → later < now + thirty_seconds
    → (claim_outbox limit now stamp s).0 ≡ ok first
    → (claim_outbox limit' later stamp' (claim_outbox limit now stamp s).1).0 ≡ ok second
    → All (λ e. All (λ e'. e'.id ≢ e.id) second) first
unfolding claim_outbox
claim_outbox-exclusive limit now limit' later stamp stamp' s first second h a b =
    let c =
      claim_entries now (now + thirty_seconds) stamp s.outbox s.outbox_lease (or_limit limit 10) in
    subst (λ xs. All (λ e. All (λ e'. e'.id ≢ e.id) second) xs) (ok_injective a)
      (both c.taken
        (λ e k.
          subst (λ xs. All (λ e'. e'.id ≢ e.id) xs) (ok_injective b)
            (held-not_taken later (later + thirty_seconds) stamp' c.rest c.leases
              (or_limit limit' 10) e.id (omega arith) k))
        (taken-held now (now + thirty_seconds) stamp s.outbox s.outbox_lease (or_limit limit 10)
          later h))
