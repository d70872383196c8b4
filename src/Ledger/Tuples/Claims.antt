-- ===== src/Ledger/Tuples/Claims.antt =====
-- What a claim takes, and that nobody else can take it before its lease ends.
use gontext.Base.{ℕ, zero, suc, ◌+◌, ◌≤◌, ◌<◌, min}
use gontext.Base.{◌≡◌, refl, inl, inr}
use gontext.Base.{List, [], ◌∷◌}
use gontext.Base.{arith, Bool-cases, length, length-append}
use gontext.Base.Dict.{Dict, Dict2}
use gontext.Base.Count.{count}
use gontext.Ports.{AuthzTupleOp}
use gontext.Platform.{ok}
use gontext.Ledger.{Store, or_limit, thirty_seconds}
use gontext.Ledger.Tuples.{is_due, claim_in, claim_orgs, claim_authz_tuples}

-- How many operations of the whole queue could be claimed at a time.
unfoldable pub due_in : ℕ → Dict2 AuthzTupleOp → ℕ
due_in t [] = 0
due_in t ((org, m) ∷ orgs) = count (is_due t) m + due_in t orgs

module _ (now until : ℕ) where
  -- the room left, and that a claim with room left has taken all that is due
  claim_in-room :
      (room : ℕ) (m : Dict AuthzTupleOp)
      → (length (claim_in now until m room).taken + (claim_in now until m room).room ≡ room)
        × (length (claim_in now until m room).taken ≤ count (is_due now) m)
        × (0 < (claim_in now until m room).room
            → length (claim_in now until m room).taken ≡ count (is_due now) m)
  unfolding claim_in count
  claim_in-room room [] = (omega arith, omega arith, λ h. omega arith)
  claim_in-room zero ((id, op) ∷ m) = (omega arith, omega arith, λ h. absurd (omega arith))
  claim_in-room (suc room) ((id, op) ∷ m) = elim (Bool-cases (is_due now op)) [
    | inl e ↦
        let (a, b, c) = claim_in-room room m in
        (ground arith, ground arith, λ h. ground (arith, c (ground arith)))
    | inr e ↦
        let (a, b, c) = claim_in-room (suc room) m in
        (ground arith, ground arith, λ h. ground (arith, c (ground arith)))
  ]

  claim_orgs-room :
      (room : ℕ) (d : Dict2 AuthzTupleOp)
      → (length (claim_orgs now until d room).taken + (claim_orgs now until d room).room ≡ room)
        × (length (claim_orgs now until d room).taken ≤ due_in now d)
        × (0 < (claim_orgs now until d room).room
            → length (claim_orgs now until d room).taken ≡ due_in now d)
  unfolding claim_orgs due_in
  claim_orgs-room room [] = (omega arith, omega arith, λ h. omega arith)
  claim_orgs-room room ((org, m) ∷ d) =
      let here = claim_in now until m room in
      let (a, b, c) = claim_in-room room m in
      let (a', b', c') = claim_orgs-room here.room d in
      let both = length-append here.taken (claim_orgs now until d here.room).taken in
      (omega arith, omega arith, λ h. omega (arith, c (omega arith), c' (omega arith)))

-- A claim succeeds and takes as many operations as are due, or as many as the limit allows where
-- more are due.
pub claims-fill :
    (limit lease now : ℕ) (s : Store)
    → (taken : List AuthzTupleOp) × ((claim_authz_tuples limit lease now s).0 ≡ ok taken)
      × (length taken ≡ min (or_limit limit 20) (due_in now s.authz_tuples))
unfolding claim_authz_tuples
claims-fill limit lease now s =
    let until = now + or_limit lease thirty_seconds in
    let (a, b, c) = claim_orgs-room now until (or_limit limit 20) s.authz_tuples in
    (_, refl, ground (arith, a, b, c))
