-- ===== src/Ledger/Tuples/Taken.antt =====
-- Which operations ClaimAuthzTuples takes, and what it leaves stored at their keys.
use gontext.Base.{ℕ, zero, suc, ◌-◌}
use gontext.Base.{String, string_eq, ◌==◌}
use gontext.Base.{◌≡◌, refl, sym, ap, ◌∙◌, ◌⊎◌, inl, inr}
use gontext.Base.{Bool, true, Option, none, some, List, [], ◌∷◌, ◌++◌, map}
use gontext.Base.{arith, Bool-cases, length, take, select}
use gontext.Base.Dict.{Dict, Dict2, get, get2, inner}
use gontext.Ports.{AuthzTupleOp}
use gontext.Ledger.Tuples.{is_due, leased, claim_in, claim_orgs}

-- the operations of an organization, and of the whole queue
unfoldable pub ops_of : Dict AuthzTupleOp → List AuthzTupleOp
ops_of [] = []
ops_of ((id, op) ∷ m) = op ∷ ops_of m

unfoldable pub queue : Dict2 AuthzTupleOp → List AuthzTupleOp
queue [] = []
queue ((org, m) ∷ d) = ops_of m ++ queue d

module _ {ℓ} {A : Type ℓ} where
  take-append : (n : ℕ) (xs ys : List A) → take n (xs ++ ys) ≡ take n xs ++ take (n - length xs) ys
  take-append zero [] ys = refl
  take-append zero (x ∷ xs) ys =
      let none_left : 0 ≡ 0 - suc (length xs) = omega arith in ap (λ n. take n ys) none_left
  take-append (suc n) [] ys =
      let all_left : suc n ≡ suc n - 0 = omega arith in ap (λ k. take k ys) all_left
  take-append (suc n) (x ∷ xs) ys =
      let less : n - length xs ≡ suc n - suc (length xs) = omega arith in
      ap (λ zs. x ∷ zs) (take-append n xs ys ∙ ap (λ k. take n xs ++ take k ys) less)

  select-append :
      (keep : A → Bool) (xs ys : List A) → select keep (xs ++ ys) ≡ select keep xs ++ select keep ys
  select-append keep [] ys = refl
  select-append keep (x ∷ xs) ys = elim (Bool-cases (keep x)) [
    | inl y ↦ rw (y) (ap (λ zs. x ∷ zs) (select-append keep xs ys))
    | inr n ↦ rw (n) (select-append keep xs ys)
  ]

  map-append {ℓ'} :
      {B : Type ℓ'} (f : A → B) (xs ys : List A) → map f (xs ++ ys) ≡ map f xs ++ map f ys
  map-append f [] ys = refl
  map-append f (x ∷ xs) ys = ap (λ zs. f x ∷ zs) (map-append f xs ys)

module _ (now until : ℕ) where
  -- The first operations that are due, with their leases.
  unfoldable pub first_due : ℕ → List AuthzTupleOp → List AuthzTupleOp
  first_due room xs = map (leased now until) (take room (select (is_due now) xs))

  first_due-append :
      (room : ℕ) (xs ys : List AuthzTupleOp)
      → first_due room (xs ++ ys)
        ≡ first_due room xs ++ first_due (room - length (select (is_due now) xs)) ys
  unfolding first_due
  first_due-append room xs ys =
      ap (λ zs. map (leased now until) (take room zs)) (select-append (is_due now) xs ys)
      ∙ ap (map (leased now until))
          (take-append room (select (is_due now) xs) (select (is_due now) ys))
      ∙ map-append (leased now until) (take room (select (is_due now) xs)) _

  claim_in-takes :
      (room : ℕ) (m : Dict AuthzTupleOp)
      → ((claim_in now until m room).taken ≡ first_due room (ops_of m))
        × ((claim_in now until m room).room ≡ room - length (select (is_due now) (ops_of m)))
  unfolding claim_in first_due ops_of
  claim_in-takes zero [] = (refl, omega arith)
  claim_in-takes (suc room) [] = (refl, omega arith)
  claim_in-takes zero ((id, op) ∷ m) = (refl, omega arith)
  claim_in-takes (suc room) ((id, op) ∷ m) = elim (Bool-cases (is_due now op)) [
    | inl y ↦
        let (a, b) = claim_in-takes room m in
        rw (y, claim_in) (ap (λ zs. leased now until op ∷ zs) a, omega (arith, b))
    | inr n ↦ rw (n, claim_in) (claim_in-takes (suc room) m)
  ]

  pub claim_orgs-takes :
      (room : ℕ) (d : Dict2 AuthzTupleOp)
      → (claim_orgs now until d room).taken ≡ first_due room (queue d)
  unfolding claim_orgs queue
  claim_orgs-takes zero [] = unfold first_due in refl
  claim_orgs-takes (suc n) [] = unfold first_due in refl
  claim_orgs-takes room ((org, m) ∷ d) =
      let (a, b) = claim_in-takes room m in
      ap (λ zs. zs ++ (claim_orgs now until d (claim_in now until m room).room).taken) a
      ∙ ap (λ zs. first_due room (ops_of m) ++ zs)
          (claim_orgs-takes (claim_in now until m room).room d ∙ ap (λ n. first_due n (queue d)) b)
      ∙ sym (first_due-append room (ops_of m) (queue d))

  -- What a claim leaves under a key: nothing where there was nothing, else the operation, or the same
  -- with its lease if it was due.
  unfoldable pub Left : Option AuthzTupleOp → Option AuthzTupleOp → Type 0
  Left none o = o ≡ none
  Left (some op) o = (o ≡ some op) ⊎ ((is_due now op ≡ true) × (o ≡ some (leased now until op)))

  Left-same : (o : Option AuthzTupleOp) → Left o o
  unfolding Left
  Left-same none = refl
  Left-same (some op) = inl refl

  claim_in-Left :
      (room : ℕ) (m : Dict AuthzTupleOp) (id : String)
      → Left (get m id) (get (claim_in now until m room).rest id)
  unfolding claim_in get
  claim_in-Left room [] id = Left-same none
  claim_in-Left zero ((k, x) ∷ m) id = Left-same (get ((k, x) ∷ m) id)
  claim_in-Left (suc room) ((k, x) ∷ m) id = elim (Bool-cases (k == id)) [
    | inl y ↦ elim (Bool-cases (is_due now x)) [
      | inl e ↦ rw (e, claim_in, y) (unfold Left in inr (e, refl))
      | inr e ↦ rw (e, claim_in, y) (Left-same (some x))
    ]
    | inr n ↦ elim (Bool-cases (is_due now x)) [
      | inl e ↦ rw (e, claim_in, n) (claim_in-Left room m id)
      | inr e ↦ rw (e, claim_in, n) (claim_in-Left (suc room) m id)
    ]
  ]

  pub claim_orgs-Left :
      (room : ℕ) (d : Dict2 AuthzTupleOp) (org id : String)
      → Left (get2 d org id) (get2 (claim_orgs now until d room).rest org id)
  unfolding claim_orgs get2 inner get
  claim_orgs-Left room [] org id = Left-same none
  claim_orgs-Left room ((k, m) ∷ d) org id = elim (Bool-cases (k == org)) [
    | inl y ↦ rw (y, claim_orgs) (claim_in-Left room m id)
    | inr n ↦ rw (n, claim_orgs) (claim_orgs-Left (claim_in now until m room).room d org id)
  ]
