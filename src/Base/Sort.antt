-- ===== src/Base/Sort.antt =====
-- sort.Slice by a comparison: an insertion sort. sort.Slice is not stable; where the comparison is
-- total on the items, as it is at each modelled call, the sorted order is the only one.
use Prim.Native.Nat.{Ordering}
use Prim.Native.String.{compare}
use gontext.Base.{ℕ, zero, suc, ◌+◌, ◌≤◌}
use gontext.Base.{String}
use gontext.Base.{◌≡◌, refl, ap, ◌∙◌, inl, inr}
use gontext.Base.{Bool, true, false, ◌&&◌, List, [], ◌∷◌, ◌++◌}
use gontext.Base.{arith, if◌then◌else◌, Bool-cases, length, take, select, All}
use gontext.Base.Dict.{Dict}

-- s < t on texts
abbrev pub text_less : String → String → Bool
text_less s t = elim (compare s t) [ Ordering.lt ↦ true | _ ↦ false ]

abbrev pub is_empty {ℓ} : {A : Type ℓ} → List A → Bool
is_empty [] = true
is_empty (x ∷ xs) = false

-- the values that a `range` loop over the map meets
abbrev pub values {ℓ} : {V : Type ℓ} → Dict V → List V
values [] = []
values ((k, x) ∷ m) = x ∷ values m

module _ {ℓ} {A : Type ℓ} where
  insert_by : (A → A → Bool) → A → List A → List A
  insert_by less x [] = x ∷ []
  insert_by less x (y ∷ ys) = if less y x then y ∷ insert_by less x ys else x ∷ y ∷ ys

  unfoldable pub sort : (A → A → Bool) → List A → List A
  unfolding insert_by
  sort less [] = []
  sort less (x ∷ xs) = insert_by less x (sort less xs)

  length-insert_by :
      (less : A → A → Bool) (x : A) (ys : List A) → length (insert_by less x ys) ≡ suc (length ys)
  unfolding insert_by
  length-insert_by less x [] = refl
  length-insert_by less x (y ∷ ys) = ground (arith, length-insert_by less x ys)

  pub length-sort : (less : A → A → Bool) (xs : List A) → length (sort less xs) ≡ length xs
  unfolding sort
  length-sort less [] = refl
  length-sort less (x ∷ xs) = length-insert_by less x (sort less xs) ∙ ap suc (length-sort less xs)

module _ {ℓ κ} {A : Type ℓ} (P : A → Type κ) (less : A → A → Bool) where
  All-insert_by : (x : A) (ys : List A) → P x → All P ys → All P (insert_by less x ys)
  unfolding insert_by
  All-insert_by x [] p h = (p, tt)
  All-insert_by x (y ∷ ys) p h = elim (Bool-cases (less y x)) [
    | inl e ↦ rw e (h.0, All-insert_by x ys p h.1)
    | inr e ↦ rw e (p, h)
  ]

  pub All-sort : (xs : List A) → All P xs → All P (sort less xs)
  unfolding sort
  All-sort [] h = tt
  All-sort (x ∷ xs) h = All-insert_by x (sort less xs) h.0 (All-sort xs h.1)

-- How many items pass a test.
abbrev pub tally {ℓ} : {A : Type ℓ} → (A → Bool) → List A → ℕ
tally test [] = 0
tally test (x ∷ xs) = (if test x then 1 else 0) + tally test xs

module _ {ℓ} {A : Type ℓ} where
  tally-insert_by :
      (test : A → Bool) (less : A → A → Bool) (x : A) (ys : List A)
      → tally test (insert_by less x ys) ≡ (if test x then 1 else 0) + tally test ys
  unfolding insert_by
  tally-insert_by test less x [] = refl
  tally-insert_by test less x (y ∷ ys) = ground (arith, tally-insert_by test less x ys)

  -- Sorting keeps every item, as often.
  pub tally-sort :
      (test : A → Bool) (less : A → A → Bool) (xs : List A)
      → tally test (sort less xs) ≡ tally test xs
  unfolding sort
  tally-sort test less [] = refl
  tally-sort test less (x ∷ xs) =
      tally-insert_by test less x (sort less xs)
      ∙ ap (λ n. (if test x then 1 else 0) + n) (tally-sort test less xs)

  pub tally-select :
      (test keep : A → Bool) (xs : List A)
      → tally test (select keep xs) ≡ tally (λ x. keep x && test x) xs
  tally-select test keep [] = refl
  tally-select test keep (x ∷ xs) = ground (arith, tally-select test keep xs)

  pub take-all : (n : ℕ) (xs : List A) → length xs ≤ n → take n xs ≡ xs
  take-all zero [] h = refl
  take-all zero (x ∷ xs) h = absurd (omega arith)
  take-all (suc n) [] h = refl
  take-all (suc n) (x ∷ xs) h = ap (λ ys. x ∷ ys) (take-all n xs (omega arith))

  pub All-select : (keep : A → Bool) (xs : List A) → All (λ x. keep x ≡ true) (select keep xs)
  All-select keep [] = tt
  All-select keep (x ∷ xs) = elim (Bool-cases (keep x)) [
    | inl e ↦ rw e (e, All-select keep xs)
    | inr e ↦ rw e (All-select keep xs)
  ]

module _ {ℓ κ} {A : Type ℓ} (P : A → Type κ) where
  pub All-take : (n : ℕ) (xs : List A) → All P xs → All P (take n xs)
  All-take zero xs h = tt
  All-take (suc n) [] h = tt
  All-take (suc n) (x ∷ xs) h = (h.0, All-take n xs h.1)

module _ {ℓ κ} {A : Type ℓ} (P : A → Type κ) where
  pub All-select_keeps : (keep : A → Bool) (xs : List A) → All P xs → All P (select keep xs)
  All-select_keeps keep [] h = tt
  All-select_keeps keep (x ∷ xs) h = elim (Bool-cases (keep x)) [
    | inl e ↦ rw e (h.0, All-select_keeps keep xs h.1)
    | inr e ↦ rw e (All-select_keeps keep xs h.1)
  ]

  pub All-append : (xs ys : List A) → All P xs → All P ys → All P (xs ++ ys)
  All-append [] ys h k = k
  All-append (x ∷ xs) ys h k = (h.0, All-append xs ys h.1 k)

  pub All-imp {μ} : {Q : A → Type μ} (xs : List A) → ((x : A) → P x → Q x) → All P xs → All Q xs
  All-imp [] f h = tt
  All-imp (x ∷ xs) f h = (f x h.0, All-imp xs f h.1)
