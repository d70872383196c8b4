-- ===== src/Base/Count.antt =====
-- Maps searched by a test on their values: the first match updated, and the matches counted.
use gontext.Base.{ℕ, ◌+◌, ◌≤◌, ◌<◌}
use gontext.Base.{String, string_eq, ◌==◌}
use gontext.Base.{◌≡◌, refl, subst, inl, inr}
use gontext.Base.{Bool, Option, none, some, [], ◌∷◌}
use gontext.Base.{arith, if◌then◌else◌, Bool-cases, Option-cases}
use gontext.Base.Dict.{Dict, get, put}

module _ {ℓ} {V : Type ℓ} where
  -- `for id, x := range m { if test(x) { m[id] = change(x); return } }`: none where nothing matches
  unfoldable pub refresh : (V → Bool) → (V → V) → Dict V → Option (Dict V)
  refresh test change [] = none
  refresh test change ((k, x) ∷ m) =
      if test x
      then some ((k, change x) ∷ m)
      else elim (refresh test change m) [ none ↦ none | some r ↦ some ((k, x) ∷ r) ]

  -- How many values pass a test.
  unfoldable pub count : (V → Bool) → Dict V → ℕ
  count test [] = 0
  count test ((k, x) ∷ m) = (if test x then 1 else 0) + count test m

  pub refresh-none :
      (test : V → Bool) (change : V → V) (m : Dict V)
      → refresh test change m ≡ none
      → count test m ≡ 0
  unfolding refresh count
  refresh-none test change [] h = refl
  refresh-none test change ((k, x) ∷ m) h = elim (Option-cases (refresh test change m)) [
    | inl e ↦ ground (arith, refresh-none test change m e)
    | inr (r, e) ↦ absurd (ground arith)
  ]

  -- Where the change leaves a second test as it was, so is its count; and there was a match.
  pub refresh-some :
      (test other : V → Bool) (change : V → V)
      → ((x : V) → other (change x) ≡ other x)
      → (m r : Dict V) → refresh test change m ≡ some r
      → (count other r ≡ count other m) × (0 < count test m)
  unfolding refresh count
  refresh-some test other change same [] r h = absurd (ground arith)
  refresh-some test other change same ((k, x) ∷ m) r h = elim (Bool-cases (test x)) [
    | inl t ↦ (ground (arith, same x), ground arith)
    | inr n ↦ elim (Option-cases (refresh test change m)) [
      | inl e ↦ absurd (ground arith)
      | inr (q, e) ↦
          let (c, p) = refresh-some test other change same m q e in (ground arith, ground arith)
    ]
  ]

  pub count-put-le :
      (test : V → Bool) (m : Dict V) (k : String) (v : V)
      → count test (put m k v) ≤ (if test v then 1 else 0) + count test m
  unfolding count put
  count-put-le test [] k v = ground arith
  count-put-le test ((j, x) ∷ m) k v = ground (arith, count-put-le test m k v)

  pub count-put-ge :
      (test : V → Bool) (m : Dict V) (k : String) (v : V)
      → (if test v then 1 else 0) ≤ count test (put m k v)
  unfolding count put
  count-put-ge test [] k v = ground arith
  count-put-ge test ((j, x) ∷ m) k v = ground (arith, count-put-ge test m k v)

  -- The value that a put replaces is counted no more.
  pub count-put :
      (test : V → Bool) (m : Dict V) (k : String) (v w : V)
      → get m k ≡ some w
      → count test (put m k v) + (if test w then 1 else 0)
        ≡ (if test v then 1 else 0) + count test m
  unfolding count put get
  count-put test [] k v w h = absurd (ground arith)
  count-put test ((j, x) ∷ m) k v w h = ground (arith, count-put test m k v w)

-- Every value of the map has the property.
abbrev pub Every {ℓ κ} : {V : Type ℓ} → (V → Type κ) → Dict V → Type κ
Every P [] = Unit
Every P ((k, x) ∷ m) = P x × Every P m

module _ {ℓ κ} {V : Type ℓ} (P : V → Type κ) where
  pub Every-put : (m : Dict V) (k : String) (v : V) → P v → Every P m → Every P (put m k v)
  unfolding put
  Every-put [] k v p h = (p, tt)
  Every-put ((j, x) ∷ m) k v p h = elim (Bool-cases (j == k)) [
    | inl e ↦ rw e (p, h.1)
    | inr e ↦ rw e (h.0, Every-put m k v p h.1)
  ]

  pub Every-get : (m : Dict V) (k : String) (v : V) → Every P m → get m k ≡ some v → P v
  unfolding get
  Every-get [] k v h e = absurd (ground arith)
  Every-get ((j, x) ∷ m) k v h e = elim (Bool-cases (j == k)) [
    | inl i ↦ let same : x ≡ v = ground arith in subst P same h.0
    | inr i ↦ Every-get m k v h.1 (ground arith)
  ]

  pub Every-refresh :
      (test : V → Bool) (change : V → V)
      → ((x : V) → P x → P (change x))
      → (m r : Dict V) → refresh test change m ≡ some r
      → Every P m
      → Every P r
  unfolding refresh
  Every-refresh test change keep [] r h e = absurd (ground arith)
  Every-refresh test change keep ((k, x) ∷ m) r h e = elim (Bool-cases (test x)) [
    | inl t ↦
        let same : ((k, change x) ∷ m) ≡ r = ground arith in subst (Every P) same (keep x e.0, e.1)
    | inr n ↦ elim (Option-cases (refresh test change m)) [
      | inl d ↦ absurd (ground arith)
      | inr (q, d) ↦
          let same : ((k, x) ∷ q) ≡ r = ground arith in
          subst (Every P) same (e.0, Every-refresh test change keep m q d e.1)
    ]
  ]
