-- ===== src/Base/Dict.antt =====
-- Go's maps with text keys, and maps of maps. A map is a list of entries, each key once; a `range`
-- loop meets the entries in the list's order. A nil map is the empty map: a read finds nothing in
-- either, and the code makes a map before it writes.
use gontext.Base.{String, string_eq, ◌==◌, eq_iff, contains}
use gontext.Base.{◌≡◌, refl, ◌≢◌}
use gontext.Base.{not, ◌&&◌, ◌||◌, Option, none, some, List, [], ◌∷◌}
use gontext.Base.{arith, if◌then◌else◌}

abbrev pub Dict {ℓ} : Type ℓ → Type ℓ
Dict V = List (String × V)

module _ {ℓ} {V : Type ℓ} where
  -- m[k]
  unfoldable pub get : Dict V → String → Option V
  get [] k = none
  get ((j, v) ∷ m) k = if j == k then some v else get m k

  -- m[k] = v
  unfoldable pub put : Dict V → String → V → Dict V
  put [] k v = (k, v) ∷ []
  put ((j, w) ∷ m) k v = if j == k then (j, v) ∷ m else (j, w) ∷ put m k v

  -- delete(m, k)
  unfoldable pub remove : Dict V → String → Dict V
  remove [] k = []
  remove ((j, w) ∷ m) k = if j == k then remove m k else (j, w) ∷ remove m k

  pub get-put :
      (m : Dict V) (k j : String) (v : V) → get (put m k v) j ≡ (if k == j then some v else get m j)
  unfolding get put
  get-put [] k j v = refl
  get-put ((i, w) ∷ m) k j v = ground (arith, eq_iff k j, eq_iff i k, eq_iff i j, get-put m k j v)

  pub get-remove :
      (m : Dict V) (k j : String) → get (remove m k) j ≡ (if k == j then none else get m j)
  unfolding get remove
  get-remove [] k j = ground arith
  get-remove ((i, w) ∷ m) k j = ground (arith, eq_iff k j, eq_iff i k, eq_iff i j, get-remove m k j)

  pub get-put_self : (m : Dict V) (k : String) (v : V) → get (put m k v) k ≡ some v
  get-put_self m k v = ground (arith, get-put m k k v, eq_iff k k)

  pub get-put_ne : (m : Dict V) (k j : String) (v : V) → k ≢ j → get (put m k v) j ≡ get m j
  get-put_ne m k j v h = ground (arith, get-put m k j v, eq_iff k j)

pub ruleset dict_laws = (get-put, get-remove)

-- map[string]map[string]V
abbrev pub Dict2 {ℓ} : Type ℓ → Type ℓ
Dict2 V = Dict (Dict V)

module _ {ℓ} {V : Type ℓ} where
  abbrev pub or_empty : Option (Dict V) → Dict V
  or_empty none = []
  or_empty (some m) = m

  -- m[a], the empty map where there is none
  unfoldable pub inner : Dict2 V → String → Dict V
  inner m a = or_empty (get m a)

  -- m[a][b]
  unfoldable pub get2 : Dict2 V → String → String → Option V
  unfolding inner
  get2 m a b = get (inner m a) b

  -- the inner map made where it is missing, then m[a][b] = v
  unfoldable pub put2 : Dict2 V → String → String → V → Dict2 V
  unfolding inner
  put2 m a b v = put m a (put (inner m a) b v)

  pub inner-put :
      (m : Dict2 V) (a c : String) (d : Dict V)
      → inner (put m a d) c ≡ (if a == c then d else inner m c)
  unfolding inner
  inner-put m a c d = ground (arith, get-put m a c d)

  pub get2-put2 :
      (m : Dict2 V) (a b c d : String) (v : V)
      → get2 (put2 m a b v) c d
        ≡ (if a == c then (if b == d then some v else get2 m c d) else get2 m c d)
  unfolding get2 put2
  get2-put2 m a b c d v =
      ground (arith, get-put m a c (put (inner m a) b v), get-put (inner m a) b d v, eq_iff a c)

  pub get2-put2_self : (m : Dict2 V) (a b : String) (v : V) → get2 (put2 m a b v) a b ≡ some v
  get2-put2_self m a b v = ground (arith, get2-put2 m a b a b v, eq_iff a a, eq_iff b b)

  pub get-inner : (m : Dict2 V) (a b : String) → get (inner m a) b ≡ get2 m a b
  unfolding get2
  get-inner m a b = refl

  pub inner-put2 :
      (m : Dict2 V) (a b c : String) (v : V)
      → inner (put2 m a b v) c ≡ (if a == c then put (inner m a) b v else inner m c)
  unfolding put2
  inner-put2 m a b c v = inner-put m a c (put (inner m a) b v)

  pub inner-put2_ne :
      (m : Dict2 V) (a b c : String) (v : V) → a ≢ c → inner (put2 m a b v) c ≡ inner m c
  unfolding put2
  inner-put2_ne m a b c v h = ground (arith, inner-put m a c (put (inner m a) b v), eq_iff a c)

-- The keys that a `range` loop over the map meets.
abbrev pub keys {ℓ} : {V : Type ℓ} → Dict V → List String
keys [] = []
keys ((k, v) ∷ m) = k ∷ keys m

module _ {ℓ} {V : Type ℓ} where
  pub keys-put :
      (m : Dict V) (k j : String) (v : V)
      → contains (keys (put m k v)) j ≡ (k == j || contains (keys m) j)
  unfolding put
  keys-put [] k j v = refl
  keys-put ((i, w) ∷ m) k j v = ground (arith, eq_iff i k, eq_iff i j, eq_iff k j, keys-put m k j v)

  pub keys-remove :
      (m : Dict V) (k j : String)
      → contains (keys (remove m k)) j ≡ (not (k == j) && contains (keys m) j)
  unfolding remove
  keys-remove [] k j = ground arith
  keys-remove ((i, w) ∷ m) k j =
      ground (arith, eq_iff i k, eq_iff i j, eq_iff k j, keys-remove m k j)

-- m[k] of a map of slices, the empty slice where there is none
unfoldable pub log_of {ℓ} : {A : Type ℓ} → Dict (List A) → String → List A
log_of m k = elim (get m k) [ none ↦ [] | some xs ↦ xs ]

pub log_of-put {ℓ} :
    {A : Type ℓ} (m : Dict (List A)) (k j : String) (xs : List A)
    → log_of (put m k xs) j ≡ (if k == j then xs else log_of m j)
unfolding log_of
log_of-put m k j xs = ground (arith, get-put m k j xs)
