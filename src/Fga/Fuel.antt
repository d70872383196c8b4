-- ===== src/Fga/Fuel.antt =====
-- The fuel is enough: each level of `can` marks a key of the universe that was not marked.
use gontext.Base.{ℕ, ◌≤◌, ◌<◌}
use gontext.Base.{String, string_eq, ◌==◌, eq_iff, contains}
use gontext.Base.{◌≡◌, refl, ap, inl, inr}
use gontext.Base.{Bool, true, false, not, ◌||◌, List, [], ◌∷◌, ◌++◌, map}
use gontext.Base.{arith, Bool-cases, length, select}
use gontext.Base.Dict.{Dict, Dict2, get, get2, inner, or_empty, keys}
use gontext.Fga.{Memory, visit_key}
use gontext.Fga.Check.{all_parents, universe}
use gontext.Fga.Explored.{Marked}

-- The keys of a list that are not marked.
unfoldable pub fresh : List String → List String → ℕ
fresh u v = length (select (λ k. not (contains v k)) u)

pub fresh_mono :
    (u v w : List String) → ((k : String) → Marked v k → Marked w k) → fresh u w ≤ fresh u v
unfolding fresh
fresh_mono [] v w grow = omega arith
fresh_mono (x ∷ u) v w grow = elim (Bool-cases (contains v x)) [
  | inl old ↦ ground (arith, fresh_mono u v w grow, grow x old)
  | inr new ↦ ground (arith, fresh_mono u v w grow)
]

pub marks_one : (k : String) (v : List String) (j : String) → Marked v j → Marked (k ∷ v) j
marks_one k v j h = ground arith

pub fresh-mark :
    (u v : List String) (k : String)
    → contains u k ≡ true
    → contains v k ≡ false
    → fresh u (k ∷ v) < fresh u v
unfolding fresh
fresh-mark [] v k m new = cc
fresh-mark (x ∷ u) v k m new = elim (Bool-cases (x == k)) [
  | inl same ↦
      let e : x ≡ k = (eq_iff x k).0 same in
      ground (arith, e, eq_iff k x, fresh_mono u v (k ∷ v) (marks_one k v))
  | inr other ↦ ground (arith, eq_iff k x, eq_iff x k, fresh-mark u v k (ground arith) new)
]

contains-append :
    (xs ys : List String) (x : String) → contains (xs ++ ys) x ≡ (contains xs x || contains ys x)
contains-append [] ys x = refl
contains-append (y ∷ xs) ys x = ground (arith, contains-append xs ys x)

contains-map :
    (f : String → String) (xs : List String) (x : String)
    → contains xs x ≡ true
    → contains (map f xs) (f x) ≡ true
contains-map f [] x h = cc
contains-map f (y ∷ xs) x h = elim (Bool-cases (y == x)) [
  | inl same ↦
      let e : f y ≡ f x = ap f ((eq_iff y x).0 same) in ground (arith, e, eq_iff (f y) (f x))
  | inr other ↦ ground (arith, contains-map f xs x (ground arith))
]

pub parents_known :
    (r : Dict2 (Dict Bool)) (o p : String)
    → contains (keys (or_empty (get2 r o "parent"))) p ≡ true
    → contains (all_parents r) p ≡ true
unfolding all_parents get2 inner get
parents_known [] o p h = cc
parents_known ((j, relations) ∷ r) o p h = ground (
  arith,
  contains-append (keys (or_empty (get relations "parent"))) (all_parents r) p,
  parents_known r o p,
)

-- Both keys of an object.
pub record In (u : List String) (o : String) : Type 0 where
  pub read : contains u (visit_key o "can_read") ≡ true
  pub manage : contains u (visit_key o "can_manage") ≡ true

pub In-universe :
    (m : Memory) (root o : String)
    → contains (root ∷ all_parents m.relations) o ≡ true
    → In (universe m root) o
unfolding universe
In-universe m root o h =
    let objects = root ∷ all_parents m.relations in
    let reads = map (λ x. visit_key x "can_read") objects in
    let manages = map (λ x. visit_key x "can_manage") objects in
    record {
      read = ground (
        arith,
        contains-append reads manages (visit_key o "can_read"),
        contains-map (λ x. visit_key x "can_read") objects o h,
      );
      manage = ground (
        arith,
        contains-append reads manages (visit_key o "can_manage"),
        contains-map (λ x. visit_key x "can_manage") objects o h,
      );
    }
