-- ===== src/Mapping/Edges/Sound.antt =====
-- What the edges of a mapping satisfy.
use gontext.Base.{ℕ, ◌+◌, ◌≤◌}
use gontext.Base.{String, string_eq, ◌==◌, eq_iff, contains, lower, equal_fold}
use gontext.Base.{◌≡◌, refl, ap, subst, inl, inr}
use gontext.Base.{Bool, true, false, not, ◌&&◌, ◌||◌, Option, none, some, List, [], ◌∷◌, ◌++◌}
use gontext.Base.{arith, if◌then◌else◌, Bool-cases, Option-cases, All}
use gontext.Base.{number_eq}
use gontext.Base.Sort.{tally}
use gontext.Ports.{
  Confidence, below_zero, at_zero, between, at_one, above_one, not_a_number, edge_parent,
}
use gontext.Platform.{ok, >>=-eq-ok, ok_injective}
use gontext.Mapping.{Json, Expr, EdgeMapping, CanonicalEdge, Host}
use gontext.Mapping.Eval.{eval_string}
use gontext.Mapping.Edges.{
  Found, allowed_predicate, edge_key, same_ends, merge_into, is_malformed, is_unset, add,
  is_out_of_range, flag, checked_edge, mapped_edge, add_some, add_mapped, parent_edge,
  edge_from_visibility_ref, has_parent, add_visible, start_edges, resolve_edges,
}

-- what an edge that is added has to have
unfoldable pub IsCandidate : CanonicalEdge → Type 0
IsCandidate e =
    (allowed_predicate e.predicate ≡ true)
    × (is_out_of_range e.confidence ≡ false)
    × ((not e.sync_authz_parent || e.predicate == edge_parent) ≡ true)

-- A confidence above 0 and at most 1, or a NaN.
unfoldable pub is_graded : Confidence → Bool
is_graded (between n) = true
is_graded at_one = true
is_graded not_a_number = true
is_graded c = false

-- An edge of the mapping: it joins two named resources that differ, by a predicate of the list,
-- with a confidence above 0 and at most 1 or a NaN, and asks for inheritance only as a parent edge.
unfoldable pub IsSound : CanonicalEdge → Type 0
IsSound e = (is_malformed e ≡ false) × (is_graded e.confidence ≡ true) × IsCandidate e

-- The edges are sound, and no key stands twice.
pub record AreSound (f : Found) : Type 0 where
  pub sound : All IsSound f.edges
  pub once :
      (k : String)
      → tally (λ (e : CanonicalEdge). edge_key e == k) f.edges
        ≤ (if contains f.seen k then 1 else 0)

merge_into-IsSound :
    (e : CanonicalEdge) (xs : List CanonicalEdge)
    → IsCandidate e
    → All IsSound xs
    → All IsSound (merge_into e xs)
unfolding merge_into IsSound IsCandidate same_ends is_malformed
merge_into-IsSound e [] c a = tt
merge_into-IsSound e (x ∷ xs) c (s, a) = elim (Bool-cases (same_ends e x)) [
  | inl y ↦ rw (y) (
    (
      s.0,
      s.1,
      (
        s.2.0,
        s.2.1,
        ground (
          arith,
          eq_iff x.predicate e.predicate,
          eq_iff x.predicate edge_parent,
          eq_iff e.predicate edge_parent,
          c.2,
          s.2.2,
        ),
      ),
    ),
    a,
  )
  | inr n ↦ rw (n) (s, merge_into-IsSound e xs c a)
]

merge_into-tally :
    (e : CanonicalEdge) (k : String) (xs : List CanonicalEdge)
    → tally (λ (x : CanonicalEdge). edge_key x == k) (merge_into e xs)
      ≡ tally (λ (x : CanonicalEdge). edge_key x == k) xs
unfolding merge_into edge_key
merge_into-tally e k [] = refl
merge_into-tally e k (x ∷ xs) = elim (Bool-cases (same_ends e x)) [
  | inl y ↦ rw (y) refl
  | inr n ↦
      rw (n) (ap (λ (m : ℕ). (if edge_key x == k then 1 else 0) + m) (merge_into-tally e k xs))
]

tally-append {ℓ} :
    {A : Type ℓ} (test : A → Bool) (xs : List A) (y : A)
    → tally test (xs ++ y ∷ []) ≡ tally test xs + (if test y then 1 else 0)
tally-append test [] y = ground arith
tally-append test (x ∷ xs) y = ground (arith, tally-append test xs y)

All-snoc {ℓ κ} :
    {A : Type ℓ} (P : A → Type κ) (xs : List A) (y : A) → All P xs → P y → All P (xs ++ y ∷ [])
All-snoc P [] y a p = (p, tt)
All-snoc P (x ∷ xs) y (q, a) p = (q, All-snoc P xs y a p)

graded : CanonicalEdge → CanonicalEdge
graded e = record e { confidence = if is_unset e.confidence then at_one else e.confidence }

graded_lem :
    (c : Confidence)
    → is_out_of_range c ≡ false
    → (is_graded (if is_unset c then at_one else c) ≡ true)
      × (is_out_of_range (if is_unset c then at_one else c) ≡ false)
unfolding is_out_of_range is_graded is_unset
graded_lem below_zero h = absurd (ground arith)
graded_lem at_zero h = (refl, refl)
graded_lem (between n) h = (refl, refl)
graded_lem at_one h = (refl, refl)
graded_lem above_one h = absurd (ground arith)
graded_lem not_a_number h = (refl, refl)

graded-IsSound : (e : CanonicalEdge) → is_malformed e ≡ false → IsCandidate e → IsSound (graded e)
unfolding graded IsSound IsCandidate is_malformed
graded-IsSound e m (allowed, ranged, asked) =
    let (positive, inside) = graded_lem e.confidence ranged in
    (m, positive, (allowed, inside, asked))

graded-key : (e : CanonicalEdge) → edge_key (graded e) ≡ edge_key e
unfolding graded edge_key
graded-key e = refl

add-AreSound : (e : CanonicalEdge) (f : Found) → IsCandidate e → AreSound f → AreSound (add e f)
unfolding add graded
add-AreSound e f c s = elim (Bool-cases (is_malformed e)) [
  | inl y ↦ rw (y, add) s
  | inr n ↦ elim (Bool-cases (contains f.seen (edge_key e))) [
    | inl y ↦
        rw (n, y, add)
          (record {
            sound = merge_into-IsSound e f.edges c s.sound;
            once = λ k. omega (arith, merge_into-tally e k f.edges, s.once k);
          })
    | inr new ↦
        rw (n, new, add)
          (record {
            sound = All-snoc IsSound f.edges (graded e) s.sound (graded-IsSound e n c);
            once = λ k. ground (
              arith,
              tally-append (λ (x : CanonicalEdge). edge_key x == k) f.edges (graded e),
              s.once k,
              s.once (edge_key e),
              graded-key e,
              eq_iff (edge_key e) k,
            );
          })
  ]
]

lower_parent : lower edge_parent ≡ edge_parent
unfolding lower
lower_parent = refl

checked_edge-IsCandidate :
    (em : EdgeMapping) (pred from_id to_id : String) (conf : Confidence) (e : CanonicalEdge)
    → checked_edge em pred from_id to_id conf ≡ ok (some e)
    → IsCandidate e
unfolding checked_edge IsCandidate equal_fold
checked_edge-IsCandidate em pred from_id to_id conf e h =
    let sync = flag em.sync_authz_parent false in
    elim (Bool-cases (sync && not (equal_fold pred edge_parent))) [
      | inl y ↦ absurd (cc (rw (y, checked_edge) at h))
      | inr a ↦ elim (Bool-cases (not (allowed_predicate (lower pred)))) [
        | inl y ↦ absurd (cc (rw (a, y, checked_edge) at h))
        | inr b ↦ elim (Bool-cases (is_out_of_range conf)) [
          | inl y ↦ absurd (cc (rw (a, b, y, checked_edge) at h))
          | inr c ↦
              let same = rw (a, b, c, checked_edge) at h in
              subst IsCandidate (some_injective (ok_injective same)) (
                ground arith,
                c,
                ground (
                  arith,
                  lower_parent,
                  eq_iff (lower pred) (lower edge_parent),
                  eq_iff (lower pred) edge_parent,
                ),
              )
        ]
      ]
    ]
  where
    some_injective : {A : Type 0} {x y : A} → some x ≡ some y → x ≡ y
    some_injective h = cc

mapped_edge-IsCandidate :
    (host : Host) (payload : Json) (resource_id : String) (em : EdgeMapping) (e : CanonicalEdge)
    → mapped_edge host payload resource_id em ≡ ok (some e)
    → IsCandidate e
unfolding mapped_edge
mapped_edge-IsCandidate host payload resource_id em e h =
    elim (Bool-cases (eval_string host em.to payload == "")) [
      | inl y ↦ absurd (cc (rw (y, mapped_edge) at h))
      | inr n ↦ checked_edge-IsCandidate em _ _ _ _ e (rw (n, mapped_edge) at h)
    ]

add_mapped-AreSound :
    (host : Host) (payload : Json) (resource_id : String) (ems : List EdgeMapping) (f g : Found)
    → AreSound f
    → add_mapped host payload resource_id ems f ≡ ok g
    → AreSound g
unfolding add_mapped add_some
add_mapped-AreSound host payload resource_id [] f g s h = subst AreSound (ok_injective h) s
add_mapped-AreSound host payload resource_id (em ∷ ems) f g s h =
    let (e, k, rest) = >>=-eq-ok (mapped_edge host payload resource_id em) _ h in
    add_mapped-AreSound host payload resource_id ems (add_some e f) g (added e k) rest
  where
    added :
        (e : Option CanonicalEdge)
        → mapped_edge host payload resource_id em ≡ ok e
        → AreSound (add_some e f)
    added none k = s
    added (some e) k = add-AreSound e f (mapped_edge-IsCandidate host payload resource_id em e k) s

parent_edge-IsCandidate :
    (resource_id parent_id kind title external : String)
    → IsCandidate (parent_edge resource_id parent_id kind title external)
unfolding parent_edge IsCandidate allowed_predicate is_out_of_range
parent_edge-IsCandidate resource_id parent_id kind title external = (refl, refl, refl)

visible-IsCandidate :
    (host : Host) (resource_id ref : String) (e : CanonicalEdge)
    → edge_from_visibility_ref host resource_id ref ≡ some e
    → IsCandidate e
unfolding edge_from_visibility_ref
visible-IsCandidate host resource_id ref e h =
    chosen _ _ _ _ e h (parent_edge-IsCandidate _ _ _ _ _) (parent_edge-IsCandidate _ _ _ _ _)
  where
    chosen :
        (b c : Bool) (x y e : CanonicalEdge)
        → (if b then none else if c then some x else some y) ≡ some e
        → IsCandidate x
        → IsCandidate y
        → IsCandidate e
    chosen true c x y e h p q = cc
    chosen false true x y e h p q = subst IsCandidate (cc) p
    chosen false false x y e h p q = subst IsCandidate (cc) q

no_edges-AreSound : AreSound (record { edges = []; seen = [] })
no_edges-AreSound = record { sound = tt; once = λ k. omega arith }

start_edges-AreSound :
    (host : Host) (parent : Option Expr) (payload : Json) (resource_id : String)
    → AreSound (start_edges host parent payload resource_id)
unfolding start_edges
start_edges-AreSound host parent payload resource_id =
    elim (Bool-cases (eval_string host parent payload == "")) [
      | inl y ↦ rw (y) no_edges-AreSound
      | inr n ↦ rw (n) (add-AreSound _ _ (parent_edge-IsCandidate _ _ _ _ _) no_edges-AreSound)
    ]

add_visible-AreSound :
    (host : Host) (resource_id ref : String) (f : Found)
    → AreSound f
    → AreSound (add_visible host resource_id ref f)
unfolding add_visible add_some
add_visible-AreSound host resource_id ref f s =
    elim (Bool-cases (ref == "" || has_parent resource_id f.edges)) [
      | inl y ↦ rw (y) s
      | inr n ↦ elim (Option-cases (edge_from_visibility_ref host resource_id ref)) [
        | inl k ↦ rw (n, k, add_some) s
        | inr (e, k) ↦
            rw (n, k, add_some) (add-AreSound e f (visible-IsCandidate host resource_id ref e k) s)
      ]
    ]

-- Whatever the payload and the mapping are, the edges that resolveEdges returns are sound: each
-- joins two named resources that differ, by a predicate of the list, with a confidence above 0 and
-- at most 1 or a NaN, and asks for inheritance only as a parent edge; and no two of them have the
-- same key.
pub resolve_edges-IsSound :
    (host : Host) (parent : Option Expr) (mappings : List EdgeMapping) (payload : Json)
    (resource_id visibility_ref : String) (edges : List CanonicalEdge)
    → resolve_edges host parent mappings payload resource_id visibility_ref ≡ ok edges
    → All IsSound edges × ((k : String) → tally (λ (e : CanonicalEdge). edge_key e == k) edges ≤ 1)
unfolding resolve_edges
resolve_edges-IsSound host parent mappings payload resource_id visibility_ref edges h =
    let (f, k, done) =
      >>=-eq-ok
        (add_mapped host payload resource_id mappings (start_edges host parent payload resource_id))
        _ h in
    let a = add_visible-AreSound host resource_id visibility_ref f (
      add_mapped-AreSound host payload resource_id mappings _ f
        (start_edges-AreSound host parent payload resource_id) k) in
    subst
      (λ es.
        All IsSound es × ((x : String) → tally (λ (e : CanonicalEdge). edge_key e == x) es ≤ 1))
      (ok_injective done) (a.sound, λ x. ground (arith, a.once x))
