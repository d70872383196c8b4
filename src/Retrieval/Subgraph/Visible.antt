-- ===== src/Retrieval/Subgraph/Visible.antt =====
-- What the search of visibleSubgraph may reach: the specification, and that the loop keeps to it.
use gontext.Base.{ℕ, zero, suc, ◌+◌}
use gontext.Base.{String, string_eq, ◌==◌, eq_iff, contains}
use gontext.Base.{◌≡◌, refl, sym, subst, ◌∙◌, ◌≢◌, ◌⊎◌, inl, inr}
use gontext.Base.{Bool, true, false, not, ◌&&◌, ◌||◌, List, [], ◌∷◌, ◌++◌, map}
use gontext.Base.{arith, if◌then◌else◌, Bool-cases, take, select, All}
use gontext.Base.Sort.{text_less, is_empty, All-sort, All-take, All-append, All-imp}
use gontext.Ports.{Principal, AuthzCheck, AuthzDecision, GraphEdge, EdgeListOptions}
use gontext.Platform.{ok, ok_injective, >>=-eq-ok, Result-cases}
use gontext.Ledger.Edges.{tombstoned}
use gontext.Retrieval.{Pipeline, Request, read_check}
use gontext.Retrieval.Subgraph.{
  Walk, edge_cap, pair_allowed, batch_allow, neighbors, asked, walk, edges_of,
}

-- The provider's batches decide each check by itself, where they are answered.
pub record Decides (p : Pipeline) (decide : AuthzCheck → AuthzDecision) : Type 0 where
  pub pointwise :
      (cs : List AuthzCheck) (ds : List AuthzDecision)
      → p.batch_check cs ≡ ok ds
      → ds ≡ map decide cs

-- The ledger lists edges that the organization stores, each with an end among the resources that are asked for.
pub record Lists (p : Pipeline) (org : String) (Stored : GraphEdge → Type 0) : Type 0 where
  pub listed :
      (opts : EdgeListOptions) (es : List GraphEdge)
      → opts.resource_ids ≢ []
      → p.list_edges org opts ≡ ok es
      → All
          (λ e.
            Stored e
            × ((contains opts.resource_ids e.from_id || contains opts.resource_ids e.to_id) ≡ true))
          es

-- the check of a read is allowed
unfoldable pub Allows : (AuthzCheck → AuthzDecision) → Principal → Request → String → Type 0
Allows decide principal req id = (decide (read_check principal req id)).allowed ≡ true

-- A stored edge that is not removed joins two resources, either way round.
unfoldable pub Joins : (GraphEdge → Type 0) → String → String → Type 0
Joins Stored a b =
    (e : GraphEdge) × Stored e
    × ((e.state == tombstoned) ≡ false)
    × (((e.from_id ≡ a) × (e.to_id ≡ b)) ⊎ ((e.to_id ≡ a) × (e.from_id ≡ b)))

module _ (decide : AuthzCheck → AuthzDecision) (Stored : GraphEdge → Type 0) (principal : Principal)
    (req : Request) where
  -- A resource that a seed reaches by at most so many stored edges, where every resource on the
  -- way, the ends included, may be read.
  unfoldable pub Within : List String → ℕ → String → Type 0
  Within seeds zero id = (contains seeds id ≡ true) × Allows decide principal req id
  Within seeds (suc k) id =
      Within seeds k id
      ⊎ ((a : String) × Within seeds k a × Joins Stored a id × Allows decide principal req id)

pub Within-Allows :
    (decide : AuthzCheck → AuthzDecision) (Stored : GraphEdge → Type 0) (principal : Principal)
    (req : Request) (seeds : List String) (k : ℕ) (id : String)
    → Within decide Stored principal req seeds k id
    → Allows decide principal req id
unfolding Within
Within-Allows decide Stored principal req seeds zero id h = h.1
Within-Allows decide Stored principal req seeds (suc k) id (inl w) =
    Within-Allows decide Stored principal req seeds k id w
Within-Allows decide Stored principal req seeds (suc k) id (inr (a, w, j, g)) = g

pair_allowed-Allows :
    (decide : AuthzCheck → AuthzDecision) (principal : Principal) (req : Request)
    (ids : List String) (rev : String)
    → All
        (Allows decide principal req)
        (pair_allowed ids (map decide (map (read_check principal req) ids)) rev).0
unfolding pair_allowed Allows
pair_allowed-Allows decide principal req [] rev = tt
pair_allowed-Allows decide principal req (id ∷ ids) rev =
    elim (Bool-cases (decide (read_check principal req id)).allowed) [
      | inl y ↦ rw (y) (y, pair_allowed-Allows decide principal req ids _)
      | inr n ↦ rw (n) (pair_allowed-Allows decide principal req ids rev)
    ]

pub All-contains :
    (P : String → Type 0) (xs : List String) (x : String) → All P xs → contains xs x ≡ true → P x
All-contains P [] x a h = absurd (ground arith)
All-contains P (y ∷ ys) x (p, a) h = elim (Bool-cases (y == x)) [
  | inl e ↦ subst P ((eq_iff y x).0 e) p
  | inr n ↦ All-contains P ys x a (ground arith)
]

pub batch_allow-Allows :
    (p : Pipeline) (decide : AuthzCheck → AuthzDecision) (principal : Principal) (req : Request)
    (ids : List String) (a : List String × String)
    → Decides p decide
    → batch_allow p principal req ids ≡ ok a
    → All (Allows decide principal req) a.0
unfolding batch_allow
batch_allow-Allows p decide principal req [] a d h =
    subst (λ (x : List String × String). All (Allows decide principal req) x.0) (ok_injective h) tt
batch_allow-Allows p decide principal req (id ∷ ids) a d h =
    let (ds, e, k) = >>=-eq-ok (p.batch_check (map (read_check principal req) (id ∷ ids))) _ h in
    subst (λ (x : List String × String). All (Allows decide principal req) x.0) (ok_injective k)
      (rw (d.pointwise _ ds e) (pair_allowed-Allows decide principal req (id ∷ ids) ""))

neighbors-All :
    (P : String → Type 0) (authorized : List String) (es : List GraphEdge) (seen : List String)
    → All
        (λ e.
          (e.state == tombstoned) ≡ false
          → (contains authorized e.from_id ≡ false → P e.from_id)
            × (contains authorized e.to_id ≡ false → P e.to_id))
        es
    → All P (neighbors authorized seen es)
unfolding neighbors
neighbors-All P authorized [] seen h = tt
neighbors-All P authorized (e ∷ es) seen (h, hs) = elim (Bool-cases (e.state == tombstoned)) [
  | inl y ↦ rw (y) (neighbors-All P authorized es seen hs)
  | inr n ↦ rw (n) (
      All-append P _ _ (new_end (contains authorized e.from_id) _ e.from_id (h n).0) (
        All-append P _ _ (new_end (contains authorized e.to_id) _ e.to_id (h n).1)
          (neighbors-All P authorized es _ hs)))
]
  where
    new_end :
        (known is_seen : Bool) (x : String)
        → (known ≡ false → P x)
        → All P (if not known && not is_seen then x ∷ [] else [])
    new_end true is_seen x k = tt
    new_end false true x k = tt
    new_end false false x k = (k refl, tt)

pub select-Both :
    (P Q : String → Type 0) (allowed xs : List String)
    → All P xs
    → All Q allowed
    → All (λ x. P x × Q x) (select (contains allowed) xs)
select-Both P Q allowed [] h k = tt
select-Both P Q allowed (x ∷ xs) (p, h) k = elim (Bool-cases (contains allowed x)) [
  | inl y ↦ rw (y) ((p, All-contains Q allowed x k y), select-Both P Q allowed xs h k)
  | inr n ↦ rw (n) (select-Both P Q allowed xs h k)
]

contains-append :
    (xs ys : List String) (x : String) → contains (xs ++ ys) x ≡ (contains xs x || contains ys x)
contains-append [] ys x = refl
contains-append (y ∷ xs) ys x = ground (arith, contains-append xs ys x)

module _ (decide : AuthzCheck → AuthzDecision) (Stored : GraphEdge → Type 0) (principal : Principal)
    (req : Request) (seeds : List String) where
  -- what a hop may ask for: a neighbour of a resource that is within reach
  Next : ℕ → String → Type 0
  Next k id = (a : String) × Within decide Stored principal req seeds k a × Joins Stored a id

  edge_ends-Next :
      (k : ℕ) (discovery frontier : List String) (e : GraphEdge)
      → ((x : String) → contains frontier x ≡ true → contains discovery x ≡ true)
      → All (Within decide Stored principal req seeds k) frontier
      → Stored e
      → (contains frontier e.from_id || contains frontier e.to_id) ≡ true
      → (e.state == tombstoned) ≡ false
      → (contains discovery e.from_id ≡ false → Next k e.from_id)
        × (contains discovery e.to_id ≡ false → Next k e.to_id)
  unfolding Next Joins
  edge_ends-Next k discovery frontier e sub reach stored touches alive = (
    (λ fresh. elim (Bool-cases (contains frontier e.from_id)) [
      | inl y ↦ absurd (ground (arith, sub e.from_id y))
      | inr n ↦ (
        e.to_id,
        All-contains _ frontier e.to_id reach (ground arith),
        (e, stored, alive, inr (refl, refl)),
      )
    ]),
    (λ fresh. elim (Bool-cases (contains frontier e.to_id)) [
      | inl y ↦ absurd (ground (arith, sub e.to_id y))
      | inr n ↦ (
        e.from_id,
        All-contains _ frontier e.from_id reach (ground arith),
        (e, stored, alive, inl (refl, refl)),
      )
    ]),
  )

  asked-Next :
      (p : Pipeline) (predicates : List String) (k : ℕ) (discovery frontier : List String)
      (opts : EdgeListOptions) (es : List GraphEdge)
      → Lists p req.org_id Stored
      → opts.resource_ids ≡ frontier
      → frontier ≢ []
      → p.list_edges req.org_id opts ≡ ok es
      → ((x : String) → contains frontier x ≡ true → contains discovery x ≡ true)
      → All (Within decide Stored principal req seeds k) frontier
      → All (Next k) (asked p principal req predicates discovery es)
  unfolding asked
  asked-Next p predicates k discovery frontier opts es l same full h sub reach =
      All-take (Next k) edge_cap _ (
        All-sort (Next k) text_less _ (
          neighbors-All (Next k) discovery (take edge_cap es) [] (
            All-take _ edge_cap es (
              All-imp _ es
                (λ e (stored, touches) alive.
                  edge_ends-Next k discovery frontier e sub reach stored
                    (subst (λ f. (contains f e.from_id || contains f e.to_id) ≡ true) same touches)
                    alive)
                (l.listed opts es (λ e. full (sym same ∙ e)) h)))))

  Within-up :
      (j k n : ℕ) (x : String)
      → k + j ≡ n
      → Within decide Stored principal req seeds k x
      → Within decide Stored principal req seeds n x
  unfolding Within
  Within-up zero k n x e w =
      subst (λ m. Within decide Stored principal req seeds m x) (omega arith) w
  Within-up (suc j) k n x e w = Within-up j (suc k) n x (omega arith) (inl w)

  All-sub :
      (P : String → Type 0) (ds xs : List String)
      → ((x : String) → contains xs x ≡ true → contains ds x ≡ true)
      → All P ds
      → All P xs
  All-sub P ds [] sub a = tt
  All-sub P ds (x ∷ xs) sub a = (
    All-contains P ds x a (sub x (ground (arith, eq_iff x x))),
    All-sub P ds xs (λ y m. sub y (ground arith)) a,
  )

  hop-Within :
      (k : ℕ) (discovery allowed asked_ids : List String)
      → All (Within decide Stored principal req seeds k) discovery
      → All (Next k) asked_ids
      → All (Allows decide principal req) allowed
      → All
          (Within decide Stored principal req seeds (suc k))
          (discovery ++ select (contains allowed) asked_ids)
  unfolding Within Next
  hop-Within k discovery allowed asked_ids reach next granted =
      All-append _ discovery (select (contains allowed) asked_ids)
        (All-imp _ discovery (λ x r. inl r) reach)
        (All-imp _ (select (contains allowed) asked_ids) (λ x ((a, r, j), g). inr (a, r, j, g))
          (select-Both (Next k) (Allows decide principal req) allowed asked_ids next granted))

  not_empty : (xs : List String) → is_empty xs ≡ false → xs ≢ []
  not_empty xs n e = cc (rw e at n)

  -- After so many hops more, all that was discovered is within so many hops more of the seeds.
  pub walk-Within :
      (p : Pipeline) (predicates : List String)
      → Decides p decide
      → Lists p req.org_id Stored
      → (hops k n : ℕ) (w : Walk) → k + hops ≡ n
      → ((x : String) → contains w.frontier x ≡ true → contains w.discovery x ≡ true)
      → All (Within decide Stored principal req seeds k) w.discovery
      → All
          (Within decide Stored principal req seeds n)
          (walk p principal req predicates hops w).discovery
  unfolding walk edges_of
  walk-Within p predicates d l zero k n w e sub reach =
      All-imp _ w.discovery (λ x r. Within-up zero k n x e r) reach
  walk-Within p predicates d l (suc hops) k n w e sub reach =
      let stay : All (Within decide Stored principal req seeds n) w.discovery =
        All-imp _ w.discovery (λ x r. Within-up (suc hops) k n x e r) reach in
      elim (Bool-cases (is_empty w.frontier)) [
        | inl y ↦ rw (y, walk) stay
        | inr full ↦ elim (Result-cases (edges_of p principal req predicates w.frontier)) [
          | inl (x, f) ↦ rw (full, f, walk) stay
          | inr (es, f) ↦
              elim (Bool-cases (is_empty (asked p principal req predicates w.discovery es))) [
                | inl y ↦ rw (full, f, y, walk) stay
                | inr more ↦
                    elim (Result-cases (
                      batch_allow p principal req
                        (asked p principal req predicates w.discovery es))) [
                          | inl (x, g) ↦ rw (full, f, more, g, walk) stay
                          | inr (a, g) ↦
                              rw (full, f, more, g, walk)
                                (walk-Within p predicates d l hops (suc k) n _ (omega arith)
                                  (λ x m. ground (
                                    arith,
                                    contains-append w.discovery
                                        (select (contains a.0)
                                          (asked p principal req predicates w.discovery es))
                                        x,
                                  ))
                                  (hop-Within k w.discovery a.0 _ reach
                                    (asked-Next p predicates k w.discovery w.frontier _ es l refl
                                      (not_empty w.frontier full) f sub
                                      (All-sub _ w.discovery w.frontier sub reach))
                                    (batch_allow-Allows p decide principal req _ a d g)))
                        ]
              ]
        ]
      ]
