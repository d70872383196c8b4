-- ===== src/Ledger/Edges/Unique.antt =====
-- Each organization has at most one active edge of a triple (from, predicate, to), and none from a
-- resource to itself.
use mathlib.Core.Path.{fun_ext}
use gontext.Base.{ℕ, ◌≤◌}
use gontext.Base.{String, string_eq, ◌==◌, eq_iff}
use gontext.Base.{◌≡◌, refl, ap, ◌≢◌, inl, inr}
use gontext.Base.{Bool, true, ◌||◌}
use gontext.Base.{arith, Bool-cases, Option-cases}
use gontext.Base.Dict.{Dict, put, inner, inner-put}
use gontext.Base.Count.{
  count, refresh, refresh-none, refresh-some, count-put-le, count-put-ge, Every, Every-put,
  Every-refresh,
}
use gontext.Ports.{GraphEdge}
use gontext.Ledger.{Store, new_store}
use gontext.Ledger.Edges.{active, same_triple, refreshed, filled, merge_edge, upsert_edge}

abbrev pub NotSelf : GraphEdge → Type 0
NotSelf e = e.from_id ≢ e.to_id

pub record IsGraph (m : Dict GraphEdge) : Type 0 where
  pub unique : (e : GraphEdge) → count (same_triple e) m ≤ 1
  pub no_loops : Every NotSelf m

-- The graph of every organization.
pub record AreGraphs (s : Store) : Type 0 where
  pub graph : (org : String) → IsGraph (inner s.edges org)

refreshed-same :
    (e edge x : GraphEdge) (now : ℕ) → same_triple e (refreshed edge now x) ≡ same_triple e x
unfolding same_triple refreshed
refreshed-same e edge x now = refl

-- Two probes with one triple count the same edges.
pub same_triple_eq :
    (e edge : GraphEdge) → same_triple e edge ≡ true → same_triple e ≡ same_triple edge
unfolding same_triple
same_triple_eq e edge h = fun_ext λ x. ground (
  arith,
  eq_iff edge.from_id e.from_id,
  eq_iff edge.to_id e.to_id,
  eq_iff edge.predicate e.predicate,
)

pub same_triple_self : (edge : GraphEdge) → edge.state ≡ active → same_triple edge edge ≡ true
unfolding same_triple
same_triple_self edge h = ground (
  arith,
  eq_iff edge.state active,
  eq_iff edge.from_id edge.from_id,
  eq_iff edge.to_id edge.to_id,
  eq_iff edge.predicate edge.predicate,
)

module _ (m : Dict GraphEdge) (edge : GraphEdge) (now : ℕ) (g : IsGraph m) where
  merge_edge_unique : (e : GraphEdge) → count (same_triple e) (merge_edge m edge now) ≤ 1
  unfolding merge_edge
  merge_edge_unique e = elim (Option-cases (refresh (same_triple edge) (refreshed edge now) m)) [
    | inr (r, h) ↦
        let (c, p) =
          refresh-some (same_triple edge) (same_triple e) (refreshed edge now)
            (λ x. refreshed-same e edge x now) m r h in
        rw (h, merge_edge) (omega (arith, c, g.unique e))
    | inl h ↦
        let zero_count = refresh-none (same_triple edge) (refreshed edge now) m h in
        let bound = count-put-le (same_triple e) m edge.edge_id edge in
        rw (h, merge_edge)
          (elim (Bool-cases (same_triple e edge)) [
            | inl t ↦
                let same = ap (λ (f : GraphEdge → Bool). count f m) (same_triple_eq e edge t) in
                ground arith
            | inr n ↦ ground (arith, g.unique e)
          ])
  ]

  pub merge_edge-present :
      edge.state ≡ active → count (same_triple edge) (merge_edge m edge now) ≡ 1
  unfolding merge_edge
  merge_edge-present st = elim (Option-cases (refresh (same_triple edge) (refreshed edge now) m)) [
    | inr (r, h) ↦
        let (c, p) =
          refresh-some (same_triple edge) (same_triple edge) (refreshed edge now)
            (λ x. refreshed-same edge edge x now) m r h in
        rw (h, merge_edge) (omega (arith, c, p, g.unique edge))
    | inl h ↦
        let zero_count = refresh-none (same_triple edge) (refreshed edge now) m h in
        let bound = count-put-le (same_triple edge) m edge.edge_id edge in
        let some_count = count-put-ge (same_triple edge) m edge.edge_id edge in
        rw (h, merge_edge) (ground (arith, same_triple_self edge st))
  ]

  merge_edge-no_loops : NotSelf edge → Every NotSelf (merge_edge m edge now)
  unfolding merge_edge
  merge_edge-no_loops n = elim (Option-cases (refresh (same_triple edge) (refreshed edge now) m)) [
    | inr (r, h) ↦
        rw (h, merge_edge)
          (Every-refresh NotSelf (same_triple edge) (refreshed edge now) keep m r h g.no_loops)
    | inl h ↦ rw (h, merge_edge) (Every-put NotSelf m edge.edge_id edge n g.no_loops)
  ]
    where
      keep : (x : GraphEdge) → NotSelf x → NotSelf (refreshed edge now x)
      keep x h = unfold refreshed in h

merge_edge-IsGraph :
    (m : Dict GraphEdge) (edge : GraphEdge) (now : ℕ)
    → NotSelf edge
    → IsGraph m
    → IsGraph (merge_edge m edge now)
merge_edge-IsGraph m edge now n g = record {
  unique = merge_edge_unique m edge now g;
  no_loops = merge_edge-no_loops m edge now g n;
}

-- One organization's graph replaced.
pub AreGraphs-put :
    (s : Store) (org : String) (m : Dict GraphEdge)
    → AreGraphs s
    → IsGraph m
    → AreGraphs (record s { edges = put s.edges org m })
AreGraphs-put s org m g new = record {
  graph = λ o.
      rw (inner-put s.edges org o m)
        (elim (Bool-cases (org == o)) [ inl e ↦ rw e new | inr e ↦ rw e (g.graph o) ]);
}

-- Whatever the edge, UpsertEdge keeps every organization's graph without loops and with at most one
-- active edge of each triple, on its error paths too.
pub upsert_edge-AreGraphs :
    (edge : GraphEdge) (now : ℕ) (fresh : String) (s : Store)
    → AreGraphs s
    → AreGraphs (upsert_edge edge now fresh s).1
unfolding upsert_edge
upsert_edge-AreGraphs edge now fresh s g =
    elim (Bool-cases
      (edge.org_id == "" || edge.from_id == "" || edge.to_id == "" || edge.predicate == "")) [
        | inl blank ↦ rw blank g
        | inr full ↦ elim (Bool-cases (edge.from_id == edge.to_id)) [
          | inl loop ↦ rw (full, loop) g
          | inr apart ↦
              rw (full, apart)
                (AreGraphs-put s edge.org_id _ g (
                  merge_edge-IsGraph (inner s.edges edge.org_id) (filled edge now fresh) now
                    (λ e. ground (arith, eq_iff edge.from_id edge.to_id)) (g.graph edge.org_id)))
        ]
      ]

pub new_store-AreGraphs : AreGraphs new_store
unfolding count inner gontext.Base.Dict.get
new_store-AreGraphs = record { graph = λ org. record { unique = λ e. omega arith; no_loops = tt } }
