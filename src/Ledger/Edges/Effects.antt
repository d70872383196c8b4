-- ===== src/Ledger/Edges/Effects.antt =====
-- What an accepted UpsertEdge or TombstoneEdge leaves of the edge's triple.
use gontext.Base.{ℕ}
use gontext.Base.{String, string_eq, ◌==◌, eq_iff}
use gontext.Base.{◌≡◌, refl, ◌∙◌, ◌⊎◌, inl, inr}
use gontext.Base.{false, ◌||◌, some}
use gontext.Base.{arith, Bool-cases, Option-cases}
use gontext.Base.Dict.{inner, inner-put, inner-put2, get-inner, get2, put2}
use gontext.Base.Count.{count, count-put, count-put-le, Every-put, Every-get}
use gontext.Ports.{GraphEdge}
use gontext.Platform.{ok}
use gontext.Ledger.{Store, or_default}
use gontext.Ledger.Edges.{active, same_triple, filled, upsert_edge, tombstone, tombstone_edge}
use gontext.Ledger.Edges.Unique.{
  NotSelf, AreGraphs, AreGraphs-put, merge_edge-present, same_triple_self,
}

filled-same :
    (edge : GraphEdge) (now : ℕ) (fresh : String)
    → same_triple (filled edge now fresh) ≡ same_triple edge
unfolding same_triple filled
filled-same edge now fresh = refl

filled-active :
    (edge : GraphEdge) (now : ℕ) (fresh : String)
    → (edge.state ≡ "") ⊎ (edge.state ≡ active)
    → (filled edge now fresh).state ≡ active
unfolding filled or_default
filled-active edge now fresh (inl e) = rw e
filled-active edge now fresh (inr e) = rw e

-- After an accepted UpsertEdge of an edge that is active or of no state, its organization has exactly
-- one active edge of its triple.
upsert_edge-present :
    (edge : GraphEdge) (now : ℕ) (fresh : String) (s : Store)
    → AreGraphs s
    → (upsert_edge edge now fresh s).0 ≡ ok tt
    → (edge.state ≡ "") ⊎ (edge.state ≡ active)
    → count (same_triple edge) (inner (upsert_edge edge now fresh s).1.edges edge.org_id) ≡ 1
unfolding upsert_edge
upsert_edge-present edge now fresh s g accepted st =
    elim (Bool-cases
      (edge.org_id == "" || edge.from_id == "" || edge.to_id == "" || edge.predicate == "")) [
        | inl blank ↦ absurd (ground arith)
        | inr full ↦ elim (Bool-cases (edge.from_id == edge.to_id)) [
          | inl loop ↦ absurd (ground arith)
          | inr apart ↦
              rw
                (
                  full,
                  apart,
                  inner-put s.edges edge.org_id edge.org_id,
                  (eq_iff edge.org_id edge.org_id).1 refl,
                  ← filled-same edge now fresh,
                )
                (merge_edge-present (inner s.edges edge.org_id) (filled edge now fresh) now
                  (g.graph edge.org_id) (filled-active edge now fresh st))
        ]
      ]

tombstone-uncounted : (e x : GraphEdge) (now : ℕ) → same_triple e (tombstone x now) ≡ false
unfolding same_triple tombstone
tombstone-uncounted e x now = refl

-- TombstoneEdge keeps every organization's graph, on its error path too.
pub tombstone_edge-AreGraphs :
    (org id : String) (now : ℕ) (s : Store)
    → AreGraphs s
    → AreGraphs (tombstone_edge org id now s).1
unfolding tombstone_edge tombstone
tombstone_edge-AreGraphs org id now s g = elim (Option-cases (get2 s.edges org id)) [
  | inl e ↦ rw (e, tombstone_edge) g
  | inr (x, e) ↦
      rw (e, tombstone_edge)
        (unfold put2 in
          AreGraphs-put s org _ g (record {
            unique = λ p. ground (
              arith,
              tombstone-uncounted p x now,
              count-put-le (same_triple p) (inner s.edges org) id (tombstone x now),
              (g.graph org).unique p,
            );
            no_loops =
                Every-put NotSelf (inner s.edges org) id (tombstone x now)
                  (Every-get NotSelf (inner s.edges org) id x (g.graph org).no_loops
                    (get-inner s.edges org id ∙ e))
                  (g.graph org).no_loops;
          }))
]

-- TombstoneEdge of a stored active edge succeeds, and leaves no active edge of its triple.
tombstone_edge-gone :
    (org id : String) (now : ℕ) (s : Store) (e : GraphEdge)
    → AreGraphs s
    → get2 s.edges org id ≡ some e
    → e.state ≡ active
    → ((tombstone_edge org id now s).0 ≡ ok tt)
      × (count (same_triple e) (inner (tombstone_edge org id now s).1.edges org) ≡ 0)
unfolding tombstone_edge
tombstone_edge-gone org id now s e g found st =
    let m = inner s.edges org in
    let before = (g.graph org).unique e in
    let counted =
      count-put (same_triple e) m id (tombstone e now) e (get-inner s.edges org id ∙ found) in
    (
      ground arith,
      rw (found, tombstone_edge)
          (rw (inner-put2 s.edges org id org (tombstone e now), (eq_iff org org).1 refl)
            (ground (arith, tombstone-uncounted e e now, same_triple_self e st))),
    )
