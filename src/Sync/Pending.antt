-- ===== src/Sync/Pending.antt =====
-- What EnqueueForEdge leaves in the queue.
use text.Mathlib.TextPositions.{starts_with-append}
use gontext.Base.{ℕ}
use gontext.Base.{String, string_eq, ◌==◌, eq_iff, concat, has_prefix}
use gontext.Base.{◌≡◌, refl, subst, ◌≢◌, inl, inr}
use gontext.Base.{true, false, ◌||◌}
use gontext.Base.{arith, Bool-cases}
use gontext.Base.Dict.{inner}
use gontext.Base.Count.{count}
use gontext.Ports.{GraphEdge}
use gontext.Platform.{ok}
use gontext.Ledger.{Store}
use gontext.Ledger.Tuples.{same_work}
use gontext.Ledger.Tuples.Unique.{AreQueues}
use gontext.Ledger.Tuples.Presence.{enqueue-present}
use gontext.Sync.{
  operation_write, operation_delete, resource_object, needs_synchronization, edge_op,
  enqueue_for_edge,
}

resource_object_full : (id : String) → resource_object id ≢ ""
unfolding resource_object
resource_object_full id e =
    let prefixed : has_prefix (concat "resource:" id) "resource:" ≡ true =
      starts_with-append "resource:" id in
    absurd (ground (arith, subst (λ t. has_prefix t "resource:" ≡ true) e prefixed))

pub edge_op-full :
    (edge : GraphEdge) (operation : String) (now : ℕ) (fresh : String)
    → edge.org_id ≢ ""
    → ((edge_op edge operation now fresh).org_id == ""
        || (edge_op edge operation now fresh).object == ""
        || (edge_op edge operation now fresh).relation == ""
        || (edge_op edge operation now fresh).subject == "")
      ≡ false
unfolding edge_op
edge_op-full edge operation now fresh given = ground (
  arith,
  eq_iff edge.org_id "",
  eq_iff (resource_object edge.from_id) "",
  eq_iff (resource_object edge.to_id) "",
  resource_object_full edge.from_id,
  resource_object_full edge.to_id,
)

edge_op-operation :
    (edge : GraphEdge) (operation : String) (now : ℕ) (fresh : String)
    → (edge_op edge operation now fresh).operation ≢ ""
unfolding edge_op
edge_op-operation edge operation now fresh e = elim (Bool-cases (operation == operation_delete)) [
  | inl y ↦ absurd (ground (arith, eq_iff operation_delete ""))
  | inr n ↦ absurd (ground (arith, eq_iff operation_write ""))
]

-- An edge that asks for inheritance, of an organization that is named, always gets its relationship
-- write or deletion queued: EnqueueForEdge succeeds, and the organization's queue then has exactly
-- one pending operation of the edge's tuple.
pub enqueue_for_edge_pending :
    (edge : GraphEdge) (operation : String) (now : ℕ) (fresh : String) (clock : ℕ) (s : Store)
    → AreQueues s
    → needs_synchronization edge ≡ true
    → edge.org_id ≢ ""
    → ((enqueue_for_edge edge operation now fresh clock s).0 ≡ ok tt)
      × (count
            (same_work (edge_op edge operation now fresh))
            (inner (enqueue_for_edge edge operation now fresh clock s).1.authz_tuples edge.org_id)
          ≡ 1)
unfolding enqueue_for_edge edge_op
enqueue_for_edge_pending edge operation now fresh clock s q needed given =
    rw (needed, enqueue_for_edge)
      (enqueue-present (edge_op edge operation now fresh) clock fresh s q
        (edge_op-full edge operation now fresh given) (edge_op-operation edge operation now fresh)
        (unfold edge_op in refl))
