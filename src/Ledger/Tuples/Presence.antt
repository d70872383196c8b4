-- ===== src/Ledger/Tuples/Presence.antt =====
-- What an accepted EnqueueAuthzTuple leaves of the operation's work.
use gontext.Base.{ℕ}
use gontext.Base.{String, string_eq, ◌==◌, eq_iff}
use gontext.Base.{◌≡◌, refl, subst, ◌≢◌, inl, inr}
use gontext.Base.{true, false, ◌||◌}
use gontext.Base.{arith, Option-cases}
use gontext.Base.Dict.{Dict, inner, put, inner-put}
use gontext.Base.Count.{count, refresh, refresh-none, refresh-some, count-put-le, count-put-ge}
use gontext.Ports.{AuthzTupleOp}
use gontext.Platform.{ok}
use gontext.Ledger.{Store, or_default}
use gontext.Ledger.Tuples.{pending, same_work, reenqueued, filled, merge_op, enqueue_authz_tuple}
use gontext.Ledger.Tuples.Unique.{IsQueue, AreQueues, inner-IsQueue}

same_work_self : (op : AuthzTupleOp) → op.status ≡ pending → same_work op op ≡ true
unfolding same_work
same_work_self op st = ground (
  arith,
  eq_iff op.status pending,
  eq_iff op.operation op.operation,
  eq_iff op.object op.object,
  eq_iff op.relation op.relation,
  eq_iff op.subject op.subject,
)

merge_op-present :
    (m : Dict AuthzTupleOp) (op : AuthzTupleOp) (now : ℕ)
    → IsQueue m
    → op.status ≡ pending
    → count (same_work op) (merge_op m op now) ≡ 1
unfolding merge_op
merge_op-present m op now q st =
    elim (Option-cases (refresh (same_work op) (reenqueued op now) m)) [
      | inr (r, h) ↦
          let (c, p) =
            refresh-some (same_work op) (same_work op) (reenqueued op now)
              (λ x. unfold same_work reenqueued in refl) m r h in
          rw (h, merge_op) (omega (arith, c, p, q op))
      | inl h ↦
          let none_count = refresh-none (same_work op) (reenqueued op now) m h in
          let bound = count-put-le (same_work op) m op.id op in
          let some_count = count-put-ge (same_work op) m op.id op in
          rw (h, merge_op) (ground (arith, same_work_self op st))
    ]

filled-same :
    (op : AuthzTupleOp) (now : ℕ) (fresh : String)
    → op.operation ≢ ""
    → same_work (filled op now fresh) ≡ same_work op
unfolding filled or_default same_work
filled-same op now fresh given =
    let kept : (op.operation == "") ≡ false = ground (arith, eq_iff op.operation "") in
    rw (kept, filled) refl

filled-pending :
    (op : AuthzTupleOp) (now : ℕ) (fresh : String)
    → op.status ≡ pending
    → (filled op now fresh).status ≡ pending
unfolding filled or_default
filled-pending op now fresh st = rw st refl

-- The store after an operation with all its fields is enqueued.
pub enqueue-present :
    (op : AuthzTupleOp) (now : ℕ) (fresh : String) (s : Store)
    → AreQueues s
    → (op.org_id == "" || op.object == "" || op.relation == "" || op.subject == "") ≡ false
    → op.operation ≢ ""
    → op.status ≡ pending
    → ((enqueue_authz_tuple op now fresh s).0 ≡ ok tt)
      × (count (same_work op) (inner (enqueue_authz_tuple op now fresh s).1.authz_tuples op.org_id)
          ≡ 1)
unfolding enqueue_authz_tuple
enqueue-present op now fresh s q full given st =
    let new = filled op now fresh in
    let m = merge_op (inner s.authz_tuples op.org_id) new now in
    rw (full, enqueue_authz_tuple)
      (
        refl,
        subst (λ f. count f (inner (put s.authz_tuples op.org_id m) op.org_id) ≡ 1)
            (filled-same op now fresh given)
            (rw
              (inner-put s.authz_tuples op.org_id op.org_id m, (eq_iff op.org_id op.org_id).1 refl)
              (merge_op-present (inner s.authz_tuples op.org_id) new now
                (inner-IsQueue s.authz_tuples op.org_id q) (filled-pending op now fresh st))),
      )
