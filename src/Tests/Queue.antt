-- ===== src/Tests/Queue.antt =====
-- The queue of relationship writes, and its worker.
use gontext.Base.{ℕ, ◌≤◌, min}
use gontext.Base.{string_eq, eq_iff}
use gontext.Base.{◌≡◌, refl, ◌≢◌}
use gontext.Base.{List, [], ◌∷◌}
use gontext.Base.{arith, length}
use gontext.Base.Dict.{inner}
use gontext.Base.Count.{count}
use gontext.Ports.{AuthzTupleOp}
use gontext.Platform.{ok}
use gontext.Ledger.{Store, new_store, or_limit}
use gontext.Ledger.Tuples.{same_work, enqueue_authz_tuple, claim_authz_tuples, leased}
use gontext.Ledger.Tuples.Runs.{Call, calls, calls_unique, enqueue, claim}
use gontext.Ledger.Tuples.Claims.{due_in, claims-fill}
use gontext.Ledger.Tuples.Unique.{AreQueues}
use gontext.Sync.{edge_op, enqueue_for_edge}
use gontext.Sync.Pending.{enqueue_for_edge_pending}
use gontext.Tests.Data.{plan_in_folder, acme, parent_op}

abbrev twice : List Call
twice = enqueue parent_op 5 "x" ∷ claim 10 0 6 ∷ enqueue (record parent_op { id = "t2" }) 7 "y" ∷ []

calls_unique_example :
    count (same_work parent_op) (inner (calls new_store twice).authz_tuples acme) ≤ 1
calls_unique_example = calls_unique twice acme parent_op

abbrev waiting : Store
waiting = (enqueue_authz_tuple parent_op 5 "x" new_store).1

taken : (claim_authz_tuples 10 100 6 waiting).0 ≡ ok (leased 6 106 parent_op ∷ [])
unfolding claim_authz_tuples gontext.Ledger.Tuples.claim_orgs enqueue_authz_tuple
    gontext.Base.Dict.put gontext.Ledger.Tuples.claim_in gontext.Ledger.Tuples.merge_op
    gontext.Base.Count.refresh inner gontext.Base.Dict.get gontext.Ledger.Tuples.is_due
    gontext.Ledger.Tuples.filled
taken = refl

claims-fill_example :
    (taken : List AuthzTupleOp) × ((claim_authz_tuples 10 100 6 waiting).0 ≡ ok taken)
    × (length taken ≡ min (or_limit 10 20) (due_in 6 waiting.authz_tuples))
claims-fill_example = claims-fill 10 100 6 waiting

abbrev two_times : List ℕ
two_times = 10 ∷ 20 ∷ []

no_work : AreQueues new_store
no_work = tt

org_given : plan_in_folder.org_id ≢ ""
org_given e = absurd (ground (arith, eq_iff plan_in_folder.org_id ""))

enqueue_for_edge_pending_example :
    ((enqueue_for_edge plan_in_folder "delete" 5 "x" 6 new_store).0 ≡ ok tt)
    × (count
          (same_work (edge_op plan_in_folder "delete" 5 "x"))
          (inner (enqueue_for_edge plan_in_folder "delete" 5 "x" 6 new_store).1.authz_tuples acme)
        ≡ 1)
unfolding gontext.Sync.needs_synchronization
enqueue_for_edge_pending_example =
    enqueue_for_edge_pending plan_in_folder "delete" 5 "x" 6 new_store no_work refl org_given
