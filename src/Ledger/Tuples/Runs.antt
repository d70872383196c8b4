-- ===== src/Ledger/Tuples/Runs.antt =====
-- The queue after any sequence of calls, from an empty ledger.
use gontext.Base.{ℕ, ◌≤◌}
use gontext.Base.{String}
use gontext.Base.{◌≡◌, refl}
use gontext.Base.{Bool, true, false, Option, none, some, List, [], ◌∷◌}
use gontext.Base.{arith}
use gontext.Base.Dict.{Dict2}
use gontext.Base.Count.{count}
use gontext.Base.Dict.{inner}
use gontext.Ports.{AuthzTupleOp}
use gontext.Ledger.{Store, new_store}
use gontext.Ledger.Tuples.{
  updated, same_work, enqueue_authz_tuple, claim_authz_tuples, update_first, as_applied,
  mark_authz_tuple_applied, as_failed, mark_authz_tuple_failed,
}
use gontext.Ledger.Tuples.Unique.{
  AreQueues, inner-IsQueue, enqueue-AreQueues, claim_orgs-AreQueues, Settles,
  update_first-AreQueues,
}

-- The calls that change the queue, each with the clock and the identifier that it gets.
pub data Call : Type 0 where
  enqueue : AuthzTupleOp → ℕ → String → Call
  claim : ℕ → ℕ → ℕ → Call
  mark_applied : String → ℕ → Call
  mark_failed : String → ℕ → ℕ → String → Bool → ℕ → Call

unfoldable pub call : Call → Store → Store
call (enqueue op now fresh) s = (enqueue_authz_tuple op now fresh s).1
call (claim limit lease now) s = (claim_authz_tuples limit lease now s).1
call (mark_applied id at) s = (mark_authz_tuple_applied id at s).1
call (mark_failed id attempts next message is_dead now) s =
    (mark_authz_tuple_failed id attempts next message is_dead now s).1

unfoldable pub calls : Store → List Call → Store
calls s [] = s
calls s (c ∷ cs) = calls (call c s) cs

applied-Settles : (at : ℕ) → Settles (as_applied at)
unfolding as_applied same_work
applied-Settles at p x h = ground arith

failed-Settles :
    (attempts next : ℕ) (message : String) (is_dead : Bool) (now : ℕ)
    → Settles (as_failed attempts next message is_dead now)
unfolding as_failed same_work
failed-Settles attempts next message true now p x h = absurd (ground arith)
failed-Settles attempts next message false now p x h = h

updated-AreQueues :
    (change : AuthzTupleOp → AuthzTupleOp) (id : String) (s : Store)
    → Settles change
    → AreQueues s
    → (r : Option (Dict2 AuthzTupleOp)) → update_first change id s.authz_tuples ≡ r
    → AreQueues (updated r s).1
unfolding updated
updated-AreQueues change id s settles q none h = q
updated-AreQueues change id s settles q (some m) h =
    update_first-AreQueues change id settles s.authz_tuples m h q

call-AreQueues : (c : Call) (s : Store) → AreQueues s → AreQueues (call c s)
unfolding call claim_authz_tuples mark_authz_tuple_applied mark_authz_tuple_failed
call-AreQueues (enqueue op now fresh) s q = enqueue-AreQueues op now fresh s q
call-AreQueues (claim limit lease now) s q = claim_orgs-AreQueues now _ _ s.authz_tuples q
call-AreQueues (mark_applied id at) s q =
    updated-AreQueues (as_applied at) id s (applied-Settles at) q _ refl
call-AreQueues (mark_failed id attempts next message is_dead now) s q =
    updated-AreQueues (as_failed attempts next message is_dead now) id s
      (failed-Settles attempts next message is_dead now) q _ refl

calls-AreQueues : (s : Store) (cs : List Call) → AreQueues s → AreQueues (calls s cs)
unfolding calls
calls-AreQueues s [] q = q
calls-AreQueues s (c ∷ cs) q = calls-AreQueues (call c s) cs (call-AreQueues c s q)

-- After any calls of the queue from an empty ledger, an organization has at most one pending
-- operation of each operation, object, relation and subject.
pub calls_unique :
    (cs : List Call) (org : String) (op : AuthzTupleOp)
    → count (same_work op) (inner (calls new_store cs).authz_tuples org) ≤ 1
calls_unique cs org op =
    inner-IsQueue (calls new_store cs).authz_tuples org (calls-AreQueues new_store cs tt) op
