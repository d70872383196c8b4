-- ===== src/Ledger/Tuples.antt =====
-- EnqueueAuthzTuple, ClaimAuthzTuples, MarkAuthzTupleApplied and MarkAuthzTupleFailed of
-- internal/adapters/memory/ledger.go: the durable queue of relationship writes.
pub mod Status
pub mod Unique
pub mod Runs
pub mod Presence
pub mod Taken
pub mod Claims
use gontext.Base.{ℕ, zero, suc, ◌+◌}
use gontext.Base.{String, string_eq, ◌==◌}
use gontext.Base.{Bool, false, not, ◌&&◌, ◌||◌, Option, none, some, List, [], ◌∷◌, ◌++◌}
use gontext.Base.{ltb, if◌then◌else◌}
use gontext.Base.{number_eq}
use gontext.Base.Dict.{Dict, Dict2, get, put, inner}
use gontext.Base.Count.{refresh}
use gontext.Ports.{AuthzTupleOp}
use gontext.Platform.{ok, err, err_validation, err_not_found}
use gontext.Ledger.{Store, Step, or_now, or_default, or_limit, thirty_seconds}

abbrev pub pending : String
pending = "pending"

abbrev pub applied : String
applied = "applied"

abbrev pub dead : String
dead = "dead"

-- a pending operation that does what another does
unfoldable pub same_work : AuthzTupleOp → AuthzTupleOp → Bool
same_work op existing =
    existing.status == pending
    && existing.operation == op.operation
    && existing.object == op.object
    && existing.relation == op.relation
    && existing.subject == op.subject

unfoldable pub reenqueued : AuthzTupleOp → ℕ → AuthzTupleOp → AuthzTupleOp
reenqueued op now existing = record existing { edge_id = op.edge_id; updated_at = now }

unfoldable pub filled : AuthzTupleOp → ℕ → String → AuthzTupleOp
unfolding or_now or_default
filled op now fresh = record op {
  id = or_default op.id fresh;
  operation = or_default op.operation "write";
  status = or_default op.status pending;
  created_at = or_now op.created_at now;
  updated_at = now;
  next_attempt = or_now op.next_attempt now;
}

unfoldable pub merge_op : Dict AuthzTupleOp → AuthzTupleOp → ℕ → Dict AuthzTupleOp
merge_op m op now = elim (refresh (same_work op) (reenqueued op now) m) [
  | some r ↦ r
  | none ↦ put m op.id op
]

unfoldable pub enqueue_authz_tuple : AuthzTupleOp → ℕ → String → Store → Step (Unit {0})
enqueue_authz_tuple op now fresh s =
    if op.org_id == "" || op.object == "" || op.relation == "" || op.subject == ""
    then (err (err_validation "authz tuple fields required"), s)
    else (
      ok tt,
      record s {
        authz_tuples =
            put s.authz_tuples op.org_id
              (merge_op (inner s.authz_tuples op.org_id) (filled op now fresh) now);
      },
    )

later : Option ℕ → ℕ → Bool
later none now = false
later (some t) now = ltb now t

-- the three tests of the claim loop
unfoldable pub is_due : ℕ → AuthzTupleOp → Bool
unfolding later
is_due now op =
    op.status == pending && not (later op.lease_until now) && not (ltb now op.next_attempt)

unfoldable pub leased : ℕ → ℕ → AuthzTupleOp → AuthzTupleOp
leased now until op = record op { lease_until = some until; updated_at = now }

-- What the claim loops have taken, the map that they leave, and how many they may take still.
pub record Claim (M : Type 0) : Type 0 where
  pub taken : List AuthzTupleOp
  pub rest : M
  pub room : ℕ

-- The inner loop. With no room the function has returned.
unfoldable pub claim_in : ℕ → ℕ → Dict AuthzTupleOp → ℕ → Claim (Dict AuthzTupleOp)
claim_in now until [] room = record { taken = []; rest = []; room = room }
claim_in now until ((id, op) ∷ m) zero = record { taken = []; rest = (id, op) ∷ m; room = zero }
claim_in now until ((id, op) ∷ m) (suc room) =
    let hit = claim_in now until m room in
    let miss = claim_in now until m (suc room) in
    if is_due now op
    then record {
      taken = leased now until op ∷ hit.taken;
      rest = (id, leased now until op) ∷ hit.rest;
      room = hit.room;
    }
    else record { taken = miss.taken; rest = (id, op) ∷ miss.rest; room = miss.room }

-- The outer loop.
unfoldable pub claim_orgs : ℕ → ℕ → Dict2 AuthzTupleOp → ℕ → Claim (Dict2 AuthzTupleOp)
claim_orgs now until [] room = record { taken = []; rest = []; room = room }
claim_orgs now until ((org, m) ∷ orgs) room =
    let here = claim_in now until m room in
    let there = claim_orgs now until orgs here.room in
    record {
      taken = here.taken ++ there.taken;
      rest = (org, here.rest) ∷ there.rest;
      room = there.room;
    }

unfoldable pub claim_authz_tuples : ℕ → ℕ → ℕ → Store → Step (List AuthzTupleOp)
unfolding or_limit
claim_authz_tuples limit lease now s =
    let until = now + or_limit lease thirty_seconds in
    let c = claim_orgs now until s.authz_tuples (or_limit limit 20) in
    (ok c.taken, record s { authz_tuples = c.rest })

-- `for orgID, m := range ... { if op, ok := m[id]; ok { ...; return nil } }`
unfoldable pub update_first :
    (AuthzTupleOp → AuthzTupleOp) → String → Dict2 AuthzTupleOp → Option (Dict2 AuthzTupleOp)
update_first change id [] = none
update_first change id ((org, m) ∷ orgs) = elim (get m id) [
  | some op ↦ some ((org, put m id (change op)) ∷ orgs)
  | none ↦ elim (update_first change id orgs) [ none ↦ none | some rest ↦ some ((org, m) ∷ rest) ]
]

unfoldable pub updated : Option (Dict2 AuthzTupleOp) → Store → Step (Unit {0})
updated none s = (err (err_not_found "authz tuple not found"), s)
updated (some m) s = (ok tt, record s { authz_tuples = m })

unfoldable pub as_applied : ℕ → AuthzTupleOp → AuthzTupleOp
as_applied at op = record op {
  status = applied;
  applied_at = some at;
  updated_at = at;
  lease_until = none;
  last_error = "";
}

unfoldable pub mark_authz_tuple_applied : String → ℕ → Store → Step (Unit {0})
unfolding updated
mark_authz_tuple_applied id at s = updated (update_first (as_applied at) id s.authz_tuples) s

unfoldable pub as_failed : ℕ → ℕ → String → Bool → ℕ → AuthzTupleOp → AuthzTupleOp
as_failed attempts next message is_dead now op = record op {
  attempts = attempts;
  next_attempt = next;
  last_error = message;
  lease_until = none;
  updated_at = now;
  status = if is_dead then dead else op.status;
}

unfoldable pub mark_authz_tuple_failed :
    String → ℕ → ℕ → String → Bool → ℕ → Store → Step (Unit {0})
unfolding updated
mark_authz_tuple_failed id attempts next message is_dead now s =
    updated (update_first (as_failed attempts next message is_dead now) id s.authz_tuples) s
