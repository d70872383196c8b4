-- ===== src/Ledger/Tuples/Status.antt =====
-- CountAuthzTuplePending, HasAuthzTupleCoverage and HasAuthzTuplePending of
-- internal/adapters/memory/ledger.go.
use gontext.Base.{ℕ}
use gontext.Base.{String, string_eq, ◌==◌}
use gontext.Base.{Bool, not, ◌&&◌, ◌||◌, List, [], ◌∷◌, ◌++◌}
use gontext.Base.{if◌then◌else◌, any}
use gontext.Base.Dict.{Dict2}
use gontext.Base.Sort.{values, tally}
use gontext.Ports.{AuthzTupleOp}
use gontext.Ledger.{Store, or_default}
use gontext.Ledger.Tuples.{pending, applied, dead}

-- A loop over the organizations, or over one where it is named.
unfoldable pub in_scope : {V : Type 0} → String → Dict2 V → List V
in_scope org_id [] = []
in_scope org_id ((oid, m) ∷ rest) =
    if not (org_id == "") && not (oid == org_id)
    then in_scope org_id rest
    else values m ++ in_scope org_id rest

-- the pending and the dead
unfoldable pub count_authz_tuple_pending : String → Store → ℕ × ℕ
unfolding in_scope
count_authz_tuple_pending org_id s =
    let ops = in_scope org_id s.authz_tuples in
    (tally (λ op. op.status == pending) ops, tally (λ op. op.status == dead) ops)

does : String → String → String → String → AuthzTupleOp → Bool
does operation object relation subject op =
    op.operation == operation
    && op.object == object
    && op.relation == relation
    && op.subject == subject

unfoldable pub has_authz_tuple_coverage : String → String → String → String → String → Store → Bool
unfolding in_scope or_default does
has_authz_tuple_coverage org_id operation object relation subject s =
    any
      (λ op.
        does (or_default operation "write") object relation subject op
        && (op.status == pending || op.status == applied))
      (in_scope org_id s.authz_tuples)

unfoldable pub has_authz_tuple_pending : String → String → String → String → String → Store → Bool
unfolding in_scope or_default does
has_authz_tuple_pending org_id operation object relation subject s =
    any
      (λ op. does (or_default operation "write") object relation subject op && op.status == pending)
      (in_scope org_id s.authz_tuples)
