-- ===== src/Ledger/Tuples/Unique.antt =====
-- No organization has two pending operations that do the same work, whatever the calls.
use gontext.Base.{ℕ, zero, suc, ◌≤◌}
use gontext.Base.{String, string_eq, ◌==◌, eq_iff}
use gontext.Base.{◌≡◌, refl, ap, subst, inl, inr}
use gontext.Base.{Bool, true, ◌||◌, some, [], ◌∷◌}
use gontext.Base.{arith, Bool-cases, Option-cases}
use gontext.Base.Dict.{Dict, Dict2, get, put, inner}
use gontext.Base.Count.{
  count, refresh, refresh-none, refresh-some, count-put, count-put-le, Every, Every-put, Every-get,
}
use gontext.Ports.{AuthzTupleOp}
use gontext.Ledger.{Store}
use gontext.Ledger.Tuples.{
  same_work, reenqueued, filled, merge_op, enqueue_authz_tuple, leased, claim_in, claim_orgs,
  update_first,
}
use mathlib.Core.Path.{fun_ext}

abbrev pub IsQueue : Dict AuthzTupleOp → Type 0
IsQueue m = (op : AuthzTupleOp) → count (same_work op) m ≤ 1

abbrev pub AreQueues : Store → Type 0
AreQueues s = Every IsQueue s.authz_tuples

same_work_eq : (p op : AuthzTupleOp) → same_work p op ≡ true → same_work p ≡ same_work op
unfolding same_work
same_work_eq p op h = fun_ext λ x. ground (
  arith,
  eq_iff op.operation p.operation,
  eq_iff op.object p.object,
  eq_iff op.relation p.relation,
  eq_iff op.subject p.subject,
)

merge_op-IsQueue :
    (m : Dict AuthzTupleOp) (op : AuthzTupleOp) (now : ℕ) → IsQueue m → IsQueue (merge_op m op now)
unfolding merge_op
merge_op-IsQueue m op now q p = elim (Option-cases (refresh (same_work op) (reenqueued op now) m)) [
  | inr (r, h) ↦
      let (c, some_count) =
        refresh-some (same_work op) (same_work p) (reenqueued op now)
          (λ x. unfold same_work reenqueued in refl) m r h in
      rw (h, merge_op) (omega (arith, c, q p))
  | inl h ↦
      let none_count = refresh-none (same_work op) (reenqueued op now) m h in
      let bound = count-put-le (same_work p) m op.id op in
      rw (h, merge_op)
        (elim (Bool-cases (same_work p op)) [
          | inl t ↦
              let same = ap (λ (f : AuthzTupleOp → Bool). count f m) (same_work_eq p op t) in
              ground arith
          | inr n ↦ ground (arith, q p)
        ])
]

pub inner-IsQueue :
    (d : Dict2 AuthzTupleOp) (org : String) → Every IsQueue d → IsQueue (inner d org)
unfolding inner count
inner-IsQueue d org e = elim (Option-cases (get d org)) [
  | inl h ↦ rw (h, inner) (λ p. omega arith)
  | inr (m, h) ↦ rw (h, inner) (Every-get IsQueue d org m e h)
]

pub enqueue-AreQueues :
    (op : AuthzTupleOp) (now : ℕ) (fresh : String) (s : Store)
    → AreQueues s
    → AreQueues (enqueue_authz_tuple op now fresh s).1
unfolding enqueue_authz_tuple
enqueue-AreQueues op now fresh s q =
    elim (Bool-cases
      (op.org_id == "" || op.object == "" || op.relation == "" || op.subject == "")) [
        | inl blank ↦ rw blank q
        | inr full ↦ rw full (
            Every-put IsQueue s.authz_tuples op.org_id _
              (merge_op-IsQueue (inner s.authz_tuples op.org_id) (filled op now fresh) now
                (inner-IsQueue s.authz_tuples op.org_id q))
              q)
      ]

-- A claim changes no operation's work.
claim_in-count :
    (now until room : ℕ) (p : AuthzTupleOp) (m : Dict AuthzTupleOp)
    → count (same_work p) (claim_in now until m room).rest ≡ count (same_work p) m
unfolding claim_in count same_work leased
claim_in-count now until room p [] = refl
claim_in-count now until zero p ((id, op) ∷ m) = refl
claim_in-count now until (suc room) p ((id, op) ∷ m) =
    ground (arith, claim_in-count now until room p m, claim_in-count now until (suc room) p m)

pub claim_orgs-AreQueues :
    (now until room : ℕ) (d : Dict2 AuthzTupleOp)
    → Every IsQueue d
    → Every IsQueue (claim_orgs now until d room).rest
unfolding claim_orgs
claim_orgs-AreQueues now until room [] e = tt
claim_orgs-AreQueues now until room ((org, m) ∷ d) e = (
  (λ p. rw claim_in-count (e.0 p)),
  claim_orgs-AreQueues now until (claim_in now until m room).room d e.1,
)

-- A change that makes no operation pending work that was not.
abbrev pub Settles : (AuthzTupleOp → AuthzTupleOp) → Type 0
Settles change = (p x : AuthzTupleOp) → same_work p (change x) ≡ true → same_work p x ≡ true

pub update_first-AreQueues :
    (change : AuthzTupleOp → AuthzTupleOp) (id : String)
    → Settles change
    → (d r : Dict2 AuthzTupleOp) → update_first change id d ≡ some r
    → Every IsQueue d
    → Every IsQueue r
unfolding update_first
update_first-AreQueues change id settles [] r h e = absurd (ground arith)
update_first-AreQueues change id settles ((org, m) ∷ d) r h e = elim (Option-cases (get m id)) [
  | inr (op, f) ↦
      let same : ((org, put m id (change op)) ∷ d) ≡ r = ground arith in
      subst (Every IsQueue) same (
        (λ p. ground (arith, e.0 p, settles p op, count-put (same_work p) m id (change op) op f)),
        e.1,
      )
  | inl f ↦ elim (Option-cases (update_first change id d)) [
    | inl g ↦ absurd (ground arith)
    | inr (q, g) ↦
        let same : ((org, m) ∷ q) ≡ r = ground arith in
        subst (Every IsQueue) same (e.0, update_first-AreQueues change id settles d q g e.1)
  ]
]
