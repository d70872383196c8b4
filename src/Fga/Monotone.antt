-- ===== src/Fga/Monotone.antt =====
-- A written tuple never takes access away, and a deleted one never gives any.
use gontext.Base.{String, string_eq, ◌==◌, eq_iff, contains}
use gontext.Base.{◌≡◌, ap, inl, inr}
use gontext.Base.{true, List, [], ◌∷◌}
use gontext.Base.{arith, Bool-cases}
use gontext.Base.Dict.{keys, keys-put, keys-remove}
use gontext.Ports.{RelationshipTuple}
use gontext.Fga.{
  write_one, delete_one, blank_tuple, Memory, subjects, parents, grant, revoke, writable, deletable,
  write_tuples, delete_tuples,
}
use gontext.Fga.Model.{
  CanManage, CanRead, Grants, Linked, Tuple, owner, manager, knowledge_admin, manager_from,
  knowledge_admin_from, manage_from_parent, reader, restricted_reader, assignee, manages,
  read_from_parent,
}
use gontext.Fga.Check.{allowed}
use gontext.Fga.Decides.{allowed-iff-Grants}
use gontext.Fga.Tuples.{has-grant, has-revoke, subjects-grant, subjects-revoke}

-- n has every tuple of m.
pub record Extends (m n : Memory) : Type 0 where
  pub tuples : (o r s : String) → Tuple m o r s → Tuple n o r s
  pub links : (o r p : String) → Linked m o r p → Linked n o r p

Extends-refl : (m : Memory) → Extends m m
Extends-refl m = record { tuples = λ o r s h. h; links = λ o r p h. h }

Extends-trans : (l m n : Memory) → Extends l m → Extends m n → Extends l n
Extends-trans l m n a b = record {
  tuples = λ o r s h. b.tuples o r s (a.tuples o r s h);
  links = λ o r p h. b.links o r p (a.links o r p h);
}

module _ (m n : Memory) (s : String) (e : Extends m n) where
  CanManage-mono : (o : String) → CanManage m s o → CanManage n s o
  unfolding parents
  CanManage-mono o (owner _ t) = owner o (e.tuples o "owner" s t)
  CanManage-mono o (manager _ org t) = manager o org (e.tuples o "manager" s t)
  CanManage-mono o (knowledge_admin _ org t) =
      knowledge_admin o org (e.tuples o "knowledge_admin" s t)
  CanManage-mono o (manager_from _ g plain l t) =
      manager_from o g plain (e.links o "organization" g l) (e.tuples g "manager" s t)
  CanManage-mono o (knowledge_admin_from _ g plain l t) =
      knowledge_admin_from o g plain (e.links o "organization" g l)
        (e.tuples g "knowledge_admin" s t)
  CanManage-mono o (manage_from_parent _ p plain l d) =
      manage_from_parent o p plain (e.links o "parent" p l) (CanManage-mono p d)

  CanRead-mono : (o : String) → CanRead m s o → CanRead n s o
  unfolding parents
  CanRead-mono o (reader _ t) = reader o (e.tuples o "reader" s t)
  CanRead-mono o (restricted_reader _ t) = restricted_reader o (e.tuples o "restricted_reader" s t)
  CanRead-mono o (assignee _ t) = assignee o (e.tuples o "assignee" s t)
  CanRead-mono o (manages _ d) = manages o (CanManage-mono o d)
  CanRead-mono o (read_from_parent _ p l d) =
      read_from_parent o p (e.links o "parent" p l) (CanRead-mono p d)

  Grants-mono : (o r : String) → Grants m s o r → Grants n s o r
  Grants-mono o r g = elim (Bool-cases (r == "can_read")) [
    | inl h ↦ rw (h, Grants) (CanRead-mono o (rw (h, Grants) at g))
    | inr h ↦ elim (Bool-cases (r == "can_manage")) [
      | inl k ↦ rw (h, k, Grants) (CanManage-mono o (rw (h, k, Grants) at g))
      | inr k ↦ rw (h, k, Grants) (e.tuples o r s (rw (h, k, Grants) at g))
    ]
  ]

  allowed_mono : (o r : String) → allowed m o r s ≡ true → allowed n o r s ≡ true
  allowed_mono o r h =
      (allowed-iff-Grants n o r s).1 (Grants-mono o r ((allowed-iff-Grants m o r s).0 h))

grant-Extends : (m : Memory) (o r s : String) → Extends m (grant m o r s)
grant-Extends m o r s = record {
  tuples = λ p q t h. ground (arith, has-grant m o r s p q t);
  links = λ p q t h. rw subjects-grant (
      ground
        (arith, keys-put (subjects m o (writable r)) s t true, eq_iff o p, eq_iff (writable r) q));
}

revoke-Extends : (m : Memory) (o r s : String) → Extends (revoke m o r s) m
revoke-Extends m o r s = record {
  tuples = λ p q t h. ground (arith, has-revoke m o r s p q t);
  links = λ p q t h. ground (
    arith,
    ap (λ d. contains (keys d) t) (subjects-revoke m o r s p q),
    keys-remove (subjects m o (deletable r)) s t,
    eq_iff o p,
    eq_iff (deletable r) q,
  );
}

write_one-Extends : (m : Memory) (t : RelationshipTuple) → Extends m (write_one m t)
unfolding write_one
write_one-Extends m t = elim (Bool-cases (blank_tuple t)) [
  | inl e ↦ rw e (Extends-refl m)
  | inr e ↦ rw e (grant-Extends m t.object t.relation t.subject)
]

delete_one-Extends : (m : Memory) (t : RelationshipTuple) → Extends (delete_one m t) m
unfolding delete_one
delete_one-Extends m t = elim (Bool-cases (blank_tuple t)) [
  | inl e ↦ rw e (Extends-refl m)
  | inr e ↦ rw e (revoke-Extends m t.object t.relation t.subject)
]

pub write_tuples-Extends :
    (m : Memory) (ts : List RelationshipTuple) → Extends m (write_tuples m ts)
unfolding write_tuples
write_tuples-Extends m [] = Extends-refl m
write_tuples-Extends m (t ∷ ts) =
    Extends-trans m (write_one m t) (write_tuples (write_one m t) ts) (write_one-Extends m t)
      (write_tuples-Extends (write_one m t) ts)

pub delete_tuples-Extends :
    (m : Memory) (ts : List RelationshipTuple) → Extends (delete_tuples m ts) m
unfolding delete_tuples
delete_tuples-Extends m [] = Extends-refl m
delete_tuples-Extends m (t ∷ ts) =
    Extends-trans (delete_tuples (delete_one m t) ts) (delete_one m t) m
      (delete_tuples-Extends (delete_one m t) ts) (delete_one-Extends m t)

-- Whatever tuples are written, no access is lost.
pub write_tuples-keeps-allowed :
    (m : Memory) (ts : List RelationshipTuple) (o r s : String)
    → allowed m o r s ≡ true
    → allowed (write_tuples m ts) o r s ≡ true
write_tuples-keeps-allowed m ts o r s =
    allowed_mono m (write_tuples m ts) s (write_tuples-Extends m ts) o r

-- Whatever tuples are deleted, no access is gained.
pub delete_tuples-gives-nothing :
    (m : Memory) (ts : List RelationshipTuple) (o r s : String)
    → allowed (delete_tuples m ts) o r s ≡ true
    → allowed m o r s ≡ true
delete_tuples-gives-nothing m ts o r s =
    allowed_mono (delete_tuples m ts) m s (delete_tuples-Extends m ts) o r
