-- ===== src/Fga/Outcome.antt =====
-- What a list of tuple writes or deletions leaves for one of its tuples.
use gontext.Base.{String, eq_iff}
use gontext.Base.{◌≡◌, refl, ◌≢◌, ◌⊎◌, inl, inr}
use gontext.Base.{true, false, List, [], ◌∷◌, ◌++◌}
use gontext.Base.{arith, Bool-cases}
use gontext.Ports.{RelationshipTuple}
use gontext.Fga.{
  Memory, has, grant, revoke, writable, deletable, write_one, delete_one, blank_tuple, write_tuples,
  delete_tuples,
}
use gontext.Fga.Model.{owner}
use gontext.Fga.Check.{allowed}
use gontext.Fga.Decides.{allowed-iff-Grants}
use gontext.Fga.Tuples.{has-grant, has-revoke}
use gontext.Fga.Monotone.{write_tuples-Extends, delete_tuples-Extends}

module _ (m : Memory) (t : RelationshipTuple) (whole : blank_tuple t ≡ false) where
  has-write_one : has (write_one m t) t.object (writable t.relation) t.subject ≡ true
  unfolding write_one
  has-write_one = rw whole (
      ground (
        arith,
        has-grant m t.object t.relation t.subject t.object (writable t.relation) t.subject,
        eq_iff t.object t.object,
        eq_iff (writable t.relation) (writable t.relation),
        eq_iff t.subject t.subject,
      ))

  has-delete_one : has (delete_one m t) t.object (deletable t.relation) t.subject ≡ false
  unfolding delete_one
  has-delete_one = rw whole (
      ground (
        arith,
        has-revoke m t.object t.relation t.subject t.object (deletable t.relation) t.subject,
        eq_iff t.object t.object,
        eq_iff (deletable t.relation) (deletable t.relation),
        eq_iff t.subject t.subject,
      ))

write_tuples-append :
    (m : Memory) (ts us : List RelationshipTuple) (t : RelationshipTuple)
    → write_tuples m (ts ++ t ∷ us) ≡ write_tuples (write_one (write_tuples m ts) t) us
unfolding write_tuples
write_tuples-append m [] us t = refl
write_tuples-append m (s ∷ ts) us t = write_tuples-append (write_one m s) ts us t

delete_tuples-append :
    (m : Memory) (ts us : List RelationshipTuple) (t : RelationshipTuple)
    → delete_tuples m (ts ++ t ∷ us) ≡ delete_tuples (delete_one (delete_tuples m ts) t) us
unfolding delete_tuples
delete_tuples-append m [] us t = refl
delete_tuples-append m (s ∷ ts) us t = delete_tuples-append (delete_one m s) ts us t

module _ (m : Memory) (ts us : List RelationshipTuple) (t : RelationshipTuple)
    (whole : blank_tuple t ≡ false) where
  -- After a list of writes, each of its tuples without a blank field is stored, wherever it stands
  -- in the list, under the relation that its own is written as.
  has-write_tuples :
      has (write_tuples m (ts ++ t ∷ us)) t.object (writable t.relation) t.subject ≡ true
  has-write_tuples = rw (write_tuples-append m ts us t) (
      (write_tuples-Extends (write_one (write_tuples m ts) t) us).tuples _ _ _
        (has-write_one (write_tuples m ts) t whole))

  -- After a list of deletions, none of its tuples without a blank field is stored.
  has-delete_tuples :
      has (delete_tuples m (ts ++ t ∷ us)) t.object (deletable t.relation) t.subject ≡ false
  has-delete_tuples =
      let n = delete_one (delete_tuples m ts) t in
      rw (delete_tuples-append m ts us t)
        (elim (Bool-cases (has (delete_tuples n us) t.object (deletable t.relation) t.subject)) [
          | inl kept ↦ cc (
            (delete_tuples-Extends n us).tuples _ _ _ kept,
            has-delete_one (delete_tuples m ts) t whole,
          )
          | inr gone ↦ gone
        ])

-- An owner tuple that was there before its deletion under another name.
owner-stays :
    (m : Memory) (o r s : String)
    → writable r ≡ "owner"
    → deletable r ≢ "owner"
    → has (revoke (grant m o r s) o r s) o "owner" s ≡ true
owner-stays m o r s w d = ground (
  arith,
  has-grant m o r s o "owner" s,
  has-revoke (grant m o r s) o r s o "owner" s,
  eq_iff o o,
  eq_iff s s,
  eq_iff (writable r) "owner",
  eq_iff (deletable r) "owner",
)

admin_names :
    (r : String)
    → (r ≡ "can_delete") ⊎ (r ≡ "can_admin")
    → (writable r ≡ "owner") × (deletable r ≢ "owner")
unfolding writable deletable
admin_names r (inl e) = (rw e, λ h. ground (arith, eq_iff "can_delete" "owner", rw e at h))
admin_names r (inr e) = (rw e, λ h. ground (arith, eq_iff "can_admin" "owner", rw e at h))

-- A can_delete or can_admin tuple is written as an owner tuple, and its deletion looks for a tuple of
-- the name can_delete or can_admin: the subject manages the object still.
pub admin_tuple-survives :
    (m : Memory) (t : RelationshipTuple)
    → blank_tuple t ≡ false
    → (t.relation ≡ "can_delete") ⊎ (t.relation ≡ "can_admin")
    → allowed (delete_tuples (write_tuples m (t ∷ [])) (t ∷ [])) t.object "can_manage" t.subject
      ≡ true
unfolding write_tuples delete_tuples write_one delete_one
admin_tuple-survives m t whole admin =
    let (w, d) = admin_names t.relation admin in
    (allowed-iff-Grants _ t.object "can_manage" t.subject).1
      (rw whole (owner t.object (owner-stays m t.object t.relation t.subject w d)))
