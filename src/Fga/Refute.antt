-- ===== src/Fga/Refute.antt =====
-- Nothing that a search from no marks has marked is derivable.
use mathlib.Core.Logic.{⊎_elim}
use gontext.Base.{String, string_eq, ◌==◌, eq_iff, contains}
use gontext.Base.{◌≡◌, inl, inr}
use gontext.Base.{Bool, true, false, ◌||◌, List, [], ◌∷◌}
use gontext.Base.{arith, Bool-cases, any}
use gontext.Base.Dict.{keys}
use gontext.Fga.{
  Memory, has, subjects, reads_directly, manages_directly, org_manages, is_organization, visit_key,
}
use gontext.Fga.Model.{
  CanManage, CanRead, Linked, Tuple, owner, manager, knowledge_admin, manager_from,
  knowledge_admin_from, manage_from_parent, reader, restricted_reader, assignee, manages,
  read_from_parent,
}
use gontext.Fga.Explored.{Marked, ReadRefuted, ManageRefuted, Explored}

any_complete :
    (test : String → Bool) (xs : List String) (x : String)
    → contains xs x ≡ true
    → test x ≡ true
    → any test xs ≡ true
any_complete test [] x c t = cc
any_complete test (y ∷ xs) x c t = elim (Bool-cases (y == x)) [
  | inl same ↦ let e : test y ≡ true = rw ((eq_iff y x).0 same) t in ground arith
  | inr other ↦ ground (arith, any_complete test xs x (ground arith) t)
]

module _ (m : Memory) (s : String) where
  owner_manages : (o : String) → Tuple m o "owner" s → manages_directly m o s ≡ true
  unfolding manages_directly
  owner_manages o t = ground arith

  Linked-manages :
      (o g : String)
      → Linked m o "organization" g
      → org_manages m s g ≡ true
      → manages_directly m o s ≡ true
  unfolding manages_directly
  Linked-manages o g l t =
      ground (arith, any_complete (org_manages m s) (keys (subjects m o "organization")) g l t)

  module _ (w : List String) (e : Explored m s [] w) where
    manage_refuted : (o : String) → Marked w (visit_key o "can_manage") → ManageRefuted m s w o
    manage_refuted o h = ⊎_elim (λ x. absurd (ground arith)) (λ r. r) (e.manages o h)

    read_refuted : (o : String) → Marked w (visit_key o "can_read") → ReadRefuted m s w o
    read_refuted o h = ⊎_elim (λ x. absurd (ground arith)) (λ r. r) (e.reads o h)

    -- a tuple by which the object is managed directly
    no_direct :
        (o : String)
        → Marked w (visit_key o "can_manage")
        → is_organization o ≡ false
        → manages_directly m o s ≡ true
        → ⊥
    no_direct o h plain t = cc ((manage_refuted o h).no_tuple plain)

    no_org :
        (o : String)
        → Marked w (visit_key o "can_manage")
        → is_organization o ≡ true
        → (org_manages m s o || has m o "owner" s) ≡ true
        → ⊥
    no_org o h org t = cc ((manage_refuted o h).no_org_tuple org)

    pub no_manage : (o : String) → Marked w (visit_key o "can_manage") → CanManage m s o → ⊥
    unfolding org_manages
    no_manage o h (owner _ t) = elim (Bool-cases (is_organization o)) [
      | inl org ↦ no_org o h org (ground arith)
      | inr plain ↦ no_direct o h plain (owner_manages o t)
    ]
    no_manage o h (manager _ org t) = no_org o h org (ground arith)
    no_manage o h (knowledge_admin _ org t) = no_org o h org (ground arith)
    no_manage o h (manager_from _ g plain l t) =
        no_direct o h plain (Linked-manages o g l (ground arith))
    no_manage o h (knowledge_admin_from _ g plain l t) =
        no_direct o h plain (Linked-manages o g l (ground arith))
    no_manage o h (manage_from_parent _ p plain l d) =
        no_manage p ((manage_refuted o h).no_parent plain p l) d

    pub no_read : (o : String) → Marked w (visit_key o "can_read") → CanRead m s o → ⊥
    unfolding reads_directly
    no_read o h (reader _ t) = let r = (read_refuted o h).no_tuple in ground arith
    no_read o h (restricted_reader _ t) = let r = (read_refuted o h).no_tuple in ground arith
    no_read o h (assignee _ t) = let r = (read_refuted o h).no_tuple in ground arith
    no_read o h (manages _ d) = no_manage o (read_refuted o h).no_manage d
    no_read o h (read_from_parent _ p l d) = no_read p ((read_refuted o h).no_parent p l) d
