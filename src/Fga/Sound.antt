-- ===== src/Fga/Sound.antt =====
-- An allowed answer of `can` has a derivation by the rules of Fga/Model.
use gontext.Base.{ℕ, zero, suc}
use gontext.Base.{String, string_eq, ◌==◌, eq_iff, contains}
use gontext.Base.{◌≡◌, refl, ◌⊎◌, inl, inr}
use gontext.Base.{Bool, true, false, ◌||◌, none, some, List, [], ◌∷◌}
use gontext.Base.{arith, Bool-cases, any}
use gontext.Base.Dict.{keys}
use gontext.Fga.{
  Memory, Visit, has, subjects, can, body, read_body, manage_body, any_parent, reads_directly,
  manages_directly, org_manages, is_organization, parents, visit_key,
}
use gontext.Fga.Model.{
  CanManage, CanRead, Grants, owner, manager, knowledge_admin, manager_from, knowledge_admin_from,
  manage_from_parent, reader, restricted_reader, assignee, manages, read_from_parent,
}

pub Visit-cases :
    (v : Visit)
    → (v ≡ none)
      ⊎ ((w : List String) × (v ≡ some (true, w)))
      ⊎ ((w : List String) × (v ≡ some (false, w)))
Visit-cases none = inl refl
Visit-cases (some (true, w)) = inr (inl (w, refl))
Visit-cases (some (false, w)) = inr (inr (w, refl))

pub any_sound :
    (test : String → Bool) (xs : List String)
    → any test xs ≡ true
    → (x : String) × (contains xs x ≡ true) × (test x ≡ true)
any_sound test [] h = cc
any_sound test (x ∷ xs) h = elim (Bool-cases (test x)) [
  | inl e ↦ (x, ground (arith, eq_iff x x), e)
  | inr e ↦ let (y, m, t) = any_sound test xs (ground arith) in (y, ground arith, t)
]

-- A loop over parents answers true only by a parent whose call does.
any_parent_sound :
    (call : String → List String → Visit) (ps v w : List String)
    → any_parent call ps v ≡ some (true, w)
    → (p : String) × (u : List String) × (contains ps p ≡ true) × (call p u ≡ some (true, w))
unfolding any_parent
any_parent_sound call [] v w h = cc
any_parent_sound call (p ∷ ps) v w h = elim (Visit-cases (call p v)) [
  | inl e ↦ cc (rw e at h)
  | inr (inl (u, e)) ↦ (p, v, ground (arith, eq_iff p p), ground arith)
  | inr (inr (u, e)) ↦
      let (q, t, m, c) = any_parent_sound call ps u w (ground arith) in (q, t, ground arith, c)
]

module _ (m : Memory) (s : String) (call : String → String → List String → Visit)
    (sound : (p r : String) (v w : List String)
      → call p r v ≡ some (true, w)
      → Grants m s p r) where
  reads_directly_sound : (o : String) → reads_directly m o s ≡ true → CanRead m s o
  unfolding reads_directly
  reads_directly_sound o h = elim (Bool-cases (has m o "reader" s)) [
    | inl e ↦ reader o e
    | inr n1 ↦ elim (Bool-cases (has m o "restricted_reader" s)) [
      | inl e ↦ restricted_reader o e
      | inr n2 ↦ elim (Bool-cases (has m o "owner" s)) [
        | inl e ↦ manages o (owner o e)
        | inr n3 ↦ assignee o (ground arith)
      ]
    ]
  ]

  manages_directly_sound :
      (o : String) → is_organization o ≡ false → manages_directly m o s ≡ true → CanManage m s o
  unfolding manages_directly
  manages_directly_sound o plain h = elim (Bool-cases (has m o "owner" s)) [
    | inl e ↦ owner o e
    | inr n4 ↦
        let (g, linked, t) =
          any_sound (org_manages m s) (keys (subjects m o "organization")) (ground arith) in
        elim (Bool-cases (has m g "manager" s)) [
          | inl e ↦ manager_from o g plain linked e
          | inr e ↦ knowledge_admin_from o g plain linked (unfold org_manages in ground arith)
        ]
  ]

  org_body_sound :
      (o : String)
      → is_organization o ≡ true
      → (org_manages m s o || has m o "owner" s) ≡ true
      → CanManage m s o
  unfolding org_manages
  org_body_sound o org h = elim (Bool-cases (has m o "manager" s)) [
    | inl e ↦ manager o org e
    | inr n5 ↦ elim (Bool-cases (has m o "knowledge_admin" s)) [
      | inl e ↦ knowledge_admin o org e
      | inr n6 ↦ owner o (ground arith)
    ]
  ]

  manage_body_sound :
      (o : String) (v w : List String) → manage_body m s call o v ≡ some (true, w) → CanManage m s o
  unfolding manage_body
  manage_body_sound o v w h = elim (Bool-cases (is_organization o)) [
    | inl org ↦ org_body_sound o org (ground arith)
    | inr plain ↦ elim (Bool-cases (manages_directly m o s)) [
      | inl e ↦ manages_directly_sound o plain e
      | inr n7 ↦
          let (p, u, linked, c) =
            any_parent_sound (λ p. call p "can_manage") (parents m o) v w (ground arith) in
          manage_from_parent o p plain linked (sound p "can_manage" u w c)
    ]
  ]

  read_body_sound :
      (o : String) (v w : List String) → read_body m s call o v ≡ some (true, w) → CanRead m s o
  unfolding read_body
  read_body_sound o v w h = elim (Bool-cases (reads_directly m o s)) [
    | inl e ↦ reads_directly_sound o e
    | inr n8 ↦ elim (Visit-cases (call o "can_manage" v)) [
      | inl e ↦ absurd (ground arith)
      | inr (inl (u, e)) ↦ manages o (sound o "can_manage" v u e)
      | inr (inr (u, e)) ↦
          let (p, t, linked, c) =
            any_parent_sound (λ p. call p "can_read") (parents m o) u w (ground arith) in
          read_from_parent o p linked (sound p "can_read" t w c)
    ]
  ]

  body_sound :
      (o r : String) (v w : List String) → body m s call o r v ≡ some (true, w) → Grants m s o r
  unfolding body
  body_sound o r v w h = elim (Bool-cases (r == "can_read")) [
    | inl e ↦ rw (e, Grants) (read_body_sound o v w (ground arith))
    | inr e ↦ elim (Bool-cases (r == "can_manage")) [
      | inl d ↦ rw (e, d, Grants) (manage_body_sound o v w (ground arith))
      | inr d ↦ rw (e, d, Grants) (ground arith)
    ]
  ]

pub can_sound :
    (fuel : ℕ) (m : Memory) (s o r : String) (v w : List String)
    → can fuel m s o r v ≡ some (true, w)
    → Grants m s o r
unfolding can
can_sound zero m s o r v w h = cc
can_sound (suc f) m s o r v w h =
    body_sound m s (can f m s) (can_sound f m s) o r (visit_key o r ∷ v) w (ground arith)
