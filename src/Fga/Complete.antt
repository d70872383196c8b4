-- ===== src/Fga/Complete.antt =====
-- A denying answer of `can` leaves no derivation by the rules of Fga/Model.
use mathlib.Core.Logic.{⊎_elim}
use gontext.Fga.{
  Memory, Visit, has, can, body, read_body, manage_body, reads_directly, manages_directly,
  org_manages, is_organization, parents, visit_key,
}
use gontext.Fga.Keys.{visit_key-injective, read_key-ne-manage_key}
use gontext.Fga.Sound.{Visit-cases}
use gontext.Fga.Explored.{
  Marked, ReadRefuted, ManageRefuted, Explored, Explored-refl, Explored-trans, Denies,
  any_parent-Explored,
}
use gontext.Base.{ℕ, zero, suc}
use gontext.Base.{String, string_eq, ◌==◌, eq_iff, contains}
use gontext.Base.{◌≡◌, sym, subst, ◌⊎◌, inl, inr}
use gontext.Base.{Bool, true, false, ◌||◌, some, List, ◌∷◌}
use gontext.Base.{arith, Bool-cases}

true-and-false : {b : Bool} → b ≡ true → b ≡ false → ⊥
true-and-false p q = cc

module _ (m : Memory) (s : String) where
  -- A node marks its own key first; it is refuted at the end.
  read_node :
      (o : String) (v w : List String)
      → ReadRefuted m s w o
      → Explored m s (visit_key o "can_read" ∷ v) w
      → Explored m s v w × Marked w (visit_key o "can_read")
  read_node o v w refuted e = (
    record {
      keeps = λ k h. e.keeps k (ground arith);
      reads = λ p h. ⊎_elim (λ b. old p b) inr (e.reads p h);
      manages = λ p h. ⊎_elim (λ b. inl (other p b)) inr (e.manages p h);
    },
    e.keeps key (ground (arith, eq_iff key key)),
  )
    where
      key : String
      key = visit_key o "can_read"

      old :
          (p : String)
          → Marked (key ∷ v) (visit_key p "can_read")
          → Marked v (visit_key p "can_read") ⊎ ReadRefuted m s w p
      old p h = elim (Bool-cases (key == visit_key p "can_read")) [
        | inl same ↦ inr (
            subst (ReadRefuted m s w)
              (visit_key-injective o p "can_read" ((eq_iff key (visit_key p "can_read")).0 same))
              refuted)
        | inr differs ↦ inl (ground arith)
      ]

      other :
          (p : String)
          → Marked (key ∷ v) (visit_key p "can_manage")
          → Marked v (visit_key p "can_manage")
      other p h = elim (Bool-cases (key == visit_key p "can_manage")) [
        | inl same ↦
            absurd (read_key-ne-manage_key o p ((eq_iff key (visit_key p "can_manage")).0 same))
        | inr differs ↦ ground arith
      ]

  manage_node :
      (o : String) (v w : List String)
      → ManageRefuted m s w o
      → Explored m s (visit_key o "can_manage" ∷ v) w
      → Explored m s v w × Marked w (visit_key o "can_manage")
  manage_node o v w refuted e = (
    record {
      keeps = λ k h. e.keeps k (ground arith);
      reads = λ p h. ⊎_elim (λ b. inl (other p b)) inr (e.reads p h);
      manages = λ p h. ⊎_elim (λ b. old p b) inr (e.manages p h);
    },
    e.keeps key (ground (arith, eq_iff key key)),
  )
    where
      key : String
      key = visit_key o "can_manage"

      old :
          (p : String)
          → Marked (key ∷ v) (visit_key p "can_manage")
          → Marked v (visit_key p "can_manage") ⊎ ManageRefuted m s w p
      old p h = elim (Bool-cases (key == visit_key p "can_manage")) [
        | inl same ↦ inr (
            subst (ManageRefuted m s w)
              (visit_key-injective o p "can_manage"
                ((eq_iff key (visit_key p "can_manage")).0 same))
              refuted)
        | inr differs ↦ inl (ground arith)
      ]

      other :
          (p : String)
          → Marked (key ∷ v) (visit_key p "can_read")
          → Marked v (visit_key p "can_read")
      other p h = elim (Bool-cases (key == visit_key p "can_read")) [
        | inl same ↦
            absurd (read_key-ne-manage_key p o (sym ((eq_iff key (visit_key p "can_read")).0 same)))
        | inr differs ↦ ground arith
      ]

module _ (m : Memory) (s : String) (call : String → String → List String → Visit)
    (read_denies : Denies m s (λ p. call p "can_read") "can_read")
    (manage_denies : Denies m s (λ p. call p "can_manage") "can_manage") where
  read_body-Explored :
      (o : String) (v w : List String)
      → read_body m s call o (visit_key o "can_read" ∷ v) ≡ some (false, w)
      → Explored m s v w × Marked w (visit_key o "can_read")
  unfolding read_body
  read_body-Explored o v w h = elim (Bool-cases (reads_directly m o s)) [
    | inl t ↦ absurd (ground arith)
    | inr no_tuple ↦ elim (Visit-cases (call o "can_manage" (visit_key o "can_read" ∷ v))) [
      | inl e ↦ absurd (ground arith)
      | inr (inl (u, e)) ↦ absurd (ground arith)
      | inr (inr (u, e)) ↦
          let (first, marked) = manage_denies o (visit_key o "can_read" ∷ v) u e in
          let (rest, loop) =
            any_parent-Explored m s (λ p. call p "can_read") "can_read" read_denies (parents m o) u
              w (ground arith) in
          read_node m s o v w
            (record { no_tuple = no_tuple; no_manage = rest.keeps _ marked; no_parent = loop })
            (Explored-trans m s (visit_key o "can_read" ∷ v) u w first rest)
    ]
  ]

  manage_body-Explored :
      (o : String) (v w : List String)
      → manage_body m s call o (visit_key o "can_manage" ∷ v) ≡ some (false, w)
      → Explored m s v w × Marked w (visit_key o "can_manage")
  unfolding manage_body
  manage_body-Explored o v w h = elim (Bool-cases (is_organization o)) [
    | inl org ↦
        let same : (visit_key o "can_manage" ∷ v) ≡ w = ground arith in
        let none_manage : (org_manages m s o || has m o "owner" s) ≡ false = ground arith in
        manage_node m s o v w
          (record {
            no_org_tuple = λ _. none_manage;
            no_tuple = λ plain. absurd (true-and-false org plain);
            no_parent = λ plain p c. absurd (true-and-false org plain);
          })
          (subst (Explored m s (visit_key o "can_manage" ∷ v)) same (Explored-refl m s _))
    | inr plain ↦ elim (Bool-cases (manages_directly m o s)) [
      | inl t ↦ absurd (ground arith)
      | inr no_tuple ↦
          let (rest, loop) =
            any_parent-Explored m s (λ p. call p "can_manage") "can_manage" manage_denies
              (parents m o) (visit_key o "can_manage" ∷ v) w (ground arith) in
          manage_node m s o v w
            (record {
              no_org_tuple = λ org. absurd (true-and-false org plain);
              no_tuple = λ _. no_tuple;
              no_parent = λ _. loop;
            })
            rest
    ]
  ]

module _ (m : Memory) (s : String) where
  abbrev BothDeny : (String → String → List String → Visit) → Type 0
  BothDeny call =
      Denies m s (λ p. call p "can_read") "can_read"
      × Denies m s (λ p. call p "can_manage") "can_manage"

  pub can-Explored : (fuel : ℕ) → BothDeny (can fuel m s)
  unfolding can body
  can-Explored zero = (λ p v w h. absurd (ground arith), λ p v w h. absurd (ground arith))
  can-Explored (suc f) =
      let (read, manage) = can-Explored f in
      (
        λ p v w h. elim (Bool-cases (contains v (visit_key p "can_read"))) [
          | inl seen ↦
              let same : v ≡ w = ground arith in
              (
                subst (Explored m s v) same (Explored-refl m s v),
                subst (λ x. Marked x (visit_key p "can_read")) same seen,
              )
          | inr new ↦ read_body-Explored m s (can f m s) read manage p v w (ground arith)
        ],
        λ p v w h. elim (Bool-cases (contains v (visit_key p "can_manage"))) [
          | inl seen ↦
              let same : v ≡ w = ground arith in
              (
                subst (Explored m s v) same (Explored-refl m s v),
                subst (λ x. Marked x (visit_key p "can_manage")) same seen,
              )
          | inr new ↦ manage_body-Explored m s (can f m s) read manage p v w (ground arith)
        ],
      )
