-- ===== src/Fga/Ends.antt =====
-- With fuel above the number of its unmarked keys, a call ends with an answer.
use gontext.Base.{ℕ, zero, suc, ◌<◌}
use gontext.Base.{String, string_eq, eq_iff, contains}
use gontext.Base.{◌≡◌, refl, inl, inr}
use gontext.Base.{Bool, true, false, ◌||◌, some, List, [], ◌∷◌}
use gontext.Base.{arith, Bool-cases}
use gontext.Fga.{
  Memory, Visit, has, can, body, read_body, manage_body, any_parent, reads_directly,
  manages_directly, org_manages, is_organization, parents, visit_key,
}
use gontext.Fga.Explored.{Marked}
use gontext.Fga.Fuel.{fresh, fresh_mono, fresh-mark, marks_one, In}

module _ (m : Memory) (s : String) (u : List String)
    (closed : (o p : String) → contains (parents m o) p ≡ true → In u p) where
  -- A call that ends with an answer, and marks what was marked.
  abbrev pub Answers : Visit → List String → Type 0
  Answers x v =
      (b : Bool) × (w : List String) × (x ≡ some (b, w)) × ((k : String) → Marked v k → Marked w k)

  abbrev pub Ends : (String → List String → Visit) → ℕ → Type 0
  Ends call n = (p : String) (v : List String) → In u p → fresh u v < n → Answers (call p v) v

  any_parent-Ends :
      (call : String → List String → Visit) (n : ℕ)
      → Ends call n
      → (ps v : List String) → ((p : String) → contains ps p ≡ true → In u p)
      → fresh u v < n
      → Answers (any_parent call ps v) v
  unfolding any_parent
  any_parent-Ends call n ends [] v inside h = (false, v, refl, λ k c. c)
  any_parent-Ends call n ends (p ∷ ps) v inside h =
      let (b, w, e, grow) = ends p v (inside p (ground (arith, eq_iff p p))) h in
      next b w e grow (
        any_parent-Ends call n ends ps w (λ q c. inside q (ground arith))
          (omega (arith, fresh_mono u v w grow)))
    where
      next :
          (b : Bool) (w : List String)
          → call p v ≡ some (b, w)
          → ((k : String) → Marked v k → Marked w k)
          → Answers (any_parent call ps w) w
          → Answers (any_parent call (p ∷ ps) v) v
      next true w e grow rest = (true, w, ground arith, grow)
      next false w e grow (b, x, d, more) = (b, x, ground arith, λ k c. more k (grow k c))

  module _ (call : String → String → List String → Visit) (n : ℕ)
      (reads : Ends (λ p. call p "can_read") n) (manages : Ends (λ p. call p "can_manage") n) where
    manage_body-ends :
        (o : String) (v : List String) → fresh u v < n → Answers (manage_body m s call o v) v
    unfolding manage_body
    manage_body-ends o v h = elim (Bool-cases (is_organization o)) [
      | inl org ↦ (org_manages m s o || has m o "owner" s, v, ground arith, λ k c. c)
      | inr plain ↦ elim (Bool-cases (manages_directly m o s)) [
        | inl t ↦ (true, v, ground arith, λ k c. c)
        | inr t ↦
            let (b, w, e, grow) =
              any_parent-Ends (λ p. call p "can_manage") n manages (parents m o) v (closed o) h in
            (b, w, ground arith, grow)
      ]
    ]

    read_body-ends :
        (o : String) (v : List String) → In u o → fresh u v < n → Answers (read_body m s call o v) v
    unfolding read_body
    read_body-ends o v inside h = elim (Bool-cases (reads_directly m o s)) [
      | inl t ↦ (true, v, ground arith, λ k c. c)
      | inr t ↦
          let (b, w, e, grow) = manages o v inside h in
          next b w t e grow (
            any_parent-Ends (λ p. call p "can_read") n reads (parents m o) w (closed o)
              (omega (arith, fresh_mono u v w grow)))
    ]
      where
        next :
            (b : Bool) (w : List String)
            → reads_directly m o s ≡ false
            → call o "can_manage" v ≡ some (b, w)
            → ((k : String) → Marked v k → Marked w k)
            → Answers (any_parent (λ p. call p "can_read") (parents m o) w) w
            → Answers (read_body m s call o v) v
        next true w t e grow rest = (true, w, ground arith, grow)
        next false w t e grow (b, x, d, more) = (b, x, ground arith, λ k c. more k (grow k c))

  pub can-Ends :
      (fuel : ℕ)
      → Ends (λ p. can fuel m s p "can_read") fuel × Ends (λ p. can fuel m s p "can_manage") fuel
  unfolding can body
  can-Ends zero = (λ p v i h. absurd (omega arith), λ p v i h. absurd (omega arith))
  can-Ends (suc f) =
      let (reads, manages) = can-Ends f in
      (
        λ p v i h. elim (Bool-cases (contains v (visit_key p "can_read"))) [
          | inl seen ↦ (false, v, ground arith, λ k c. c)
          | inr new ↦
              let (b, w, e, grow) =
                read_body-ends (can f m s) f reads manages p (visit_key p "can_read" ∷ v) i
                  (omega (arith, fresh-mark u v (visit_key p "can_read") i.read new)) in
              (b, w, ground arith, λ k c. grow k (marks_one _ v k c))
        ],
        λ p v i h. elim (Bool-cases (contains v (visit_key p "can_manage"))) [
          | inl seen ↦ (false, v, ground arith, λ k c. c)
          | inr new ↦
              let (b, w, e, grow) =
                manage_body-ends (can f m s) f reads manages p (visit_key p "can_manage" ∷ v)
                  (omega (arith, fresh-mark u v (visit_key p "can_manage") i.manage new)) in
              (b, w, ground arith, λ k c. grow k (marks_one _ v k c))
        ],
      )
