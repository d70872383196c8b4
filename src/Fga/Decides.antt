-- ===== src/Fga/Decides.antt =====
-- The evaluation decides the rules of Fga/Model: it always ends, and answers true exactly where a
-- derivation by them is.
use gontext.Base.{ℕ, suc, ◌≤◌, ◌<◌}
use gontext.Base.{String, string_eq, ◌==◌, eq_iff, contains}
use gontext.Base.{◌≡◌, ◌↔◌, ◌∙◌, sym, ap, inl, inr}
use gontext.Base.{Bool, true, false, some, List, [], ◌∷◌}
use gontext.Base.{arith, Bool-cases, length}
use gontext.Fga.{Memory, has, subjects, can, body, parents, visit_key}
use gontext.Fga.Model.{CanManage, CanRead, Grants}
use gontext.Fga.Sound.{can_sound}
use gontext.Fga.Complete.{can-Explored}
use gontext.Fga.Refute.{no_manage, no_read}
use gontext.Fga.Check.{universe, allowed, answer}
use gontext.Fga.Fuel.{fresh, parents_known, In, In-universe}
use gontext.Fga.Ends.{can-Ends}

fresh-le-length : (u : List String) → fresh u [] ≤ length u
unfolding fresh
fresh-le-length [] = omega arith
fresh-le-length (x ∷ u) = omega (arith, fresh-le-length u)

module _ (m : Memory) (s root : String) where
  abbrev fuel : ℕ
  fuel = suc (length (universe m root))

  enough : fresh (universe m root) [] < fuel
  enough = omega (arith, fresh-le-length (universe m root))

  closed : (o p : String) → contains (parents m o) p ≡ true → In (universe m root) p
  unfolding parents subjects
  closed o p h = In-universe m root p (ground (arith, parents_known m.relations o p h))

  at_root : In (universe m root) root
  at_root = In-universe m root root (ground (arith, eq_iff root root))

  allowed-read : (allowed m root "can_read" s ≡ true) ↔ CanRead m s root
  unfolding allowed
  allowed-read =
      let (b, w, e, grow) = (can-Ends m s (universe m root) closed fuel).0 root [] at_root enough in
      answer_iff b w e
    where
      answer_iff :
          (b : Bool) (w : List String)
          → can fuel m s root "can_read" [] ≡ some (b, w)
          → (allowed m root "can_read" s ≡ true) ↔ CanRead m s root
      answer_iff true w e = (λ _. can_sound fuel m s root "can_read" [] w e, λ _. ground arith)
      answer_iff false w e =
          let (explored, marked) = (can-Explored m s fuel).0 root [] w e in
          (λ h. absurd (ground arith), λ d. absurd (no_read m s w explored root marked d))

  allowed-manage : (allowed m root "can_manage" s ≡ true) ↔ CanManage m s root
  unfolding allowed
  allowed-manage =
      let (b, w, e, grow) = (can-Ends m s (universe m root) closed fuel).1 root [] at_root enough in
      answer_iff b w e
    where
      answer_iff :
          (b : Bool) (w : List String)
          → can fuel m s root "can_manage" [] ≡ some (b, w)
          → (allowed m root "can_manage" s ≡ true) ↔ CanManage m s root
      answer_iff true w e = (λ _. can_sound fuel m s root "can_manage" [] w e, λ _. ground arith)
      answer_iff false w e =
          let (explored, marked) = (can-Explored m s fuel).1 root [] w e in
          (λ h. absurd (ground arith), λ d. absurd (no_manage m s w explored root marked d))

  allowed-tuple :
      (r : String)
      → (r == "can_read") ≡ false
      → (r == "can_manage") ≡ false
      → allowed m root r s ≡ has m root r s
  unfolding allowed can body
  allowed-tuple r nr nm = ground arith

-- For every memory, object, relation and subject the search ends: the fuel that `allowed` gives it
-- is enough, and its answer is that of `allowed`.
pub can-ends :
    (m : Memory) (object relation subject : String)
    → (visited : List String) × (can (suc (length (universe m object))) m subject object relation []
        ≡ some (allowed m object relation subject, visited))
unfolding allowed can body
can-ends m o r s = elim (Bool-cases (r == "can_read")) [
  | inl e ↦
      let (b, w, a, grow) =
        (can-Ends m s (universe m o) (closed m s o) (fuel m s o)).0 o [] (at_root m s o)
          (enough m s o) in
      rw ((eq_iff r "can_read").0 e) (w, a ∙ ap (λ x. some (x, w)) (sym (ap answer a)))
  | inr n ↦ elim (Bool-cases (r == "can_manage")) [
    | inl e ↦
        let (b, w, a, grow) =
          (can-Ends m s (universe m o) (closed m s o) (fuel m s o)).1 o [] (at_root m s o)
            (enough m s o) in
        rw ((eq_iff r "can_manage").0 e) (w, a ∙ ap (λ x. some (x, w)) (sym (ap answer a)))
    | inr k ↦ (visit_key o r ∷ [], ground arith)
  ]
]

-- For every memory, object, relation and subject the search allows exactly what the rules of
-- Fga/Model derive, which expand no usersets: can_read and can_manage by their rules, any other
-- relation by a tuple.
pub allowed-iff-Grants :
    (m : Memory) (object relation subject : String)
    → (allowed m object relation subject ≡ true) ↔ Grants m subject object relation
allowed-iff-Grants m o r s = elim (Bool-cases (r == "can_read")) [
  | inl e ↦ rw ((eq_iff r "can_read").0 e) (allowed-read m s o)
  | inr n ↦ elim (Bool-cases (r == "can_manage")) [
    | inl e ↦ rw ((eq_iff r "can_manage").0 e) (allowed-manage m s o)
    | inr k ↦ rw (n, k, Grants) (rw (allowed-tuple m s o r n k) ((λ h. h), (λ h. h)))
  ]
]
