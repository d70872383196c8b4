-- ===== src/Fga/Explored.antt =====
-- What a denial has explored: every key that it marks is refuted once its neighbours are marked.
use gontext.Base.{String, string_eq, ◌==◌, eq_iff, contains}
use gontext.Base.{◌≡◌, subst, ◌⊎◌, inl, inr}
use gontext.Base.{true, false, ◌||◌, some, List, [], ◌∷◌}
use gontext.Base.{arith, Bool-cases}
use gontext.Fga.{
  Memory, Visit, has, any_parent, reads_directly, manages_directly, org_manages, is_organization,
  parents, visit_key,
}
use gontext.Fga.Sound.{Visit-cases}
use mathlib.Core.Logic.{⊎_elim}

-- The map has the key.
abbrev pub Marked : List String → String → Type 0
Marked v key = contains v key ≡ true

pub record ReadRefuted (m : Memory) (s : String) (v : List String) (o : String) : Type 0 where
  pub no_tuple : reads_directly m o s ≡ false
  pub no_manage : Marked v (visit_key o "can_manage")
  pub no_parent : (p : String) → contains (parents m o) p ≡ true → Marked v (visit_key p "can_read")

pub record ManageRefuted (m : Memory) (s : String) (v : List String) (o : String) : Type 0 where
  pub no_org_tuple : is_organization o ≡ true → (org_manages m s o || has m o "owner" s) ≡ false
  pub no_tuple : is_organization o ≡ false → manages_directly m o s ≡ false
  pub no_parent :
      is_organization o ≡ false
      → (p : String) → contains (parents m o) p ≡ true
      → Marked v (visit_key p "can_manage")

-- From the marks v to the marks w, every new mark is refuted.
pub record Explored (m : Memory) (s : String) (v w : List String) : Type 0 where
  pub keeps : (k : String) → Marked v k → Marked w k
  pub reads :
      (o : String)
      → Marked w (visit_key o "can_read")
      → Marked v (visit_key o "can_read") ⊎ ReadRefuted m s w o
  pub manages :
      (o : String)
      → Marked w (visit_key o "can_manage")
      → Marked v (visit_key o "can_manage") ⊎ ManageRefuted m s w o

module _ (m : Memory) (s : String) where
  ReadRefuted-mono :
      (v w : List String) (o : String)
      → ((k : String) → Marked v k → Marked w k)
      → ReadRefuted m s v o
      → ReadRefuted m s w o
  ReadRefuted-mono v w o grow r = record {
    no_tuple = r.no_tuple;
    no_manage = grow _ r.no_manage;
    no_parent = λ p h. grow _ (r.no_parent p h);
  }

  ManageRefuted-mono :
      (v w : List String) (o : String)
      → ((k : String) → Marked v k → Marked w k)
      → ManageRefuted m s v o
      → ManageRefuted m s w o
  ManageRefuted-mono v w o grow r = record {
    no_org_tuple = r.no_org_tuple;
    no_tuple = r.no_tuple;
    no_parent = λ plain p h. grow _ (r.no_parent plain p h);
  }

  pub Explored-refl : (v : List String) → Explored m s v v
  Explored-refl v = record { keeps = λ k h. h; reads = λ o h. inl h; manages = λ o h. inl h }

  pub Explored-trans :
      (u v w : List String) → Explored m s u v → Explored m s v w → Explored m s u w
  Explored-trans u v w a b = record {
    keeps = λ k h. b.keeps k (a.keeps k h);
    reads = λ o h.
        ⊎_elim (λ e. ⊎_elim inl (λ r. inr (ReadRefuted-mono v w o b.keeps r)) (a.reads o e)) inr
          (b.reads o h);
    manages = λ o h.
        ⊎_elim (λ e. ⊎_elim inl (λ r. inr (ManageRefuted-mono v w o b.keeps r)) (a.manages o e)) inr
          (b.manages o h);
  }

  -- What a denying call of one relation has done.
  abbrev pub Denies : (String → List String → Visit) → String → Type 0
  Denies call r =
      (p : String) (v w : List String)
      → call p v ≡ some (false, w)
      → Explored m s v w × Marked w (visit_key p r)

  pub any_parent-Explored :
      (call : String → List String → Visit) (r : String)
      → Denies call r
      → (ps v w : List String) → any_parent call ps v ≡ some (false, w)
      → Explored m s v w × ((p : String) → contains ps p ≡ true → Marked w (visit_key p r))
  unfolding any_parent
  any_parent-Explored call r d [] v w h =
      let e : v ≡ w = ground arith in
      (subst (Explored m s v) e (Explored-refl v), λ p c. absurd (ground arith))
  any_parent-Explored call r d (p ∷ ps) v w h = elim (Visit-cases (call p v)) [
    | inl e ↦ absurd (ground arith)
    | inr (inl (u, e)) ↦ absurd (ground arith)
    | inr (inr (u, e)) ↦
        let (first, marked) = d p v u e in
        let (rest, others) = any_parent-Explored call r d ps u w (ground arith) in
        (
          Explored-trans v u w first rest,
          λ q c. elim (Bool-cases (p == q)) [
            | inl same ↦
                subst (λ x. Marked w (visit_key x r)) ((eq_iff p q).0 same) (rest.keeps _ marked)
            | inr other ↦ others q (ground arith)
          ],
        )
  ]
