-- ===== src/Policy/Laws.antt =====
-- What the policy allows, and the obligations that come with it.
use gontext.Base.{ℕ, ◌≤◌, ◌<◌}
use gontext.Base.{string_eq, ◌==◌, eq_iff, contains, lower, trim_space}
use gontext.Base.{◌≡◌, refl, sym, ap, subst, ◌∙◌, ◌≢◌, ◌↔◌, ◌⊎◌, inl, inr}
use gontext.Base.{true, Option, none, some}
use gontext.Base.{arith, ltb, Bool-cases}
use gontext.Base.Dict.{get}
use gontext.Ports.{PolicyEval, PolicyResult}
use gontext.Base.{number_eq}
use gontext.Policy.{Provider, evaluate, rank, class_of, normal, under_ceiling, grant}

-- The purpose is on the list, and both labels are known, the request's at most the ceiling.
pub record Admits (p : Provider) (req : PolicyEval) : Type 0 where
  pub purpose_given : normal req.purpose ≢ ""
  pub purpose_listed : contains p.allowed_purposes (normal req.purpose) ≡ true
  pub level : ℕ
  pub ceiling : ℕ
  pub level_known : rank (class_of req) ≡ some level
  pub ceiling_known : rank p.max_classification ≡ some ceiling
  pub below : level ≤ ceiling

module _ (p : Provider) (req : PolicyEval) where
  Admits-ceiling :
      (purpose_given : normal req.purpose ≢ "")
      (purpose_listed : contains p.allowed_purposes (normal req.purpose) ≡ true) (a b : Option ℕ)
      → rank (class_of req) ≡ a
      → rank p.max_classification ≡ b
      → (under_ceiling p req a b).allow ≡ true
      → Admits p req
  unfolding under_ceiling
  Admits-ceiling g l none b ea eb h = absurd (ground arith)
  Admits-ceiling g l (some c) none ea eb h = absurd (ground arith)
  Admits-ceiling g l (some c) (some m) ea eb h = record {
    purpose_given = g;
    purpose_listed = l;
    level = c;
    ceiling = m;
    level_known = ea;
    ceiling_known = eb;
    below = ground arith;
  }

  Admits-of_allow : (evaluate p req).allow ≡ true → Admits p req
  unfolding evaluate
  Admits-of_allow h = elim (Bool-cases (normal req.purpose == "")) [
    | inl e ↦ absurd (ground arith)
    | inr e ↦ elim (Bool-cases (contains p.allowed_purposes (normal req.purpose))) [
      | inl l ↦
          Admits-ceiling (λ q. ground (arith, eq_iff (normal req.purpose) "")) l
            (rank (class_of req)) (rank p.max_classification) refl refl (ground arith)
      | inr l ↦ absurd (ground arith)
    ]
  ]

  allow-of_Admits : Admits p req → (evaluate p req).allow ≡ true
  unfolding evaluate
  allow-of_Admits a = ground (arith, eq_iff (normal req.purpose) "")

-- A request is allowed exactly when its purpose is given and listed, its classification and the
-- ceiling are known labels, and its classification ranks at most the ceiling.
pub allow-iff-Admits :
    (p : Provider) (req : PolicyEval) → ((evaluate p req).allow ≡ true) ↔ Admits p req
allow-iff-Admits p req = (Admits-of_allow p req, allow-of_Admits p req)

some_injective {ℓ} : {A : Type ℓ} {a b : A} → some a ≡ some b → a ≡ b
some_injective {A} {a} {b} e = ap (λ o. elim o [ none ↦ a | some x ↦ x ]) e

-- With the same purpose, a request whose classification ranks no higher than an allowed one's is
-- allowed.
pub allow_downward :
    (p : Provider) (req other : PolicyEval) (level high : ℕ)
    → (evaluate p req).allow ≡ true
    → other.purpose ≡ req.purpose
    → rank (class_of req) ≡ some high
    → rank (class_of other) ≡ some level
    → level ≤ high
    → (evaluate p other).allow ≡ true
allow_downward p req other level high h same ranked known lower =
    let a = Admits-of_allow p req h in
    let same_level : a.level ≡ high = some_injective (sym a.level_known ∙ ranked) in
    allow-of_Admits p other (record {
      purpose_given = rw same a.purpose_given;
      purpose_listed = rw same a.purpose_listed;
      level = level;
      ceiling = a.ceiling;
      level_known = known;
      ceiling_known = a.ceiling_known;
      below = omega (arith, a.below);
    })

-- What an allowed result asks for, at a rank.
pub record Obliges (p : Provider) (req : PolicyEval) (level : ℕ) (r : PolicyResult) : Type 0 where
  pub audited : contains r.obligations "audit_disclosure" ≡ true
  pub within_default : r.max_results ≤ p.default_max_results
  pub within_request : (req.requested_limit ≡ 0) ⊎ (r.max_results ≤ req.requested_limit)
  pub masking :
      ((level < 3) × (r.redaction_profile ≡ p.public_redact))
      ⊎ ((3 ≤ level)
          × (contains r.obligations "mask_pii" ≡ true)
          × (r.redaction_profile ≡ p.confidential_redact))

rank_confidential : rank "confidential" ≡ some 3
unfolding rank get normal lower trim_space
rank_confidential = refl

module _ (p : Provider) (req : PolicyEval) where
  is_grant : (a : Admits p req) → evaluate p req ≡ grant p req a.level
  unfolding evaluate
  is_grant a = ground (
    arith,
    a.purpose_given,
    a.purpose_listed,
    a.level_known,
    a.ceiling_known,
    a.below,
    eq_iff (normal req.purpose) "",
  )

  grant-audited : (level : ℕ) → contains (grant p req level).obligations "audit_disclosure" ≡ true
  unfolding grant
  grant-audited level = refl

  grant-default : (level : ℕ) → (grant p req level).max_results ≤ p.default_max_results
  unfolding grant
  grant-default level = ground arith

  grant-within :
      (level : ℕ)
      → (req.requested_limit ≡ 0) ⊎ ((grant p req level).max_results ≤ req.requested_limit)
  unfolding grant
  grant-within level = elim (Bool-cases (req.requested_limit == 0)) [
    | inl y ↦ inl (ground arith)
    | inr n ↦ inr (ground arith)
  ]

  grant-masking :
      (level : ℕ)
      → ((level < 3) × ((grant p req level).redaction_profile ≡ p.public_redact))
        ⊎ ((3 ≤ level)
            × (contains (grant p req level).obligations "mask_pii" ≡ true)
            × ((grant p req level).redaction_profile ≡ p.confidential_redact))
  unfolding grant
  grant-masking level = elim (Bool-cases (ltb level 3)) [
    | inl y ↦ inl (ground arith, ground (arith, rank_confidential))
    | inr n ↦
        inr (ground arith, ground (arith, rank_confidential), ground (arith, rank_confidential))
  ]

  grant-Obliges : (level : ℕ) → Obliges p req level (grant p req level)
  grant-Obliges level = record {
    audited = grant-audited level;
    within_default = grant-default level;
    within_request = grant-within level;
    masking = grant-masking level;
  }

-- An allowed result asks for the audit, is limited by the default and by a request's limit that is not
-- 0, and asks for the mask and the confidential profile exactly from the rank of "confidential" up.
allow-Obliges :
    (p : Provider) (req : PolicyEval) (level : ℕ)
    → (evaluate p req).allow ≡ true
    → rank (class_of req) ≡ some level
    → Obliges p req level (evaluate p req)
allow-Obliges p req level h known =
    let a = Admits-of_allow p req h in
    let same : a.level ≡ level = some_injective (sym a.level_known ∙ known) in
    rw (is_grant p req a)
      (subst (λ n. Obliges p req n (grant p req a.level)) same (grant-Obliges p req a.level))
