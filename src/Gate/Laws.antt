-- ===== src/Gate/Laws.antt =====
-- What each check lets pass.
use gontext.Base.{String}
use gontext.Base.{◌≡◌, refl, ◌↔◌, ◌⊎◌, inl, inr}
use gontext.Base.{Bool, true, false, ◌||◌, Option, none, some, List, [], ◌∷◌}
use gontext.Base.{arith, if◌then◌else◌, Bool-cases, any}
use gontext.Ports.{Principal, AuthzCheck, AuthzDecision}
use gontext.Platform.{◌>>=◌, Result, ok, err, require_org}
use gontext.Ledger.{Organization}
use gontext.Gate.{
  scope_search, scope_read, scope_manage_policy, scopes_of, has_scope, require_scope, or_search,
  require_read, valid_platform_bootstrap, is_platform_admin, manage_actions, org_check, any_action,
  require_authz_manage, require_manage, with_organization, require_org_bootstrap,
}

-- Whether an answer of the authorization provider allows.
unfoldable pub allows : Result AuthzDecision → Bool
allows (err e) = false
allows (ok dec) = dec.allowed

-- The provider allows the principal one of the actions on the organization.
unfoldable pub may : Option (AuthzCheck → Result AuthzDecision) → Principal → String → Bool
may none principal org_id = false
may (some check) principal org_id =
    any (λ a. allows (check (org_check principal org_id a))) manage_actions

scope_ok :
    (scopes : List String) (required : String)
    → (require_scope scopes required ≡ ok tt) ↔ (has_scope scopes required ≡ true)
unfolding require_scope
scope_ok scopes required = elim (Bool-cases (has_scope scopes required)) [
  | inl y ↦ rw (y, require_scope) ((λ h. refl), (λ h. refl))
  | inr n ↦ rw (n, require_scope) ((λ h. absurd (ground arith)), (λ h. absurd (ground arith)))
]

read_or_search :
    (scopes : List String)
    → (or_search (require_scope scopes scope_read) scopes ≡ ok tt)
      ↔ ((has_scope scopes scope_read || has_scope scopes scope_search) ≡ true)
unfolding or_search require_scope
read_or_search scopes = elim (Bool-cases (has_scope scopes scope_read)) [
  | inl y ↦ rw (y, require_scope) ((λ h. refl), (λ h. refl))
  | inr n ↦ elim (Bool-cases (has_scope scopes scope_search)) [
    | inl y ↦ rw (n, y, require_scope) ((λ h. refl), (λ h. refl))
    | inr m ↦ rw (n, m, require_scope) ((λ h. absurd (ground arith)), (λ h. absurd (ground arith)))
  ]
]

after_org :
    (r rest : Result (Unit {0})) (P : Type 0)
    → (rest ≡ ok tt) ↔ P
    → ((r >>= λ done. rest) ≡ ok tt) ↔ ((r ≡ ok tt) × P)
after_org (ok done) rest P e = ((λ h. (refl, e.0 h)), (λ h. e.1 h.1))
after_org (err x) rest P e = ((λ h. absurd (ground arith)), (λ h. absurd (ground (arith, h.0))))

-- Reading is allowed exactly to a principal of the organization, which is not blank, that has the
-- scope of reading or of searching.
require_read_iff :
    (principal : Principal) (org_id : String) (extra : List String)
    → (require_read principal org_id extra ≡ ok tt) ↔ (
        (require_org principal org_id ≡ ok tt)
        × ((has_scope (scopes_of principal extra) scope_read
              || has_scope (scopes_of principal extra) scope_search)
            ≡ true))
unfolding require_read
require_read_iff principal org_id extra =
    after_org (require_org principal org_id) _ _ (read_or_search (scopes_of principal extra))

one_answer :
    (r : Result AuthzDecision) (rest : Result (Unit {0})) (others : Bool)
    → (r >>= λ dec. if dec.allowed then ok tt else rest) ≡ ok tt
    → (rest ≡ ok tt → others ≡ true)
    → (allows r || others) ≡ true
unfolding allows
one_answer (err e) rest others h k = absurd (ground arith)
one_answer (ok dec) rest others h k = elim (Bool-cases dec.allowed) [
  | inl y ↦ rw (y) refl
  | inr n ↦ rw (n) (k (rw (n) at h))
]

any_action_lem :
    (check : AuthzCheck → Result AuthzDecision) (principal : Principal) (org_id : String)
    (actions : List String)
    → any_action check principal org_id actions ≡ ok tt
    → any (λ a. allows (check (org_check principal org_id a))) actions ≡ true
unfolding any_action allows
any_action_lem check principal org_id [] h = absurd (ground arith)
any_action_lem check principal org_id (a ∷ actions) h =
    one_answer (check (org_check principal org_id a)) _ _ h
      (any_action_lem check principal org_id actions)

manage_may :
    (authz : Option (AuthzCheck → Result AuthzDecision)) (principal : Principal) (org_id : String)
    → require_authz_manage authz principal org_id ≡ ok tt
    → may authz principal org_id ≡ true
unfolding require_authz_manage may
manage_may none principal org_id h = absurd (ground arith)
manage_may (some check) principal org_id h = any_action_lem check principal org_id manage_actions h

-- Managing an organization passes only with the scope of managing policy and where the provider
-- allows one of can_manage, manager and knowledge_admin on the organization.
pub require_manage_lem :
    (authz : Option (AuthzCheck → Result AuthzDecision)) (principal : Principal) (org_id : String)
    (extra : List String)
    → require_manage authz principal org_id extra ≡ ok tt
    → (has_scope (scopes_of principal extra) scope_manage_policy ≡ true)
      × (may authz principal org_id ≡ true)
unfolding require_manage
require_manage_lem authz principal org_id extra h =
    let (scope, rest) =
      (after_org (require_scope (scopes_of principal extra) scope_manage_policy)
          (require_authz_manage authz principal org_id)
          (require_authz_manage authz principal org_id ≡ ok tt) ((λ e. e), (λ e. e))).0
        h in
    (
      (scope_ok (scopes_of principal extra) scope_manage_policy).0 scope,
      manage_may authz principal org_id rest,
    )

with_organization_lem :
    (found : Result Organization) (authz : Option (AuthzCheck → Result AuthzDecision))
    (principal : Principal) (org_id : String) (extra : List String)
    → with_organization found authz principal org_id extra ≡ ok tt
    → (org : Organization) × (found ≡ ok org)
      × (has_scope (scopes_of principal extra) scope_manage_policy ≡ true)
      × (may authz principal org_id ≡ true)
unfolding with_organization
with_organization_lem (err e) authz principal org_id extra h = absurd (ground arith)
with_organization_lem (ok org) authz principal org_id extra h =
    let (scope, allowed) = require_manage_lem authz principal org_id extra h in
    (org, refl, scope, allowed)

-- An organization is set up only with the platform's token, by a platform administrator, or, where it
-- is there already, by one who may manage it.
pub require_org_bootstrap_lem :
    (token bearer : String) (found : Result Organization)
    (authz : Option (AuthzCheck → Result AuthzDecision)) (principal : Principal) (org_id : String)
    (extra : List String)
    → require_org_bootstrap token bearer found authz principal org_id extra ≡ ok tt
    → ((valid_platform_bootstrap token bearer || is_platform_admin principal) ≡ true)
      ⊎ ((org : Organization) × (found ≡ ok org)
          × (has_scope (scopes_of principal extra) scope_manage_policy ≡ true)
          × (may authz principal org_id ≡ true))
unfolding require_org_bootstrap
require_org_bootstrap_lem token bearer found authz principal org_id extra h =
    elim (Bool-cases (valid_platform_bootstrap token bearer || is_platform_admin principal)) [
      | inl y ↦ inl y
      | inr n ↦ inr (
          with_organization_lem found authz principal org_id extra
            (rw (n, require_org_bootstrap) at h))
    ]
