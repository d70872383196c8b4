-- ===== src/Gate.antt =====
-- internal/application/authz_gate.go: the checks before an operation of the service. The
-- authorization provider and the lookup of an organization are arguments, and so is the bootstrap
-- token that the environment holds.
pub mod Laws
use gontext.Base.{String, string_eq, ◌==◌, concat, trim_prefix, trim_space, equal_fold}
use gontext.Base.{Bool, not, ◌&&◌, ◌||◌, Option, none, some, List, [], ◌∷◌}
use gontext.Base.{if◌then◌else◌, any}
use gontext.Base.{number_eq}
use gontext.Ports.{Principal, AuthzCheck, AuthzDecision}
use gontext.Platform.{
  Error, Result, ok, err, ◌>>=◌, err_forbidden, err_unavailable, reason_of, require_org,
}
use gontext.Ledger.{Organization}

abbrev pub scope_search : String
scope_search = "context:search"

abbrev pub scope_read : String
scope_read = "context:read"

abbrev pub scope_ingest : String
scope_ingest = "context:ingest"

abbrev pub scope_manage_policy : String
scope_manage_policy = "context:manage_policy"

abbrev pub scope_audit_read : String
scope_audit_read = "context:audit_read"

-- scopesOf
unfoldable pub scopes_of : Principal → List String → List String
scopes_of principal extra = elim principal.scopes [ [] ↦ extra | s ∷ ss ↦ s ∷ ss ]

unfoldable pub satisfies : String → String → Bool
satisfies required s =
    s == required
    || required == scope_search && s == scope_read
    || required == scope_audit_read && s == scope_manage_policy

-- hasScope
unfoldable pub has_scope : List String → String → Bool
has_scope scopes required = any (satisfies required) scopes

-- requireScope
unfoldable pub require_scope : List String → String → Result (Unit {0})
require_scope scopes required =
    if has_scope scopes required
    then ok tt
    else err (err_forbidden (concat "missing oauth scope " required))

-- requireIngest
unfoldable pub require_ingest : Principal → String → List String → Result (Unit {0})
require_ingest principal org_id extra =
    require_org principal org_id >>= λ done. require_scope (scopes_of principal extra) scope_ingest

-- requireAuditRead
unfoldable pub require_audit_read : Principal → String → List String → Result (Unit {0})
require_audit_read principal org_id extra = require_org principal org_id >>= λ done.
    require_scope (scopes_of principal extra) scope_audit_read

unfoldable pub or_search : Result (Unit {0}) → List String → Result (Unit {0})
or_search (ok done) scopes = ok tt
or_search (err e) scopes = require_scope scopes scope_search

-- requireRead
unfoldable pub require_read : Principal → String → List String → Result (Unit {0})
require_read principal org_id extra = require_org principal org_id >>= λ done.
    or_search (require_scope (scopes_of principal extra) scope_read) (scopes_of principal extra)

-- validPlatformBootstrap, of the environment's text and the bearer token
unfoldable pub valid_platform_bootstrap : String → String → Bool
valid_platform_bootstrap token bearer =
    not (trim_space token == "") && trim_prefix (trim_space bearer) "Bearer " == trim_space token

-- isPlatformAdmin
unfoldable pub is_platform_admin : Principal → Bool
is_platform_admin principal =
    any (λ r. equal_fold r "platform_admin" || equal_fold r "owner") principal.roles
    || any (λ g. equal_fold g "platform_admin") principal.groups

abbrev pub manage_actions : List String
manage_actions = "can_manage" ∷ "manager" ∷ "knowledge_admin" ∷ []

unfoldable pub org_check : Principal → String → String → AuthzCheck
org_check principal org_id action = record {
  principal = principal;
  action = action;
  resource_id = concat "organization:" org_id;
  consistency = "fully_consistent";
  delegation = none;
}

module _ (check : AuthzCheck → Result AuthzDecision) where
  -- The loop over the actions.
  unfoldable pub any_action : Principal → String → List String → Result (Unit {0})
  any_action principal org_id [] = err (err_forbidden "can_manage required")
  any_action principal org_id (a ∷ actions) =
      let rest = any_action principal org_id actions in
      check (org_check principal org_id a) >>= λ dec. if dec.allowed then ok tt else rest

-- requireAuthzManage, with or without a provider
unfoldable pub require_authz_manage :
    Option (AuthzCheck → Result AuthzDecision) → Principal → String → Result (Unit {0})
require_authz_manage none principal org_id = err (err_unavailable "authorization not configured")
require_authz_manage (some check) principal org_id =
    any_action check principal org_id manage_actions

-- requireManage
unfoldable pub require_manage :
    Option (AuthzCheck → Result AuthzDecision)
    → Principal
    → String
    → List String
    → Result (Unit {0})
require_manage authz principal org_id extra =
    require_scope (scopes_of principal extra) scope_manage_policy >>= λ done.
    require_authz_manage authz principal org_id

-- the answer to a failed lookup of the organization
unfoldable pub lookup_failed : Error → Error
lookup_failed e = elim (reason_of e) [
  | none ↦ err_unavailable "organization lookup failed"
  | some reason ↦
      if reason == "not_found"
      then err_forbidden "organization bootstrap requires platform credentials"
      else err_unavailable "organization lookup failed"
]

unfoldable pub with_organization :
    Result Organization
    → Option (AuthzCheck → Result AuthzDecision)
    → Principal
    → String
    → List String
    → Result (Unit {0})
with_organization (err e) authz principal org_id extra = err (lookup_failed e)
with_organization (ok org) authz principal org_id extra =
    require_manage authz principal org_id extra

-- requireOrgBootstrap
unfoldable pub require_org_bootstrap :
    String
    → String
    → Result Organization
    → Option (AuthzCheck → Result AuthzDecision)
    → Principal
    → String
    → List String
    → Result (Unit {0})
require_org_bootstrap token bearer found authz principal org_id extra =
    if valid_platform_bootstrap token bearer || is_platform_admin principal
    then ok tt
    else with_organization found authz principal org_id extra
