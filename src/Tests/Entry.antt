-- ===== src/Tests/Entry.antt =====
-- Agent credentials and the checks of the service.
use gontext.Base.{String, string_eq, ◌==◌, eq_iff, concat, trim_space}
use gontext.Base.{◌≡◌, refl, ◌≢◌, ◌⊎◌}
use gontext.Base.{true, ◌||◌, some, [], ◌∷◌}
use gontext.Base.{arith}
use gontext.Ports.{AuthzCheck, AuthzDecision, CreateAgentCredentialRequest}
use gontext.Platform.{Result, ok}
use gontext.Ledger.{Organization}
use gontext.Credentials.{
  CredentialStore, new_credential_store, add_cred, principal_of, is_expired, revoke,
  resolve_api_key, create_agent_credential,
}
use gontext.Credentials.Coherent.{IsCoherent, add-IsCoherent, new_store-IsCoherent}
use gontext.Credentials.Resolution.{revoke-resolve_api_key, create-resolve_api_key}
use gontext.Gate.{
  scopes_of, has_scope, scope_manage_policy, require_org_bootstrap, valid_platform_bootstrap,
  is_platform_admin,
}
use gontext.Gate.Laws.{may, require_org_bootstrap_lem}
use gontext.Tests.Data.{acme, ann}

abbrev bot : CreateAgentCredentialRequest
bot = record {
  org_id = acme;
  agent_id = "bot";
  owner_id = "ann";
  delegation_id = "";
  expires_at = some 90;
  label = "";
}

abbrev digest : String → String
digest key = concat "#" key

org_given : acme ≢ ""
org_given e = absurd (ground (arith, eq_iff acme ""))

agent_given : bot.agent_id ≢ ""
agent_given e = absurd (ground (arith, eq_iff bot.agent_id ""))

create-resolve_api_key_example :
    resolve_api_key digest "key1" 20
      (create_agent_credential digest bot (ok "key1") "c1" 10 new_credential_store).1
    ≡ ok (principal_of bot "c1")
unfolding is_expired
create-resolve_api_key_example =
    create-resolve_api_key digest new_credential_store bot "key1" "c1" 10 20 org_given agent_given
      refl

abbrev with_first : CredentialStore
with_first = add_cred bot "#key1" "c1" 10 new_credential_store

first-IsCoherent : IsCoherent with_first
unfolding gontext.Base.Dict.get
first-IsCoherent = add-IsCoherent new_credential_store new_store-IsCoherent bot "#key1" "c1" 10 refl

abbrev with_both : CredentialStore
with_both = add_cred bot "#key2" "c2" 11 with_first

both-IsCoherent : IsCoherent with_both
unfolding gontext.Base.Dict.get add_cred gontext.Base.Dict.put
both-IsCoherent = add-IsCoherent with_first first-IsCoherent bot "#key2" "c2" 11 refl

first_revoked : (revoke acme "c1" with_both).0 ≡ ok tt
unfolding revoke gontext.Credentials.revoked_if gontext.Base.Dict.get add_cred gontext.Base.Dict.put
    gontext.Credentials.cred_of
first_revoked = refl

second_resolves :
    resolve_api_key digest "key2" 20 (revoke acme "c1" with_both).1 ≡ ok (principal_of bot "c2")
unfolding resolve_api_key gontext.Credentials.usable gontext.Base.Dict.get revoke
    gontext.Credentials.revoked_if add_cred gontext.Base.Dict.put gontext.Credentials.cred_of
    gontext.Credentials.revoke_cred is_expired gontext.Credentials.meta_of
second_resolves = refl

revoke-resolve_api_key_example : (principal_of bot "c2").credential_id ≢ "c1"
revoke-resolve_api_key_example =
    revoke-resolve_api_key digest with_both acme "c1" "key2" 20 (principal_of bot "c2")
      both-IsCoherent first_revoked second_resolves

abbrev allow_manager : AuthzCheck → Result AuthzDecision
allow_manager q = ok (record {
  allowed = q.action == "manager";
  reason_code = "";
  consistency = q.consistency;
  model_revision = "m";
  checked_at = 5;
})

abbrev acme_org : Organization
acme_org = record { id = acme; name = "Acme"; attributes = []; created_at = 5 }

set_up :
    require_org_bootstrap "" ""
      (ok acme_org)
      (some allow_manager)
      ann
      acme
      (scope_manage_policy ∷ [])
    ≡ ok tt
unfolding require_org_bootstrap valid_platform_bootstrap trim_space is_platform_admin
    gontext.Gate.with_organization gontext.Gate.require_manage gontext.Gate.require_scope has_scope
    scopes_of gontext.Gate.satisfies gontext.Gate.require_authz_manage gontext.Gate.any_action
    gontext.Gate.org_check
set_up = refl

require_org_bootstrap_lem_example :
    ((valid_platform_bootstrap "" "" || is_platform_admin ann) ≡ true)
    ⊎ ((org : Organization) × (ok acme_org ≡ ok org)
        × (has_scope (scopes_of ann (scope_manage_policy ∷ [])) scope_manage_policy ≡ true)
        × (may (some allow_manager) ann acme ≡ true))
require_org_bootstrap_lem_example =
    require_org_bootstrap_lem "" "" (ok acme_org) (some allow_manager) ann acme
      (scope_manage_policy ∷ []) set_up
