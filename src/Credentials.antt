-- ===== src/Credentials.antt =====
-- CredentialStore of internal/adapters/memory/credentials.go: the keys of agents. The digest of a
-- secret (SHA-256 in hexadecimal) is an argument, as is the random secret, which can fail.
pub mod Coherent
pub mod Resolution
use gontext.Base.{ℕ}
use gontext.Base.{String, string_eq, ◌==◌, concat}
use gontext.Base.{Bool, true, false, not, ◌||◌, Option, none, some, List, [], ◌∷◌, ◌++◌}
use gontext.Base.{ltb, if◌then◌else◌}
use gontext.Base.Dict.{Dict, get, put, log_of}
use gontext.Ports.{AgentPrincipal, AgentCredential, CreateAgentCredentialRequest}
use gontext.Platform.{Result, ok, err, err_unauthorized, err_validation, err_not_found}

-- agentCred
pub record AgentCred : Type 0 where
  pub meta : AgentCredential
  pub hash : String
  pub org_id : String
  pub owner : String
  pub revoked : Bool
  pub agent : AgentPrincipal

pub record CredentialStore : Type 0 where
  pub by_key : Dict AgentCred
  pub by_id : Dict AgentCred
  pub by_agent : Dict (List String)

-- NewCredentialStore
abbrev pub new_credential_store : CredentialStore
new_credential_store = record { by_key = []; by_id = []; by_agent = [] }

-- a credential with an expiry before the time
unfoldable pub is_expired : Option ℕ → ℕ → Bool
is_expired none now = false
is_expired (some at) now = ltb at now

unfoldable pub usable : Option AgentCred → ℕ → Result AgentPrincipal
usable none now = err (err_unauthorized "invalid api key")
usable (some cred) now =
    if cred.revoked
    then err (err_unauthorized "invalid api key")
    else if is_expired cred.meta.expires_at now
    then err (err_unauthorized "api key expired")
    else ok cred.agent

unfoldable pub agent_index : String → String → String
agent_index org_id agent_id = concat (concat org_id "|") agent_id

unfoldable pub principal_of : CreateAgentCredentialRequest → String → AgentPrincipal
principal_of req id = record {
  principal = record {
    id = concat "agent|" req.agent_id;
    kind = "agent";
    org_id = req.org_id;
    issuer = "context-fabric/apikey";
    subject = req.agent_id;
    roles = [];
    groups = [];
    scopes = "context:search" ∷ "context:read" ∷ [];
    email = "";
    attributes = [];
  };
  agent_id = req.agent_id;
  credential_id = id;
  owner_id = req.owner_id;
}

unfoldable pub meta_of : CreateAgentCredentialRequest → String → String → ℕ → AgentCredential
meta_of req secret id now = record {
  credential_id = id;
  agent_id = req.agent_id;
  org_id = req.org_id;
  secret = secret;
  expires_at = req.expires_at;
  created_at = now;
}

-- what is stored of a new credential, without its secret
unfoldable pub cred_of : CreateAgentCredentialRequest → String → String → ℕ → AgentCred
cred_of req hash id now = record {
  meta = meta_of req "" id now;
  hash = hash;
  org_id = req.org_id;
  owner = req.owner_id;
  revoked = false;
  agent = principal_of req id;
}

-- the three maps with a credential added
unfoldable pub add_cred :
    CreateAgentCredentialRequest → String → String → ℕ → CredentialStore → CredentialStore
add_cred req hash id now c =
    let key = agent_index req.org_id req.agent_id in
    record {
      by_key = put c.by_key hash (cred_of req hash id now);
      by_id = put c.by_id id (cred_of req hash id now);
      by_agent = put c.by_agent key (log_of c.by_agent key ++ id ∷ []);
    }

unfoldable pub revoke_cred : AgentCred → String → CredentialStore → CredentialStore
revoke_cred cred id c = record c {
  by_id = put c.by_id id (record cred { revoked = true });
  by_key = put c.by_key cred.hash (record cred { revoked = true });
}

unfoldable pub revoked_if :
    Option AgentCred → String → String → CredentialStore → Result (Unit {0}) × CredentialStore
revoked_if none org_id id c = (err (err_not_found "credential not found"), c)
revoked_if (some cred) org_id id c =
    if not (cred.org_id == org_id)
    then (err (err_not_found "credential not found"), c)
    else (ok tt, revoke_cred cred id c)

-- Revoke
unfoldable pub revoke : String → String → CredentialStore → Result (Unit {0}) × CredentialStore
revoke org_id credential_id c =
    if org_id == "" || credential_id == ""
    then (err (err_validation "org and credential required"), c)
    else revoked_if (get c.by_id credential_id) org_id credential_id c

-- the loop of RotateAgentCredential, which ignores the errors
unfoldable pub revoke_all : String → List String → CredentialStore → CredentialStore
revoke_all org_id [] c = c
revoke_all org_id (id ∷ ids) c = revoke_all org_id ids (revoke org_id id c).1

module _ (digest : String → String) where
  -- ResolveAPIKey
  unfoldable pub resolve_api_key : String → ℕ → CredentialStore → Result AgentPrincipal
  resolve_api_key key now c = usable (get c.by_key (digest key)) now

  -- once the secret is drawn
  unfoldable pub issued :
      Result String
      → CreateAgentCredentialRequest
      → String
      → ℕ
      → CredentialStore
      → Result AgentCredential × CredentialStore
  issued (err e) req id now c = (err e, c)
  issued (ok secret) req id now c =
      (ok (meta_of req secret id now), add_cred req (digest secret) id now c)

  -- CreateAgentCredential
  unfoldable pub create_agent_credential :
      CreateAgentCredentialRequest
      → Result String
      → String
      → ℕ
      → CredentialStore
      → Result AgentCredential × CredentialStore
  create_agent_credential req drawn id now c =
      if req.org_id == "" || req.agent_id == ""
      then (err (err_validation "org and agent required"), c)
      else issued drawn req id now c

  -- RotateAgentCredential
  unfoldable pub rotate_agent_credential :
      CreateAgentCredentialRequest
      → Result String
      → String
      → ℕ
      → CredentialStore
      → Result AgentCredential × CredentialStore
  rotate_agent_credential req drawn id now c =
      create_agent_credential req drawn id now
        (revoke_all req.org_id (log_of c.by_agent (agent_index req.org_id req.agent_id)) c)
