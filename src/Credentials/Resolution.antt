-- ===== src/Credentials/Resolution.antt =====
-- Which keys open the door.
use gontext.Base.{ℕ}
use gontext.Base.{String, string_eq, ◌==◌, eq_iff}
use gontext.Base.{◌≡◌, refl, sym, ap, subst, ◌∙◌, ◌≢◌, inl, inr}
use gontext.Base.{true, false, ◌||◌, Option, none, some}
use gontext.Base.{arith, Bool-cases}
use gontext.Base.Dict.{get, get-put_self}
use gontext.Ports.{AgentPrincipal, CreateAgentCredentialRequest}
use gontext.Platform.{ok, ok_injective}
use gontext.Credentials.{
  AgentCred, CredentialStore, is_expired, usable, principal_of, cred_of, meta_of, add_cred,
  revoke_cred, revoked_if, revoke, resolve_api_key, issued, create_agent_credential,
}
use gontext.Credentials.Coherent.{IsCoherent, key_lem, revoke_cred-IsCoherent}

-- A key that resolves is of a stored credential that is not revoked.
usable_lem :
    (o : Option AgentCred) (now : ℕ) (agent : AgentPrincipal)
    → usable o now ≡ ok agent
    → (cred : AgentCred) × (o ≡ some cred) × (cred.revoked ≡ false) × (cred.agent ≡ agent)
unfolding usable
usable_lem none now agent h = absurd (ground arith)
usable_lem (some cred) now agent h = elim (Bool-cases cred.revoked) [
  | inl y ↦ absurd (ground arith)
  | inr n ↦ elim (Bool-cases (is_expired cred.meta.expires_at now)) [
    | inl y ↦ absurd (ground arith)
    | inr m ↦ (cred, refl, n, ok_injective (rw (n, m) at h))
  ]
]

-- A revocation that succeeds revokes the stored credential.
revoked_if_lem :
    (o : Option AgentCred) (org id : String) (c : CredentialStore)
    → (revoked_if o org id c).0 ≡ ok tt
    → (cred : AgentCred) × (o ≡ some cred) × ((revoked_if o org id c).1 ≡ revoke_cred cred id c)
unfolding revoked_if
revoked_if_lem none org id c h = absurd (ground arith)
revoked_if_lem (some cred) org id c h = elim (Bool-cases (cred.org_id == org)) [
  | inl y ↦ (cred, refl, rw (y, revoked_if) refl)
  | inr n ↦ absurd (ground arith)
]

revoke_lem :
    (org id : String) (c : CredentialStore)
    → (revoke org id c).0 ≡ ok tt
    → (cred : AgentCred) × (get c.by_id id ≡ some cred)
      × ((revoke org id c).1 ≡ revoke_cred cred id c)
unfolding revoke
revoke_lem org id c h = elim (Bool-cases (org == "" || id == "")) [
  | inl y ↦ absurd (ground arith)
  | inr n ↦
      let same : revoke org id c ≡ revoked_if (get c.by_id id) org id c = rw (n, revoke) refl in
      let (cred, found, after) =
        revoked_if_lem (get c.by_id id) org id c (sym (ap (λ r. r.0) same) ∙ h) in
      (cred, found, ap (λ r. r.1) same ∙ after)
]

some_injective {ℓ} : {A : Type ℓ} {a b : A} → some a ≡ some b → a ≡ b
some_injective {A} {a} {b} e = ap (λ o. elim o [ none ↦ a | some x ↦ x ]) e

stored_dead :
    (c : CredentialStore) (cred : AgentCred) (id : String)
    → get (revoke_cred cred id c).by_id id ≡ some (record cred { revoked = true })
unfolding revoke_cred
stored_dead c cred id = get-put_self c.by_id id (record cred { revoked = true })

usable_new :
    (req : CreateAgentCredentialRequest) (hash id : String) (now later : ℕ)
    → is_expired req.expires_at later ≡ false
    → usable (some (cred_of req hash id now)) later ≡ ok (principal_of req id)
unfolding usable cred_of meta_of
usable_new req hash id now later alive = rw (alive, usable) refl

module _ (digest : String → String) where
  -- Once the revocation of a credential has succeeded, no key at any time resolves to an agent of
  -- that credential.
  pub revoke-resolve_api_key :
      (c : CredentialStore) (org id key : String) (now : ℕ) (agent : AgentPrincipal)
      → IsCoherent c
      → (revoke org id c).0 ≡ ok tt
      → resolve_api_key digest key now (revoke org id c).1 ≡ ok agent
      → agent.credential_id ≢ id
  unfolding resolve_api_key
  revoke-resolve_api_key c org id key now agent k done resolved same =
      let (cred, found, after) = revoke_lem org id c done in
      let dead = record cred { revoked = true } in
      let gone = revoke_cred cred id c in
      let (x, at_key, alive, is_agent) =
        usable_lem (get gone.by_key (digest key)) now agent
          (subst (λ d. usable (get d.by_key (digest key)) now ≡ ok agent) after resolved) in
      let (at_id, own, named) =
        key_lem gone (revoke_cred-IsCoherent c k cred id found) (digest key) x at_key in
      let its_id : x.meta.credential_id ≡ id =
        sym named ∙ ap (λ z. z.credential_id) is_agent ∙ same in
      let is_dead : x ≡ dead =
        some_injective (sym at_id ∙ ap (λ i. get gone.by_id i) its_id ∙ stored_dead c cred id) in
      absurd (ground (arith, alive, ap (λ z. z.revoked) is_dead))

  -- In the store that its creation leaves, with no operation in between, a key resolves at every
  -- time at which it has not expired, and gives the agent of the credential made for it.
  pub create-resolve_api_key :
      (c : CredentialStore) (req : CreateAgentCredentialRequest) (secret id : String)
      (now later : ℕ)
      → req.org_id ≢ ""
      → req.agent_id ≢ ""
      → is_expired req.expires_at later ≡ false
      → resolve_api_key digest secret later
          (create_agent_credential digest req (ok secret) id now c).1
        ≡ ok (principal_of req id)
  unfolding resolve_api_key issued add_cred create_agent_credential usable principal_of
  create-resolve_api_key c req secret id now later a b alive =
      let hash = digest secret in
      let full : (req.org_id == "" || req.agent_id == "") ≡ false =
        ground (arith, eq_iff req.org_id "", eq_iff req.agent_id "") in
      rw (full, create_agent_credential)
        (ap (λ o. usable o later) (get-put_self c.by_key hash (cred_of req hash id now))
          ∙ usable_new req hash id now later alive)
