-- ===== src/Credentials/Coherent.antt =====
-- The maps by key and by identifier hold the same credentials.
use gontext.Base.{ℕ}
use gontext.Base.{String, string_eq, ◌==◌, eq_iff}
use gontext.Base.{◌≡◌, refl, sym, ap, subst, ◌∙◌, ◌≢◌, ◌⊎◌, inl, inr}
use gontext.Base.{true, false, Option, none, some}
use gontext.Base.{arith, Bool-cases, Option-cases}
use gontext.Base.Dict.{Dict, get, put, get-put, get-put_self}
use gontext.Ports.{CreateAgentCredentialRequest}
use gontext.Credentials.{
  AgentCred, CredentialStore, new_credential_store, cred_of, add_cred, revoke_cred, principal_of,
  meta_of,
}

-- A credential found under a digest is its own, and is the one found under its identifier, which its
-- agent carries.
unfoldable pub AtKey : Dict AgentCred → String → Option AgentCred → Type 0
AtKey by_id hash none = Unit
AtKey by_id hash (some cred) =
    (get by_id cred.meta.credential_id ≡ some cred)
    × (cred.hash ≡ hash)
    × (cred.agent.credential_id ≡ cred.meta.credential_id)

-- A credential found under an identifier has that identifier.
unfoldable pub AtId : String → Option AgentCred → Type 0
AtId id none = Unit
AtId id (some cred) =
    (cred.meta.credential_id ≡ id) × (cred.agent.credential_id ≡ cred.meta.credential_id)

pub record IsCoherent (c : CredentialStore) : Type 0 where
  pub keys : (hash : String) → AtKey c.by_id hash (get c.by_key hash)
  pub ids : (id : String) → AtId id (get c.by_id id)

some_injective {ℓ} : {A : Type ℓ} {a b : A} → some a ≡ some b → a ≡ b
some_injective {A} {a} {b} e = ap (λ o. elim o [ none ↦ a | some x ↦ x ]) e

pub new_store-IsCoherent : IsCoherent new_credential_store
unfolding get AtKey AtId
new_store-IsCoherent = record { keys = λ hash. tt; ids = λ id. tt }

-- The identifiers after one is put.
AtId-put :
    (m : Dict AgentCred) (id other : String) (cred : AgentCred)
    → AtId id (some cred)
    → AtId other (get m other)
    → AtId other (get (put m id cred) other)
AtId-put m id other cred new old = elim (Bool-cases (id == other)) [
  | inl y ↦
      rw (get-put m id other cred, y) (subst (λ i. AtId i (some cred)) ((eq_iff id other).0 y) new)
  | inr n ↦ rw (get-put m id other cred, n) old
]

-- A digest's credential stays what it was when another identifier is put.
AtKey-put :
    (m : Dict AgentCred) (hash id : String) (cred : AgentCred) (o : Option AgentCred)
    → (o ≡ none) ⊎ ((x : AgentCred) × (o ≡ some x) × (x.meta.credential_id ≢ id))
    → AtKey m hash o
    → AtKey (put m id cred) hash o
unfolding AtKey
AtKey-put m hash id cred none h a = tt
AtKey-put m hash id cred (some x) (inl e) a = absurd (ground arith)
AtKey-put m hash id cred (some x) (inr (y, e, apart)) (found, own, named) =
    let same : x ≡ y = some_injective e in
    (
      ground (
        arith,
        found,
        get-put m id x.meta.credential_id cred,
        eq_iff id x.meta.credential_id,
        apart,
        ap (λ z. z.meta.credential_id) same,
      ),
      own,
      named,
    )

module _ (c : CredentialStore) (k : IsCoherent c) where
  -- What a digest's credential is, where there is one.
  pub key_lem :
      (hash : String) (x : AgentCred)
      → get c.by_key hash ≡ some x
      → (get c.by_id x.meta.credential_id ≡ some x)
        × (x.hash ≡ hash)
        × (x.agent.credential_id ≡ x.meta.credential_id)
  unfolding AtKey
  key_lem hash x e = subst (λ o. AtKey c.by_id hash o) e (k.keys hash)

  id_lem :
      (id : String) (x : AgentCred)
      → get c.by_id id ≡ some x
      → (x.meta.credential_id ≡ id) × (x.agent.credential_id ≡ x.meta.credential_id)
  unfolding AtId
  id_lem id x e = subst (λ o. AtId id o) e (k.ids id)

  new-AtKey :
      (req : CreateAgentCredentialRequest) (hash id : String) (now : ℕ)
      → AtKey (put c.by_id id (cred_of req hash id now)) hash (some (cred_of req hash id now))
  unfolding AtKey cred_of principal_of meta_of
  new-AtKey req hash id now = (get-put_self c.by_id id _, refl, refl)

  new-AtId :
      (req : CreateAgentCredentialRequest) (hash id : String) (now : ℕ)
      → AtId id (some (cred_of req hash id now))
  unfolding AtId cred_of principal_of meta_of
  new-AtId req hash id now = (refl, refl)

  apart :
      (id : String)
      → get c.by_id id ≡ none
      → (h : String)
      → (get c.by_key h ≡ none)
        ⊎ ((x : AgentCred) × (get c.by_key h ≡ some x) × (x.meta.credential_id ≢ id))
  apart id unused h = elim (Option-cases (get c.by_key h)) [
    | inl e ↦ inl e
    | inr (x, e) ↦ inr (
      x,
      e,
      λ same. absurd (ground (arith, unused, ap (λ i. get c.by_id i) same, (key_lem h x e).0)),
    )
  ]

  -- A new credential of an identifier that is not in use keeps the maps coherent.
  pub add-IsCoherent :
      (req : CreateAgentCredentialRequest) (hash id : String) (now : ℕ)
      → get c.by_id id ≡ none
      → IsCoherent (add_cred req hash id now c)
  unfolding add_cred
  add-IsCoherent req hash id now unused =
      let new = cred_of req hash id now in
      record {
        keys = λ h. elim (Bool-cases (hash == h)) [
          | inl y ↦
              rw (get-put c.by_key hash h new, y)
                (subst (λ i. AtKey (put c.by_id id new) i (some new)) ((eq_iff hash h).0 y)
                  (new-AtKey req hash id now))
          | inr n ↦
              rw (get-put c.by_key hash h new, n)
                (AtKey-put c.by_id h id new (get c.by_key h) (apart id unused h) (k.keys h))
        ];
        ids = λ i. AtId-put c.by_id id i new (new-AtId req hash id now) (k.ids i);
      }

  dead-AtKey :
      (cred : AgentCred) (id : String)
      → get c.by_id id ≡ some cred
      → (h : String) → cred.hash ≡ h
      → AtKey
          (put c.by_id id (record cred { revoked = true }))
          h
          (some (record cred { revoked = true }))
  unfolding AtKey
  dead-AtKey cred id found h same =
      let (own, named) = id_lem id cred found in
      (
        ap (λ i. get (put c.by_id id (record cred { revoked = true })) i) own
            ∙ get-put_self c.by_id id _,
        same,
        named,
      )

  dead-AtId :
      (cred : AgentCred) (id : String)
      → get c.by_id id ≡ some cred
      → AtId id (some (record cred { revoked = true }))
  unfolding AtId
  dead-AtId cred id found = id_lem id cred found

  apart_from :
      (cred : AgentCred) (id : String)
      → get c.by_id id ≡ some cred
      → (h : String) → (cred.hash == h) ≡ false
      → (get c.by_key h ≡ none)
        ⊎ ((x : AgentCred) × (get c.by_key h ≡ some x) × (x.meta.credential_id ≢ id))
  apart_from cred id found h n = elim (Option-cases (get c.by_key h)) [
    | inl e ↦ inl e
    | inr (x, e) ↦ inr (
      x,
      e,
      λ same.
          let (stored, own, named) = key_lem h x e in
          let is : x ≡ cred = some_injective (sym stored ∙ ap (λ i. get c.by_id i) same ∙ found) in
          absurd (ground (arith, eq_iff cred.hash h, ap (λ z. z.hash) is, own)),
    )
  ]

  -- A revocation keeps the maps coherent.
  pub revoke_cred-IsCoherent :
      (cred : AgentCred) (id : String)
      → get c.by_id id ≡ some cred
      → IsCoherent (revoke_cred cred id c)
  unfolding revoke_cred
  revoke_cred-IsCoherent cred id found =
      let dead = record cred { revoked = true } in
      record {
        keys = λ h. elim (Bool-cases (cred.hash == h)) [
          | inl y ↦
              rw (get-put c.by_key cred.hash h dead, y)
                (dead-AtKey cred id found h ((eq_iff cred.hash h).0 y))
          | inr n ↦
              rw (get-put c.by_key cred.hash h dead, n)
                (AtKey-put c.by_id h id dead (get c.by_key h) (apart_from cred id found h n)
                  (k.keys h))
        ];
        ids = λ i. AtId-put c.by_id id i dead (dead-AtId cred id found) (k.ids i);
      }
