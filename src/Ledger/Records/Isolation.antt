-- ===== src/Ledger/Records/Isolation.antt =====
-- Tenants: a write for one organization is seen by that organization only.
use gontext.Base.{ℕ}
use gontext.Base.{String, string_eq, ◌==◌, eq_iff}
use gontext.Base.{◌≡◌, refl, ap, ◌∙◌, ◌≢◌, inl, inr}
use gontext.Base.{Bool, true, false, ◌&&◌, ◌||◌, List, [], ◌∷◌}
use gontext.Base.{arith, if◌then◌else◌, Option-cases, is_some, All}
use gontext.Base.Dict.{Dict, inner, get2, put2, inner-put2_ne, get2-put2, get2-put2_self}
use gontext.Ports.{LedgerRecord, Revision, SourceRegistration, DelegationGrant}
use gontext.Platform.{Result, ok}
use gontext.Ledger.{Store, AccessRequest, found, found-ok, or_now}
use gontext.Ledger.Records.{
  upsert_record, get_record, insert_placeholder, promote_placeholder, append_revision,
  upsert_source, create_delegation, revoke_delegation, get_delegation, put_access_request,
  set_legal_hold,
}

-- The writes of the keyed maps, each with the clock's reading.
pub data Write : Type 0 where
  upsert : LedgerRecord → ℕ → Write
  insert : LedgerRecord → ℕ → Write
  promote : LedgerRecord → ℕ → Write
  append : Revision → ℕ → Write
  register : SourceRegistration → ℕ → Write
  delegate : DelegationGrant → ℕ → Write
  revoke : String → String → Write
  request : String → String → String → String → String → String → ℕ → Write
  hold : String → String → Bool → Write

-- The organization that a write names.
unfoldable pub tenant : Write → String
tenant (upsert rec now) = rec.org_id
tenant (insert rec now) = rec.org_id
tenant (promote rec now) = rec.org_id
tenant (append rev now) = rev.org_id
tenant (register src now) = src.org_id
tenant (delegate grant now) = grant.org_id
tenant (revoke org_id grant_id) = org_id
tenant (request org_id request_id resource_id purpose justification audit_id now) = org_id
tenant (hold org_id resource_id is_held) = org_id

unfoldable pub write : Write → Store → Store
write (upsert rec now) s = (upsert_record rec now s).1
write (insert rec now) s = (insert_placeholder rec now s).1
write (promote rec now) s = (promote_placeholder rec now s).1
write (append rev now) s = (append_revision rev now s).1
write (register src now) s = (upsert_source src now s).1
write (delegate grant now) s = (create_delegation grant now s).1
write (revoke org_id grant_id) s = (revoke_delegation org_id grant_id s).1
write (request org_id request_id resource_id purpose justification audit_id now) s =
    (put_access_request org_id request_id resource_id purpose justification audit_id now s).1
write (hold org_id resource_id is_held) s = set_legal_hold org_id resource_id is_held s

unfoldable pub writes : Store → List Write → Store
writes s [] = s
writes s (w ∷ ws) = writes (write w s) ws

-- All that the keyed maps hold of one organization.
pub record View : Type 0 where
  pub records : Dict LedgerRecord
  pub revisions : Dict Revision
  pub sources : Dict SourceRegistration
  pub delegations : Dict DelegationGrant
  pub access_reqs : Dict AccessRequest
  pub holds : Dict Bool

unfoldable pub view : String → Store → View
view org s = record {
  records = inner s.records org;
  revisions = inner s.revisions org;
  sources = inner s.sources org;
  delegations = inner s.delegations org;
  access_reqs = inner s.access_reqs org;
  holds = inner s.holds org;
}

records-view :
    (s : Store) (org_id id org : String) (v : LedgerRecord)
    → org_id ≢ org
    → view org (record s { records = put2 s.records org_id id v }) ≡ view org s
unfolding view
records-view s org_id id org v other =
    ap (λ m. record (view org s) { records = m }) (inner-put2_ne s.records org_id id org v other)

-- A step that fails, or changes nothing, or is guarded, leaves what its two ends leave.
guarded-view {ℓ} :
    {A : Type ℓ} (b : Bool) (x y : Result A × Store) (s : Store) (org : String)
    → view org x.1 ≡ view org s
    → view org y.1 ≡ view org s
    → view org (if b then x else y).1 ≡ view org s
guarded-view true x y s org p q = p
guarded-view false x y s org p q = q

revoke-view :
    (org_id grant_id : String) (s : Store) (org : String)
    → org_id ≢ org
    → view org (revoke_delegation org_id grant_id s).1 ≡ view org s
unfolding revoke_delegation view
revoke-view org_id grant_id s org other = elim (Option-cases (get2 s.delegations org_id grant_id)) [
  | inl e ↦ rw (e, revoke_delegation) refl
  | inr (g, e) ↦
      rw (e, revoke_delegation)
        (ap (λ m. record (view org s) { delegations = m })
          (inner-put2_ne s.delegations org_id grant_id org _ other))
]

write-view :
    (w : Write) (s : Store) (org : String) → tenant w ≢ org → view org (write w s) ≡ view org s
unfolding write tenant upsert_record insert_placeholder promote_placeholder append_revision
    upsert_source create_delegation put_access_request set_legal_hold view
write-view (upsert rec now) s org other =
    guarded-view (rec.org_id == "" || rec.resource_id == "") _ _ s org refl
      (records-view s rec.org_id rec.resource_id org _ other)
write-view (insert rec now) s org other =
    guarded-view (rec.org_id == "" || rec.resource_id == "") _ _ s org refl (
      guarded-view (is_some (get2 s.records rec.org_id rec.resource_id)) _ _ s org refl
        (records-view s rec.org_id rec.resource_id org _ other))
write-view (promote rec now) s org other = records-view s rec.org_id rec.resource_id org _ other
write-view (append rev now) s org other =
    ap (λ m. record (view org s) { revisions = m })
      (inner-put2_ne s.revisions rev.org_id rev.revision_id org _ other)
write-view (register src now) s org other =
    ap (λ m. record (view org s) { sources = m })
      (inner-put2_ne s.sources src.org_id src.source_id org _ other)
write-view (delegate grant now) s org other =
    ap (λ m. record (view org s) { delegations = m })
      (inner-put2_ne s.delegations grant.org_id grant.id org _ other)
write-view (revoke org_id grant_id) s org other = revoke-view org_id grant_id s org other
write-view (request org_id request_id resource_id purpose justification audit_id now) s org other =
    guarded-view (org_id == "" || request_id == "") _ _ s org refl (
      ap (λ m. record (view org s) { access_reqs = m })
        (inner-put2_ne s.access_reqs org_id request_id org _ other))
write-view (hold org_id resource_id is_held) s org other =
    ap (λ m. record (view org s) { holds = m })
      (inner-put2_ne s.holds org_id resource_id org _ other)

-- Whatever is written for other organizations, an organization's records, revisions, sources,
-- delegations, access requests and legal holds stay as they are.
pub writes-isolated :
    (s : Store) (ws : List Write) (org : String)
    → All (λ w. tenant w ≢ org) ws
    → view org (writes s ws) ≡ view org s
unfolding writes
writes-isolated s [] org h = refl
writes-isolated s (w ∷ ws) org (other, h) =
    writes-isolated (write w s) ws org h ∙ write-view w s org other

-- A record that is stored is what GetRecord then returns for its organization and its identifier,
-- with the times filled in; for every other pair GetRecord returns what it returned before.
pub upsert-get_record :
    (rec : LedgerRecord) (now : ℕ) (s : Store) (org_id resource_id : String)
    → rec.org_id ≢ ""
    → rec.resource_id ≢ ""
    → get_record org_id resource_id (upsert_record rec now s).1 ≡ (
        if rec.org_id == org_id && rec.resource_id == resource_id
        then ok (record rec { created_at = or_now rec.created_at now; updated_at = now })
        else get_record org_id resource_id s)
unfolding get_record upsert_record found
upsert-get_record rec now s org_id resource_id a b = ground (
  arith,
  get2-put2 s.records rec.org_id rec.resource_id org_id resource_id
      (record rec { created_at = or_now rec.created_at now; updated_at = now }),
  eq_iff rec.org_id "",
  eq_iff rec.resource_id "",
)

-- A delegation that RevokeDelegation has revoked is returned as revoked from then on, with its
-- other fields as they were; RevokeDelegation fails only where there is none.
pub revoke-get_delegation :
    (org_id grant_id : String) (s : Store) (g : DelegationGrant)
    → get_delegation org_id grant_id s ≡ ok g
    → ((revoke_delegation org_id grant_id s).0 ≡ ok tt)
      × (get_delegation org_id grant_id (revoke_delegation org_id grant_id s).1
          ≡ ok (record g { revoked = true }))
unfolding get_delegation revoke_delegation found
revoke-get_delegation org_id grant_id s g h =
    let e = found-ok (get2 s.delegations org_id grant_id) "delegation not found" g h in
    rw (e, revoke_delegation)
      (
        refl,
        ap (λ o. found o "delegation not found")
            (get2-put2_self s.delegations org_id grant_id (record g { revoked = true })),
      )
