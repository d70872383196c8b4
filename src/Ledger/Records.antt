-- ===== src/Ledger/Records.antt =====
-- Organizations, records, revisions, sources, delegations, access requests and legal holds:
-- the keyed maps of internal/adapters/memory/ledger.go and credentials.go.
pub mod Isolation
pub mod Placeholders
use gontext.Base.{ℕ}
use gontext.Base.{String, string_eq, ◌==◌}
use gontext.Base.{Bool, true, false, ◌||◌, Option, none, some, List, [], ◌∷◌}
use gontext.Base.{if◌then◌else◌, is_some, take}
use gontext.Base.{number_eq}
use gontext.Base.Dict.{Dict, get, put, remove, inner, get2, put2}
use gontext.Ports.{
  LedgerRecord, Revision, SourceRegistration, DelegationGrant, lifecycle_accepted,
  lifecycle_placeholder, lifecycle_ensured,
}
use gontext.Platform.{Result, ok, err, err_validation, err_not_found, err_conflict}
use gontext.Ledger.{Store, Step, Organization, AccessRequest, found, or_now, or_limit}

-- CreateOrganization
unfoldable pub create_organization : Organization → ℕ → Store → Step (Unit {0})
unfolding or_now
create_organization org now s =
    if is_some (get s.orgs org.id) then (err (err_conflict "organization exists"), s) else (
      ok tt,
      record s { orgs = put s.orgs org.id (record org { created_at = or_now org.created_at now }) },
    )

-- GetOrganization
unfoldable pub get_organization : String → Store → Result Organization
unfolding found
get_organization org_id s = found (get s.orgs org_id) "organization not found"

-- UpsertRecord
unfoldable pub upsert_record : LedgerRecord → ℕ → Store → Step (Unit {0})
unfolding or_now
upsert_record rec now s =
    if rec.org_id == "" || rec.resource_id == ""
    then (err (err_validation "org and resource required"), s)
    else (
      ok tt,
      record s {
        records =
            put2 s.records rec.org_id rec.resource_id
              (record rec { created_at = or_now rec.created_at now; updated_at = now });
      },
    )

-- GetRecord
unfoldable pub get_record : String → String → Store → Result LedgerRecord
unfolding found
get_record org_id resource_id s = found (get2 s.records org_id resource_id) "record not found"

-- InsertPlaceholder
unfoldable pub insert_placeholder : LedgerRecord → ℕ → Store → Step Bool
unfolding or_now
insert_placeholder rec now s =
    if rec.org_id == "" || rec.resource_id == ""
    then (err (err_validation "org and resource required"), s)
    else if is_some (get2 s.records rec.org_id rec.resource_id)
    then (ok false, s)
    else (
      ok true,
      record s {
        records = put2 s.records rec.org_id rec.resource_id (record rec {
          state = lifecycle_placeholder;
          created_at = or_now rec.created_at now;
          updated_at = now;
          attributes = put rec.attributes "placeholder" "true";
        });
      },
    )

unfoldable pub settled : String → String
settled state =
    if state == "" || state == lifecycle_placeholder || state == lifecycle_ensured
    then lifecycle_accepted
    else state

unfoldable pub promoted : Option LedgerRecord → LedgerRecord → ℕ → LedgerRecord
unfolding or_now
promoted existing rec now = record rec {
  created_at = elim existing [ none ↦ or_now rec.created_at now | some old ↦ old.created_at ];
  state = settled rec.state;
  updated_at = now;
  attributes = remove (remove rec.attributes "placeholder") "ensured";
}

-- PromotePlaceholder: its two branches for a record that exists do the same.
unfoldable pub promote_placeholder : LedgerRecord → ℕ → Store → Step (Unit {0})
promote_placeholder rec now s = (
  ok tt,
  record s {
    records =
        put2 s.records rec.org_id rec.resource_id
          (promoted (get2 s.records rec.org_id rec.resource_id) rec now);
  },
)

-- AppendRevision
unfoldable pub append_revision : Revision → ℕ → Store → Step (Unit {0})
unfolding or_now
append_revision rev now s = (
  ok tt,
  record s {
    revisions =
        put2 s.revisions rev.org_id rev.revision_id
          (record rev { created_at = or_now rev.created_at now });
  },
)

-- GetRevision
unfoldable pub get_revision : String → String → Store → Result Revision
unfolding found
get_revision org_id revision_id s = found (get2 s.revisions org_id revision_id) "revision not found"

of_resource : String → Dict Revision → List Revision
of_resource resource_id [] = []
of_resource resource_id ((id, r) ∷ m) =
    if r.resource_id == resource_id
    then r ∷ of_resource resource_id m
    else of_resource resource_id m

-- ListRevisions
unfoldable pub list_revisions : String → String → ℕ → Store → List Revision
unfolding of_resource or_limit
list_revisions org_id resource_id limit s =
    take (or_limit limit 50) (of_resource resource_id (inner s.revisions org_id))

-- UpsertSource
unfoldable pub upsert_source : SourceRegistration → ℕ → Store → Step (Unit {0})
unfolding or_now
upsert_source src now s = (
  ok tt,
  record s {
    sources = put2 s.sources src.org_id src.source_id (record src {
      created_at = or_now src.created_at now;
      updated_at = now;
      mapping_spec_inline = none;
    });
  },
)

-- GetSource
unfoldable pub get_source : String → String → Store → Result SourceRegistration
unfolding found
get_source org_id source_id s = found (get2 s.sources org_id source_id) "source not found"

-- CreateDelegation
unfoldable pub create_delegation : DelegationGrant → ℕ → Store → Step (Unit {0})
unfolding or_now
create_delegation grant now s = (
  ok tt,
  record s {
    delegations =
        put2 s.delegations grant.org_id grant.id
          (record grant { created_at = or_now grant.created_at now });
  },
)

-- GetDelegation
unfoldable pub get_delegation : String → String → Store → Result DelegationGrant
unfolding found
get_delegation org_id grant_id s = found (get2 s.delegations org_id grant_id) "delegation not found"

-- RevokeDelegation
unfoldable pub revoke_delegation : String → String → Store → Step (Unit {0})
revoke_delegation org_id grant_id s = elim (get2 s.delegations org_id grant_id) [
  | none ↦ (err (err_not_found "delegation not found"), s)
  | some g ↦ (
    ok tt,
    record s { delegations = put2 s.delegations org_id grant_id (record g { revoked = true }) },
  )
]

-- PutAccessRequest
unfoldable pub put_access_request :
    String → String → String → String → String → String → ℕ → Store → Step (Unit {0})
put_access_request org_id request_id resource_id purpose justification audit_id now s =
    if org_id == "" || request_id == ""
    then (err (err_validation "org and request_id required"), s)
    else (
      ok tt,
      record s {
        access_reqs = put2 s.access_reqs org_id request_id (record {
          request_id = request_id;
          org_id = org_id;
          resource_id = resource_id;
          purpose = purpose;
          justification = justification;
          status = "pending";
          created_at = now;
          audit_id = audit_id;
        });
      },
    )

-- GetAccessRequest
unfoldable pub get_access_request : String → String → Store → Result AccessRequest
unfolding found
get_access_request org_id request_id s =
    found (get2 s.access_reqs org_id request_id) "access request not found"

-- SetLegalHold
unfoldable pub set_legal_hold : String → String → Bool → Store → Store
set_legal_hold org_id resource_id is_held s = record s {
  holds = put2 s.holds org_id resource_id is_held;
}

or_false : Option Bool → Bool
or_false none = false
or_false (some b) = b

-- HasLegalHold
unfoldable pub has_legal_hold : String → String → Store → Bool
unfolding or_false
has_legal_hold org_id resource_id s = or_false (get2 s.holds org_id resource_id)
