-- ===== src/Tests/Removal.antt =====
-- The deletion saga, with an index that fails and a resource under a legal hold.
use gontext.Base.{ℕ, zero, suc, ◌+◌, ◌-◌, ◌*◌, ◌/◌, ◌%◌, ◌^◌, ◌≤◌, ◌<◌, min}
use gontext.Base.{
  String, string_eq, ◌==◌, eq_iff, concat, has_prefix, trim_prefix, contains_text, contains, lower,
  trim_space, split_comma, equal_fold, cut,
}
use gontext.Base.{◌≡◌, refl, sym, ap, subst, ◌∙◌, ◌≢◌, ◌↔◌, ◌⊎◌, inl, inr}
use gontext.Base.{Bool, true, false, not, ◌&&◌, ◌||◌, Option, none, some, List, [], ◌∷◌, ◌++◌, map}
use gontext.Base.{
  arith, ltb, leb, nat_eq, if◌then◌else◌, Bool-cases, Option-cases, is_some, length, drop, take,
  select, any, All, length-append, length-drop, length-take-le,
}
use gontext.Ports.{AuthzCheck, AuthzDecision, LedgerRecord}
use gontext.Platform.{Result, ok, err, Error}
use gontext.Ledger.{Store, new_store}
use gontext.Ledger.Records.{upsert_record, append_revision, get_record}
use gontext.Index.{Index}
use gontext.Deletion.{
  Request, Fresh, Clock, CompletionManifest, DerivativeRef, is_tombstoned, authorize,
}
use gontext.Deletion.Saga.{run, held}
use gontext.Deletion.Outcome.{HasState, run-revokes}
use gontext.Deletion.Endings.{IsHonest, run-IsHonest}
use gontext.Tests.Data.{acme, ann, plan}

abbrev allow_all : AuthzCheck → Result AuthzDecision
allow_all q = ok (record {
  allowed = true;
  reason_code = "AUTHZ_ALLOW";
  consistency = q.consistency;
  model_revision = "m";
  checked_at = 5;
})

abbrev no_index : Option (String → List String → Index → Result Index)
no_index = some (λ org ids idx. err (Error.plain "index down"))

abbrev deaf_store : Option (String × String → Bool)
deaf_store = some (λ ref. true)

abbrev on_hold : Option (String → String → Result Bool)
on_hold = some (λ org id. ok true)

abbrev request : Request
request = record { org_id = acme; resource_id = "plan"; principal = ann; reason = "left" }

abbrev fresh : Fresh
fresh = record {
  deletion_id = "del1";
  revision_id = "r2";
  event_id = "ev2";
  audit_id = "a1";
  final_audit_id = "a2";
  tuple_id = λ edge. edge;
}

abbrev clock : Clock
clock = record { start = 10; edges = 11; store = 12; end = 13 }

abbrev with_plan : Store
with_plan = (upsert_record plan 5 new_store).1

abbrev stored_plan : LedgerRecord
stored_plan = record plan { created_at = 5; updated_at = 5 }

org_given : acme ≢ ""
org_given e = absurd (ground (arith, eq_iff acme ""))

resource_given : request.resource_id ≢ ""
resource_given e = absurd (ground (arith, eq_iff request.resource_id ""))

permitted : authorize allow_all request ≡ ok tt
unfolding authorize
permitted = refl

plan_stored : get_record acme "plan" with_plan ≡ ok stored_plan
unfolding get_record gontext.Base.Dict.get2 gontext.Base.Dict.get upsert_record
    gontext.Base.Dict.put2 gontext.Base.Dict.put
plan_stored = refl

run-revokes_example :
    HasState acme "plan"
      (λ state. is_tombstoned state ≡ true)
      (run allow_all no_index deaf_store on_hold true request fresh clock with_plan []).1
run-revokes_example =
    run-revokes allow_all no_index deaf_store on_hold true request fresh clock with_plan []
      stored_plan org_given resource_given permitted plan_stored refl refl

-- a revision whose evidence the evidence store deletes
abbrev with_evidence : Store
with_evidence =
    (append_revision
      (record {
        revision_id = "r1";
        resource_id = "plan";
        org_id = acme;
        content_hash = "h";
        evidence_ref = "acme/quarantine/h@v1";
        sequence = 0;
        state = "ACCEPTED";
        attributes = [];
        observed_at = 4;
        created_at = 5;
      })
      5 with_plan).1

abbrev willing_store : Option (String × String → Bool)
willing_store = some (λ ref. false)

abbrev unheld : Option (String → String → Result Bool)
unheld = some (λ org id. ok false)

abbrev unindexed_store : Option (String → List String → Index → Result Index)
unindexed_store = none

abbrev completed_manifest : CompletionManifest
completed_manifest = record {
  deletion_id = "del1";
  organization_id = acme;
  resource_id = "plan";
  revision_id = "r2";
  status = "completed";
  blocked_reason = "";
  derivatives =
      record { kind = "record"; ref = "plan" }
      ∷ record { kind = "revision"; ref = "r2" }
      ∷ record { kind = "evidence"; ref = "acme/quarantine/h@v1" }
      ∷ record { kind = "revision"; ref = "r1" }
      ∷ record { kind = "revision"; ref = "r2" }
      ∷ record { kind = "index"; ref = "plan" }
      ∷ record { kind = "cache"; ref = "plan" }
      ∷ [];
  index_removed = false;
  evidence_erased = true;
  completed_at = 13;
}

completed :
    (run allow_all unindexed_store willing_store unheld true request fresh clock with_evidence []).0
    ≡ ok completed_manifest
unfolding run gontext.Deletion.Saga.authorized authorize gontext.Deletion.Saga.delete_record
    get_record gontext.Base.Dict.get2 gontext.Base.Dict.get upsert_record gontext.Base.Dict.put2
    gontext.Base.Dict.put gontext.Deletion.Saga.revoked gontext.Deletion.revoke_visibility
    gontext.Ledger.and_then append_revision gontext.Deletion.buried gontext.Deletion.drop_edges
    gontext.Ledger.Edges.list_edges gontext.Base.Sort.sort gontext.Deletion.Saga.clean_up
    gontext.Deletion.Saga.unindexed gontext.Deletion.Saga.complete held
    gontext.Deletion.Saga.manifest gontext.Deletion.Saga.ending gontext.Deletion.enumerate
    gontext.Deletion.revision_refs gontext.Ledger.Records.list_revisions gontext.Audit.append
    gontext.Ledger.Feed.append_audit gontext.Deletion.purge
completed = refl

run-IsHonest_example :
    IsHonest willing_store
      (held allow_all unindexed_store willing_store unheld true request)
      completed_manifest
run-IsHonest_example =
    run-IsHonest allow_all unindexed_store willing_store unheld true request fresh clock
      completed_manifest with_evidence [] completed
