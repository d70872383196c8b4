-- ===== src/Tests/Events.antt =====
-- The outbox and the projection.
use gontext.Base.{◌+◌, ◌<◌}
use gontext.Base.{String, string_eq, eq_iff}
use gontext.Base.{◌≡◌, refl, ◌≢◌}
use gontext.Base.{true, false, Option, none, some, [], ◌∷◌}
use gontext.Base.{arith, All}
use gontext.Ports.{OutboxEntry, LedgerRecord, lifecycle_placeholder, lifecycle_ensured}
use gontext.Platform.{ok}
use gontext.Ledger.{Store, new_store, thirty_seconds}
use gontext.Ledger.Records.{upsert_record, get_record}
use gontext.Ledger.Once.{has_inbox}
use gontext.Ledger.Outbox.{enqueue_outbox, claim_outbox, mark_outbox_published, stamped}
use gontext.Ledger.Outbox.Leases.{claim_outbox-exclusive}
use gontext.Ledger.Outbox.Published.{ArePublished}
use gontext.Index.{get_document}
use gontext.Worker.{OutboxPayload, project_payload, index_consumer, document}
use gontext.Worker.Projection.{project-project, project-get_document}
use gontext.Worker.Relay.{relay_once, relay_once-publishes, AreAccepted, ids_of}
use gontext.Base.Dict.{Dict}
use gontext.Platform.{Error}
use gontext.Tests.Data.{acme, plan, plan_event}

abbrev waiting : Store
waiting = (enqueue_outbox plan_event 5 "x" new_store).1

first_claim : (claim_outbox 0 6 "t6" waiting).0 ≡ ok (stamped "t6" plan_event ∷ [])
unfolding claim_outbox gontext.Ledger.Outbox.claim_entries enqueue_outbox gontext.Ledger.Outbox.held
    gontext.Base.Dict.get gontext.Ledger.or_default gontext.Ledger.or_now
first_claim = refl

second_claim : (claim_outbox 0 7 "t7" (claim_outbox 0 6 "t6" waiting).1).0 ≡ ok []
unfolding claim_outbox gontext.Ledger.Outbox.claim_entries enqueue_outbox gontext.Ledger.Outbox.held
    gontext.Base.Dict.get gontext.Ledger.Outbox.kept gontext.Base.Dict.put gontext.Ledger.or_default
second_claim = refl

leased : 7 < 6 + thirty_seconds
leased = omega arith

claim_outbox-exclusive_example :
    All (λ e. All (λ (e' : OutboxEntry). e'.id ≢ e.id) []) (stamped "t6" plan_event ∷ [])
claim_outbox-exclusive_example =
    claim_outbox-exclusive 0 6 0 7 "t6" "t7" waiting (stamped "t6" plan_event ∷ []) [] leased
      first_claim second_claim

none_left : (claim_outbox 0 9 "t9" (mark_outbox_published ("o1" ∷ []) 8 waiting).1).0 ≡ ok []
unfolding claim_outbox gontext.Ledger.Outbox.claim_entries mark_outbox_published enqueue_outbox
    gontext.Ledger.Outbox.publish gontext.Ledger.or_default
none_left = refl

abbrev payload : OutboxPayload
payload = record { event_id = "ev1"; org_id = acme; resource_id = "plan"; revision_id = "r1" }

org_given : acme ≢ ""
org_given e = absurd (ground (arith, eq_iff acme ""))

event_given : payload.event_id ≢ ""
event_given e = absurd (ground (arith, eq_iff payload.event_id ""))

resource_given : payload.resource_id ≢ ""
resource_given e = absurd (ground (arith, eq_iff payload.resource_id ""))

abbrev with_plan : Store
with_plan = (upsert_record plan 5 new_store).1

projected : (project_payload true (some payload) 6 "i1" with_plan []).0 ≡ ok tt
unfolding project_payload has_inbox gontext.Base.Dict.get upsert_record
    gontext.Worker.project_record get_record gontext.Base.Dict.get2 gontext.Base.Dict.put2
    gontext.Base.Dict.put
projected = refl

project-project_example :
    project_payload true
      (some payload)
      9
      "i2"
      (project_payload true (some payload) 6 "i1" with_plan []).1
      []
    ≡ (ok tt, (project_payload true (some payload) 6 "i1" with_plan []).1, [])
project-project_example =
    project-project true payload 6 9 "i1" "i2" with_plan [] [] org_given event_given projected

abbrev deleted_plan : LedgerRecord
deleted_plan = record plan { state = "PURGED"; created_at = 5; updated_at = 5 }

abbrev with_deleted : Store
with_deleted = (upsert_record (record plan { state = "PURGED" }) 5 new_store).1

unseen : has_inbox acme index_consumer "ev1" with_deleted ≡ false
unfolding has_inbox gontext.Base.Dict.get upsert_record
unseen = refl

deleted_found : get_record acme "plan" with_deleted ≡ ok deleted_plan
unfolding get_record gontext.Base.Dict.get2 gontext.Base.Dict.get upsert_record
    gontext.Base.Dict.put2 gontext.Base.Dict.put
deleted_found = refl

not_placeholder : deleted_plan.state ≢ lifecycle_placeholder
not_placeholder e = absurd (ground (arith, eq_iff deleted_plan.state lifecycle_placeholder))

not_ensured : deleted_plan.state ≢ lifecycle_ensured
not_ensured e = absurd (ground (arith, eq_iff deleted_plan.state lifecycle_ensured))

project-get_document_example :
    get_document acme "plan" (project_payload true (some payload) 6 "i1" with_deleted []).2
    ≡ some (document payload deleted_plan)
project-get_document_example =
    project-get_document payload 6 "i1" with_deleted [] deleted_plan org_given event_given
      resource_given unseen deleted_found not_placeholder not_ensured

abbrev with_both : Store
with_both = record waiting { records = with_plan.records }

accepts : String → String → Dict String → Option Error
accepts subject body headers = none

readable : String → Option OutboxPayload
readable body = some payload

claimed_all : (claim_outbox 0 6 "t6" with_both).0 ≡ ok (stamped "t6" plan_event ∷ [])
unfolding claim_outbox gontext.Ledger.Outbox.claim_entries enqueue_outbox gontext.Ledger.Outbox.held
    gontext.Base.Dict.get gontext.Ledger.or_default gontext.Ledger.or_now
claimed_all = refl

accepted : AreAccepted accepts (stamped "t6" plan_event ∷ [])
unfolding AreAccepted accepts
accepted = (refl, tt)

relay_once-publishes_example :
    ((relay_once accepts readable 0 6 "t6" (λ i. "i1") with_both []).0 ≡ ok tt)
    × ArePublished
        (ids_of (stamped "t6" plan_event ∷ []))
        (relay_once accepts readable 0 6 "t6" (λ i. "i1") with_both []).1.outbox
relay_once-publishes_example =
    relay_once-publishes accepts readable 0 6 "t6" (λ i. "i1") with_both []
      (stamped "t6" plan_event ∷ []) claimed_all accepted
