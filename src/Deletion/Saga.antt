-- ===== src/Deletion/Saga.antt =====
-- Run of internal/deletion/deletion.go.
use gontext.Base.{String, string_eq, ◌==◌, concat}
use gontext.Base.{Bool, true, false, ◌||◌, Option, none, some, List, [], ◌∷◌}
use gontext.Base.{if◌then◌else◌}
use gontext.Ports.{AuthzCheck, AuthzDecision, LedgerRecord}
use gontext.Platform.{Result, ok, err, err_validation}
use gontext.Ledger.{Store}
use gontext.Ledger.Records.{get_record, upsert_record}
use gontext.Ledger.Feed.{append_change}
use gontext.Audit.{append}
use gontext.Deletion.{
  Request, DerivativeRef, CompletionManifest, Fresh, Clock, enumerate, buried, revoke_visibility,
  audit_event, authorize, purge,
}

-- How a run ends: the manifest's status and reason, the record's state, and whether evidence went.
pub record Ending : Type 0 where
  pub status : String
  pub reason : String
  pub state : String
  pub erased : Bool

-- under a legal hold, or with what the evidence loop gave
unfoldable pub ending : Bool → Bool × Bool → Ending
ending true purged = record {
  status = "blocked";
  reason = "LEGAL_HOLD";
  state = "PURGE_PENDING";
  erased = false;
}
ending false (had, true) = record {
  status = "blocked";
  reason = "EVIDENCE_PURGE_FAILED";
  state = "PURGE_PENDING";
  erased = false;
}
ending false (had, false) = record {
  status = "completed";
  reason = "";
  state = "PURGED";
  erased = had;
}

-- Change events are appended where the service has a feed.
unfoldable pub announce : Bool → Request → Fresh → Clock → String → Store → Store
announce false req fresh clock status s = s
announce true req fresh clock status s =
    append_change
      (record {
        event_id = fresh.event_id;
        org_id = req.org_id;
        resource_id = req.resource_id;
        revision_id = fresh.revision_id;
        action = if status == "completed" then "resource.purged" else "resource.tombstoned";
        cursor = fresh.revision_id;
        occurred_at = clock.end;
      })
      s

unfoldable pub manifest :
    Request → Fresh → Clock → List DerivativeRef → Bool → Ending → CompletionManifest
manifest req fresh clock derivatives index_removed e = record {
  deletion_id = fresh.deletion_id;
  organization_id = req.org_id;
  resource_id = req.resource_id;
  revision_id = fresh.revision_id;
  status = e.status;
  blocked_reason = e.reason;
  derivatives = derivatives;
  index_removed = index_removed;
  evidence_erased = e.erased;
  completed_at = clock.end;
}

-- The record's last state, the change event and the last audit event.
unfoldable pub finish : Bool → Request → LedgerRecord → Fresh → Clock → Ending → Store → Store
finish feed req rec fresh clock e s =
    append
      (audit_event req fresh.final_audit_id (concat "DELETION_" e.status) clock.end
        (("deletion_id", fresh.deletion_id) ∷ ("status", e.status) ∷ []))
      clock.store fresh.final_audit_id
      (announce feed req fresh clock e.status
        (upsert_record (record rec { state = e.state }) clock.store s).1)

-- The answer of a run, the ledger and the index.
abbrev pub Outcome : Type 0 → Type 0
Outcome I = Result CompletionManifest × Store × I

module _ {I : Type 0} (check : AuthzCheck → Result AuthzDecision)
    (index_delete : Option (String → List String → I → Result I))
    (evidence : Option (String × String → Bool)) (holds : Option (String → String → Result Bool))
    (feed : Bool) where
  unfoldable pub held : Request → Result Bool
  held req = elim holds [ none ↦ ok false | some h ↦ h req.org_id req.resource_id ]

  -- The index without the resource, and whether there is an index.
  unfoldable pub unindexed : Request → I → Result (I × Bool)
  unindexed req idx = elim index_delete [
    | none ↦ ok (idx, false)
    | some del ↦ elim (del req.org_id (req.resource_id ∷ []) idx) [
      | err e ↦ err e
      | ok new ↦ ok (new, true)
    ]
  ]

  -- From the legal hold on.
  unfoldable pub complete :
      Result Bool
      → Request
      → LedgerRecord
      → Fresh
      → Clock
      → List DerivativeRef
      → Bool
      → Store
      → I
      → Outcome I
  complete (err e) req rec fresh clock derivatives removed s idx = (err e, s, idx)
  complete (ok hold) req rec fresh clock derivatives removed s idx =
      let e = ending hold (purge evidence derivatives) in
      (
        ok (manifest req fresh clock derivatives removed e),
        finish feed req rec fresh clock e s,
        idx,
      )

  -- From the index on.
  unfoldable pub clean_up :
      Result (I × Bool) → Request → LedgerRecord → Fresh → Clock → Store → I → Outcome I
  clean_up (err e) req rec fresh clock s idx = (err e, s, idx)
  clean_up (ok (new, removed)) req rec fresh clock s idx =
      complete (held req) req rec fresh clock (enumerate req.org_id req.resource_id rec s) removed s
        new

  -- After the transaction.
  unfoldable pub revoked :
      Result (Unit {0}) → Request → LedgerRecord → Fresh → Clock → Store → I → Outcome I
  revoked (err e) req rec fresh clock s idx = (err e, s, idx)
  revoked (ok done) req rec fresh clock s idx =
      clean_up (unindexed req idx) req rec fresh clock
        (append
          (audit_event req fresh.audit_id "VISIBILITY_REVOKED" clock.start
            (("deletion_id", fresh.deletion_id) ∷ ("revision_id", fresh.revision_id) ∷ []))
          clock.store fresh.audit_id s)
        idx

  -- With the record.
  unfoldable pub delete_record :
      Result LedgerRecord → Request → Fresh → Clock → Store → I → Outcome I
  delete_record (err e) req fresh clock s idx = (err e, s, idx)
  delete_record (ok rec) req fresh clock s idx =
      let gone = buried rec fresh clock in
      let tx = revoke_visibility req gone fresh clock s in
      revoked tx.0 req gone fresh clock tx.1 idx

  -- With the authorization's answer.
  unfoldable pub authorized : Result (Unit {0}) → Request → Fresh → Clock → Store → I → Outcome I
  authorized (err e) req fresh clock s idx = (err e, s, idx)
  authorized (ok done) req fresh clock s idx =
      delete_record (get_record req.org_id req.resource_id s) req fresh clock s idx

  -- Run
  unfoldable pub run : Request → Fresh → Clock → Store → I → Outcome I
  run req fresh clock s idx =
      if req.org_id == "" || req.resource_id == ""
      then (err (err_validation "org and resource required"), s, idx)
      else authorized (authorize check req) req fresh clock s idx
