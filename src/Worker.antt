-- ===== src/Worker.antt =====
-- internal/application/worker.go: the passes of the background worker.
pub mod Retries
pub mod Projection
pub mod Relay
use gontext.Base.{ℕ, ◌+◌, ◌*◌, ◌^◌, min}
use gontext.Base.{String, string_eq, ◌==◌}
use gontext.Base.{Bool, not, ◌&&◌, ◌||◌, Option, none, some, List, [], ◌∷◌}
use gontext.Base.{leb, if◌then◌else◌}
use gontext.Base.{number_eq}
use gontext.Ports.{
  AuthzTupleOp, RelationshipTuple, LedgerRecord, IndexDocument, lifecycle_placeholder,
  lifecycle_ensured,
}
use gontext.Platform.{Error, Result, ok, err}
use gontext.Ledger.{Store, thirty_seconds}
use gontext.Ledger.Records.{get_record}
use gontext.Ledger.Once.{has_inbox, put_inbox}
use gontext.Ledger.Tuples.{claim_authz_tuples, mark_authz_tuple_applied, mark_authz_tuple_failed}
use gontext.Index.{Index, upsert}

-- time.Second
abbrev pub second : ℕ
second = 1_000_000_000

-- 1 << min(attempts, 6) seconds
unfoldable pub backoff : ℕ → ℕ
backoff attempts = 2 ^ min attempts 6 * second

-- err.Error()
error_text : Error → String
error_text (Error.api e) = e.message
error_text (Error.plain text) = text

-- The relationship writer is an interface: its two methods, on a state of its own.
module _ {M : Type 0} (write_tuples : List RelationshipTuple → M → Result (Unit {0}) × M)
    (delete_tuples : List RelationshipTuple → M → Result (Unit {0}) × M) where
  unfoldable pub apply_op : AuthzTupleOp → M → Result (Unit {0}) × M
  apply_op op m =
      let tuple : RelationshipTuple = record {
        object = op.object;
        relation = op.relation;
        subject = op.subject;
      } in
      if op.operation == "delete" then delete_tuples (tuple ∷ []) m else write_tuples (tuple ∷ []) m

  unfoldable pub settle_op : Result (Unit {0}) → AuthzTupleOp → ℕ → ℕ → Store → Store
  unfolding error_text
  settle_op (ok done) op max_attempts now s = (mark_authz_tuple_applied op.id now s).1
  settle_op (err e) op max_attempts now s =
      let attempts = op.attempts + 1 in
      (mark_authz_tuple_failed op.id attempts (now + backoff attempts) (error_text e)
        (leb max_attempts attempts) now s).1

  unfoldable pub apply_ops : List AuthzTupleOp → ℕ → ℕ → Store → M → Store × M
  apply_ops [] max_attempts now s m = (s, m)
  apply_ops (op ∷ ops) max_attempts now s m =
      let r = apply_op op m in
      apply_ops ops max_attempts now (settle_op r.0 op max_attempts now s) r.1

  -- what follows the claim
  unfoldable pub applied_claim :
      Result (List AuthzTupleOp) → ℕ → ℕ → Store → M → Result (Unit {0}) × Store × M
  applied_claim (err e) max_attempts now s m = (err e, s, m)
  applied_claim (ok ops) max_attempts now s m =
      let r = apply_ops ops max_attempts now s m in (ok tt, r.0, r.1)

  -- authzOnce, with a ledger and a writer
  unfoldable pub authz_once : ℕ → ℕ → ℕ → Store → M → Result (Unit {0}) × Store × M
  authz_once batch max_attempts now s m =
      let c = claim_authz_tuples batch thirty_seconds now s in
      applied_claim c.0 max_attempts now c.1 m

abbrev pub index_consumer : String
index_consumer = "context-index-projector"

pub record OutboxPayload : Type 0 where
  pub event_id : String
  pub org_id : String
  pub resource_id : String
  pub revision_id : String

unfoldable pub document : OutboxPayload → LedgerRecord → IndexDocument
document p rec = record {
  resource_id = p.resource_id;
  revision_id = p.revision_id;
  org_id = p.org_id;
  text = rec.title;
  labels = rec.labels;
  attributes = ("classification", rec.classification) ∷ [];
}

unfoldable pub seen : OutboxPayload → ℕ → String → Store → Store
seen p now fresh s =
    put_inbox
      (record {
        id = fresh;
        org_id = p.org_id;
        consumer = index_consumer;
        msg_id = p.event_id;
        processed_at = now;
      })
      s

-- the record found, or not, for a payload that names a resource
unfoldable pub project_record :
    Result LedgerRecord
    → OutboxPayload
    → ℕ
    → String
    → Store
    → Index
    → Result (Unit {0}) × Store × Index
project_record (err e) p now fresh s idx = (err e, s, idx)
project_record (ok rec) p now fresh s idx =
    if rec.state == lifecycle_placeholder || rec.state == lifecycle_ensured
    then (ok tt, seen p now fresh s, idx)
    else (ok tt, seen p now fresh s, upsert (document p rec ∷ []) idx)

-- projectPayload, of a payload that is JSON (`some`) or not, with or without an index
unfoldable pub project_payload :
    Bool → Option OutboxPayload → ℕ → String → Store → Index → Result (Unit {0}) × Store × Index
project_payload has_index none now fresh s idx = (ok tt, s, idx)
project_payload has_index (some p) now fresh s idx =
    if p.org_id == "" || p.event_id == ""
    then (ok tt, s, idx)
    else if has_inbox p.org_id index_consumer p.event_id s
    then (ok tt, s, idx)
    else if has_index && not (p.resource_id == "")
    then project_record (get_record p.org_id p.resource_id s) p now fresh s idx
    else (ok tt, seen p now fresh s, idx)
