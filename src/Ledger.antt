-- ===== src/Ledger.antt =====
-- internal/adapters/memory/ledger.go: the in-memory ledger. Each method holds the store's lock from
-- its first access to its return, so a method is one step on the store. The clock's reading and the
-- identifier that a method may need are arguments (`now`, `fresh`).
pub mod Records
pub mod Edges
pub mod Tuples
pub mod Outbox
pub mod Once
pub mod Feed
use gontext.Base.{ℕ}
use gontext.Base.{String, string_eq, ◌==◌}
use gontext.Base.{◌≡◌, ap}
use gontext.Base.{Bool, Option, none, some, List, []}
use gontext.Base.{arith, if◌then◌else◌}
use gontext.Base.{number_eq}
use gontext.Base.Dict.{Dict, Dict2}
use gontext.Ports.{
  SourceRegistration, AuditEvent, DelegationGrant, LedgerRecord, Revision, GraphEdge, AuthzTupleOp,
  IdempotencyRecord, OutboxEntry, ChangeEvent,
}
use gontext.Platform.{Result, ok, err, ok_injective, err_not_found}

-- ports.Organization
pub record Organization : Type 0 where
  pub id : String
  pub name : String
  pub attributes : Dict String
  pub created_at : ℕ

-- ports.InboxEntry
pub record InboxEntry : Type 0 where
  pub id : String
  pub org_id : String
  pub consumer : String
  pub msg_id : String
  pub processed_at : ℕ

-- AccessRequest
pub record AccessRequest : Type 0 where
  pub request_id : String
  pub org_id : String
  pub resource_id : String
  pub purpose : String
  pub justification : String
  pub status : String
  pub created_at : ℕ
  pub audit_id : String

-- Store: the maps of the modelled methods.
pub record Store : Type 0 where
  pub orgs : Dict Organization
  pub records : Dict2 LedgerRecord
  pub revisions : Dict2 Revision
  pub sources : Dict2 SourceRegistration
  pub delegations : Dict2 DelegationGrant
  pub outbox : List OutboxEntry
  pub outbox_lease : Dict ℕ
  pub inbox : Dict InboxEntry
  pub idempotency : Dict IdempotencyRecord
  pub changes : Dict (List ChangeEvent)
  pub audits : Dict (List AuditEvent)
  pub access_reqs : Dict2 AccessRequest
  pub holds : Dict2 Bool
  pub edges : Dict2 GraphEdge
  pub authz_tuples : Dict2 AuthzTupleOp

-- NewStore
abbrev pub new_store : Store
new_store = record {
  orgs = [];
  records = [];
  revisions = [];
  sources = [];
  delegations = [];
  outbox = [];
  outbox_lease = [];
  inbox = [];
  idempotency = [];
  changes = [];
  audits = [];
  access_reqs = [];
  holds = [];
  edges = [];
  authz_tuples = [];
}

-- A method that changes the store: its result, and the store that it leaves.
abbrev pub Step {ℓ} : Type ℓ → Type ℓ
Step A = Result A × Store

-- `if err := ...; err != nil { return err }` between two steps
unfoldable pub and_then {ℓ κ} : {A : Type ℓ} {B : Type κ} → Step A → (A → Store → Step B) → Step B
and_then (ok a, s) next = next a s
and_then (err e, s) next = (err e, s)

-- `v, ok := m[id]; if !ok { return ..., ErrNotFound(message) }`
unfoldable pub found {ℓ} : {A : Type ℓ} → Option A → String → Result A
found none message = err (err_not_found message)
found (some a) message = ok a

pub found-ok {ℓ} :
    {A : Type ℓ} (o : Option A) (message : String) (a : A) → found o message ≡ ok a → o ≡ some a
unfolding found err_not_found
found-ok none message a h = absurd (ground arith)
found-ok (some b) message a h = ap some (ok_injective h)

-- if t.IsZero() { t = now }
unfoldable pub or_now : ℕ → ℕ → ℕ
or_now t now = if t == 0 then now else t

-- if s == "" { s = default }
unfoldable pub or_default : String → String → String
or_default s default = if s == "" then default else s

-- if limit <= 0 { limit = default }
unfoldable pub or_limit : ℕ → ℕ → ℕ
or_limit limit default = if limit == 0 then default else limit

-- 30 * time.Second
abbrev pub thirty_seconds : ℕ
thirty_seconds = 30_000_000_000
