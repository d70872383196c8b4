-- ===== src/Ports.antt =====
-- internal/ports/types.go and ports.go: the data that the components exchange. A `time.Time` is a
-- number of nanoseconds, 0 for the zero time; a pointer is an `Option`. The contract types' fields
-- that no modelled code reads (free-form maps of `any`) are left out.
use gontext.Base.{ℕ}
use gontext.Base.{String}
use gontext.Base.{Bool, Option, List}
use gontext.Base.Dict.{Dict}

pub record Principal : Type 0 where
  pub id : String
  pub kind : String
  pub org_id : String
  pub issuer : String
  pub subject : String
  pub roles : List String
  pub groups : List String
  pub scopes : List String
  pub email : String
  pub attributes : Dict String

pub record DelegationGrant : Type 0 where
  pub id : String
  pub org_id : String
  pub subject_id : String
  pub actor_id : String
  pub owner_id : String
  pub actions : List String
  pub resource_ids : List String
  pub purposes : List String
  pub expires_at : Option ℕ
  pub revoked : Bool
  pub created_at : ℕ

pub record AuthzCheck : Type 0 where
  pub principal : Principal
  pub action : String
  pub resource_id : String
  pub consistency : String
  pub delegation : Option DelegationGrant

pub record AuthzDecision : Type 0 where
  pub allowed : Bool
  pub reason_code : String
  pub consistency : String
  pub model_revision : String
  pub checked_at : ℕ

pub record ScopeResolve : Type 0 where
  pub principal : Principal
  pub action : String
  pub consistency : String

pub record CandidateScope : Type 0 where
  pub org_id : String
  pub resource_ids : List String
  pub labels : List String
  pub reason_code : String

-- Record (the name of a keyword in another case)
pub record LedgerRecord : Type 0 where
  pub resource_id : String
  pub org_id : String
  pub kind : String
  pub title : String
  pub classification : String
  pub labels : List String
  pub source_system : String
  pub external_id : String
  pub current_rev_id : String
  pub state : String
  pub attributes : Dict String
  pub created_at : ℕ
  pub updated_at : ℕ

pub record PolicyEval : Type 0 where
  pub principal : Principal
  pub action : String
  pub purpose : String
  pub classification : String
  pub ledger_record : Option LedgerRecord
  pub requested_limit : ℕ

pub record PolicyResult : Type 0 where
  pub allow : Bool
  pub redaction_profile : String
  pub obligations : List String
  pub max_results : ℕ
  pub reason_code : String

pub record Revision : Type 0 where
  pub revision_id : String
  pub resource_id : String
  pub org_id : String
  pub content_hash : String
  pub evidence_ref : String
  pub sequence : ℕ
  pub state : String
  pub attributes : Dict String
  pub observed_at : ℕ
  pub created_at : ℕ

-- A float64 that is a confidence: where it lies about 0 and 1, with a name for each of the floats
-- between them. The code compares it with 0 and 1 only, and sets it to 1.
pub data Confidence : Type 0 where
  below_zero at_zero : Confidence
  between : ℕ → Confidence
  at_one above_one not_a_number : Confidence

pub record GraphEdge : Type 0 where
  pub edge_id : String
  pub org_id : String
  pub from_id : String
  pub to_id : String
  pub predicate : String
  pub confidence : Confidence
  pub state : String
  pub sync_authz : Bool
  pub attributes : Dict String
  pub created_at : ℕ
  pub updated_at : ℕ

pub record EdgeListOptions : Type 0 where
  pub resource_ids : List String
  pub predicates : List String
  pub include_dead : Bool
  pub limit : ℕ

pub record AuthzTupleOp : Type 0 where
  pub id : String
  pub org_id : String
  pub operation : String
  pub object : String
  pub relation : String
  pub subject : String
  pub edge_id : String
  pub status : String
  pub attempts : ℕ
  pub last_error : String
  pub lease_until : Option ℕ
  pub next_attempt : ℕ
  pub created_at : ℕ
  pub updated_at : ℕ
  pub applied_at : Option ℕ

pub record RelationshipTuple : Type 0 where
  pub object : String
  pub relation : String
  pub subject : String

pub record IdempotencyRecord : Type 0 where
  pub org_id : String
  pub idempotency_key : String
  pub event_id : String
  pub resource_id : String
  pub revision_id : String
  pub created_at : ℕ

pub record OutboxEntry : Type 0 where
  pub id : String
  pub org_id : String
  pub subject : String
  pub payload : String
  pub headers : Option (Dict String)
  pub created_at : ℕ
  pub published : Option ℕ

pub record ChangeEvent : Type 0 where
  pub event_id : String
  pub org_id : String
  pub resource_id : String
  pub revision_id : String
  pub action : String
  pub cursor : String
  pub occurred_at : ℕ

pub record SourceRegistration : Type 0 where
  pub source_id : String
  pub org_id : String
  pub system : String
  pub display_name : String
  pub trust_tier : String
  pub trust_ceiling : String
  pub authority_ceiling : String
  pub classification_ceiling : String
  pub classification_default : String
  pub mapping_spec : String
  pub mapping_spec_inline : Option String
  pub enabled : Bool
  pub signing_secret : String
  pub replay_window_seconds : ℕ
  pub allowed_record_types : List String
  pub allowed_visibility_refs : List String
  pub attributes : Dict String
  pub created_at : ℕ
  pub updated_at : ℕ

pub record AuditEvent : Type 0 where
  pub audit_id : String
  pub org_id : String
  pub principal_id : String
  pub principal_kind : String
  pub delegation_id : String
  pub action : String
  pub reason_code : String
  pub authz_model_rev : String
  pub policy_revision : String
  pub resource_count : ℕ
  pub resource_ids_sample : List String
  pub trace_id : String
  pub attributes : Option (Dict String)
  pub created_at : ℕ

-- without the embedding, which no modelled code reads
pub record IndexDocument : Type 0 where
  pub resource_id : String
  pub revision_id : String
  pub org_id : String
  pub text : String
  pub labels : List String
  pub attributes : Dict String

-- The score of a hit, which is 1 in every hit that the in-memory index builds, is left out.
pub record SearchHit : Type 0 where
  pub resource_id : String
  pub revision_id : String

pub record AgentPrincipal : Type 0 where
  pub principal : Principal
  pub agent_id : String
  pub credential_id : String
  pub owner_id : String

pub record CreateAgentCredentialRequest : Type 0 where
  pub org_id : String
  pub agent_id : String
  pub owner_id : String
  pub delegation_id : String
  pub expires_at : Option ℕ
  pub label : String

pub record AgentCredential : Type 0 where
  pub credential_id : String
  pub agent_id : String
  pub org_id : String
  pub secret : String
  pub expires_at : Option ℕ
  pub created_at : ℕ

abbrev pub lifecycle_accepted : String
lifecycle_accepted = "ACCEPTED"

abbrev pub lifecycle_placeholder : String
lifecycle_placeholder = "PLACEHOLDER"

abbrev pub lifecycle_ensured : String
lifecycle_ensured = "ENSURED"

abbrev pub edge_parent : String
edge_parent = "parent"
