-- ===== src/Fga/Check.antt =====
-- Check, BatchCheck and ResolveCandidateScope of internal/adapters/openfga/memory.go, and
-- formatUser, formatObject and mapRelation of client.go. The recursion of `can` marks a new key at
-- each level, so a fuel above the number of keys that it can meet is enough.
use gontext.Base.{ℕ, suc}
use gontext.Base.{String, string_eq, ◌==◌, concat, contains_text, contains}
use gontext.Base.{Bool, false, ◌||◌, none, some, List, [], ◌∷◌, ◌++◌, map}
use gontext.Base.{if◌then◌else◌, length}
use gontext.Base.Dict.{Dict, Dict2, get, inner, or_empty, keys}
use gontext.Ports.{Principal, AuthzCheck, AuthzDecision, ScopeResolve, CandidateScope}
use gontext.Fga.{Memory, Visit, has, can, visit_key}

unfoldable pub format_user : Principal → String
format_user p =
    let prefix =
      if p.kind == "agent" then "agent" else if p.kind == "service" then "service" else "user" in
    let id = if p.subject == "" then p.id else p.subject in
    if contains_text id ":" then id else concat (concat prefix ":") id

unfoldable pub format_object : String → String
format_object resource_id =
    if contains_text resource_id ":" then resource_id else concat "resource:" resource_id

abbrev read_actions : List String
read_actions =
    "context.search" ∷ "context.get" ∷ "context.brief" ∷ "context.graph" ∷ "can_read" ∷ "reader"
    ∷ []

abbrev manage_actions : List String
manage_actions =
    "can_manage" ∷ "context.manage" ∷ "can_admin" ∷ "context.delete" ∷ "can_delete" ∷ []

unfoldable pub map_relation : String → String
map_relation action =
    if contains read_actions action
    then "can_read"
    else if contains manage_actions action
    then "can_manage"
    else if action == "member"
    then "member"
    else if action == ""
    then "can_read"
    else action

-- Every object that stands as a parent of some object.
unfoldable pub all_parents : Dict2 (Dict Bool) → List String
all_parents [] = []
all_parents ((o, relations) ∷ m) = keys (or_empty (get relations "parent")) ++ all_parents m

-- The keys that a search from an object can meet.
unfoldable pub universe : Memory → String → List String
universe m object =
    let objects = object ∷ all_parents m.relations in
    map (λ o. visit_key o "can_read") objects ++ map (λ o. visit_key o "can_manage") objects

abbrev pub answer : Visit → Bool
answer none = false
answer (some (b, visiting)) = b

-- m.can(object, relation, subject, map[string]bool{})
unfoldable pub allowed : Memory → String → String → String → Bool
unfolding universe
allowed m object relation subject =
    answer (can (suc (length (universe m object))) m subject object relation [])

decide : Memory → ℕ → AuthzCheck → AuthzDecision
decide m now r =
    let ok =
      allowed m (format_object r.resource_id) (map_relation r.action) (format_user r.principal) in
    record {
      allowed = ok;
      reason_code = if ok then "AUTHZ_ALLOW" else "AUTHZ_DENY";
      consistency = r.consistency;
      model_revision = m.model_id;
      checked_at = now;
    }

-- BatchCheck: one decision for each request, in order
unfoldable pub batch_check : Memory → ℕ → List AuthzCheck → List AuthzDecision
unfolding decide
batch_check m now [] = []
batch_check m now (r ∷ rs) = decide m now r ∷ batch_check m now rs

-- Check: the one decision of a batch of one
unfoldable pub check : Memory → ℕ → AuthzCheck → AuthzDecision
unfolding decide
check m now r = decide m now r

is_member : Dict Bool → String → Bool
is_member members subject = elim (get members subject) [ none ↦ false | some b ↦ b ]

-- ResolveCandidateScope
unfoldable pub resolve_candidate_scope : Memory → ScopeResolve → CandidateScope
unfolding is_member
resolve_candidate_scope m req =
    let org = req.principal.org_id in
    let user = format_user req.principal in
    let subj = if req.principal.subject == "" then req.principal.id else req.principal.subject in
    let members = inner m.org_members org in
    let found =
      has m (concat "organization:" org) "member" user
      || is_member members subj
      || is_member members user
      || is_member members (concat "user:" subj) in
    record {
      org_id = org;
      resource_ids = [];
      labels = [];
      reason_code = if found then "AUTHZ_SCOPE_OK" else "AUTHZ_SCOPE_DENY";
    }
