-- ===== src/Retrieval/Search.antt =====
-- Search of internal/retrieval/retrieval.go. The clock's reading, the identifiers that it makes and
-- the hash of the query are arguments; metrics are left out.
pub mod Citations
use Prim.Native.String.{len, slice}
use gontext.Base.{ℕ, min}
use gontext.Base.{String, string_eq, ◌==◌, concat, contains}
use gontext.Base.{not, ◌&&◌, ◌||◌, Option, none, some, List, [], ◌∷◌, ◌++◌, map}
use gontext.Base.{ltb, leb, number_eq, if◌then◌else◌, length, take}
use gontext.Base.Dict.{Dict, put}
use gontext.Ports.{Principal, PolicyResult, AuditEvent, AuthzDecision, SearchHit, LedgerRecord}
use gontext.Platform.{Result, ok, err, ◌>>=◌, err_internal}
use gontext.Ledger.{or_default, or_limit}
use gontext.Deletion.{is_tombstoned}
use gontext.Retrieval.{
  Pipeline, Request, Citation, Redaction, ContextPacket, consistency_min_latency, policy_revision,
  packet_version, gate_scopes, effective_scopes, check_delegation, tenant_of, policy_request,
  read_check, empty_packet, truncation_cursor, delegation_id,
}
use gontext.Retrieval.Subgraph.{Subgraph, unique, visible_subgraph}

-- what Search makes: the identifiers of the packet, of its event and of a citation, and the text
-- of the query's hash
pub record Made : Type 0 where
  pub packet : String
  pub audit : String
  pub citation : String → String
  pub query_hash : String

-- the request with its defaults, before the principal is known
unfoldable pub search_defaults : Request → Request
unfolding or_default or_limit
search_defaults req = record req {
  action = or_default req.action "context.search";
  consistency = or_default req.consistency consistency_min_latency;
  limit = min (or_limit req.limit 12) 50;
}

-- the request's filters that are passed on
unfoldable pub passed_filters : Dict String → Dict String → Dict String
passed_filters [] filters = filters
passed_filters ((k, v) ∷ m) filters = passed_filters m (
    if contains ("include_tags" ∷ "context_space_id" ∷ "resource_id" ∷ "brand_id" ∷ []) k
    then put filters k v
    else filters)

unfoldable pub search_filters : Request → Dict String
search_filters req =
    let base = ("purpose", req.purpose) ∷ ("classification_ceiling", "restricted") ∷ [] in
    let filters = passed_filters req.filters base in
    if req.resource_id == "" then filters else put filters "resource_id" req.resource_id

-- the hits whose decision allows, and the revision of the last of these decisions
unfoldable pub allowed_hits : List SearchHit → List AuthzDecision → String → List SearchHit × String
allowed_hits [] ds rev = ([], rev)
allowed_hits (h ∷ hs) [] rev = ([], rev)
allowed_hits (h ∷ hs) (d ∷ ds) rev =
    let rest = allowed_hits hs ds (if d.allowed then d.model_revision else rev) in
    (if d.allowed then h ∷ rest.0 else rest.0, rest.1)

-- redactSnippet, with strings.ReplaceAll(s, "@", "[at]")
unfoldable pub mask_at : String → String
mask_at String.[] = String.[]
mask_at (String.◌∷◌ c s) =
    let rest = mask_at s in
    let first = String.◌∷◌ c String.[] in
    if first == "@" then concat "[at]" rest else concat first rest

unfoldable pub redact_snippet : String → String → String
unfolding mask_at
redact_snippet s profile = if profile == "pii_mask" || profile == "mask_pii" then mask_at s else s

-- allowedResourceIDs
unfoldable pub cited_ids : List Citation → List String
cited_ids citations = unique [] (map (λ c. c.resource_id) citations)

-- truncate. A cut inside a character drops it here, where the code keeps its first bytes.
unfoldable pub truncate : String → ℕ → String
truncate s n = if leb (len s) n then s else concat (slice s 0 n) "…"

module _ (p : Pipeline) (now : ℕ) (made : Made) where
  -- loadSnippet
  unfoldable pub load_snippet : String → String → LedgerRecord → String
  unfolding or_default
  load_snippet org_id resource_id rec =
      let own = or_default rec.title resource_id in
      elim (p.snippet_of org_id resource_id) [
        | none ↦ own
        | some text ↦ if text == "" then own else truncate text 240
      ]

  -- the record of a hit with the policy's answer, where it may be cited
  unfoldable pub citable : Principal → Request → String → Option (LedgerRecord × PolicyResult)
  citable principal req id = elim (p.get_record req.org_id id) [
    | err e ↦ none
    | ok rec ↦
        elim (p.evaluate (policy_request principal req rec.classification (some rec) req.limit)) [
          | err e ↦ none
          | ok pol ↦ if not (is_tombstoned rec.state) && pol.allow then some (rec, pol) else none
        ]
  ]

  unfoldable pub cite : Request → SearchHit → LedgerRecord → PolicyResult → Citation
  unfolding or_default
  cite req hit rec pol = record {
    citation_id = made.citation hit.resource_id;
    resource_id = hit.resource_id;
    revision_id = or_default hit.revision_id rec.current_rev_id;
    snippet = redact_snippet (load_snippet req.org_id hit.resource_id rec) pol.redaction_profile;
  }

  unfoldable pub redaction_of : PolicyResult → List Redaction
  redaction_of pol =
      if pol.redaction_profile == "" || pol.redaction_profile == "none"
      then []
      else record { profile = pol.redaction_profile; reason_code = pol.reason_code } ∷ []

  -- The loop over the allowed hits.
  unfoldable pub cite_all : Principal → Request → List SearchHit → List Citation × List Redaction
  cite_all principal req [] = ([], [])
  cite_all principal req (h ∷ hs) =
      let rest = cite_all principal req hs in
      elim (citable principal req h.resource_id) [
        | none ↦ rest
        | some (rec, pol) ↦ (cite req h rec pol ∷ rest.0, redaction_of pol ++ rest.1)
      ]

  unfoldable pub search_packet :
      Principal
      → Request
      → PolicyResult
      → List Citation × List Redaction
      → String
      → Subgraph
      → ContextPacket × AuditEvent
  search_packet principal req pol found authz_rev g = (
    record {
      version = packet_version;
      packet_id = made.packet;
      org_id = req.org_id;
      purpose = req.purpose;
      redaction_profile = pol.redaction_profile;
      nodes = g.nodes;
      edges = g.edges;
      citations = found.0;
      redactions = found.1;
      policy_revision = policy_revision;
      authz_revision = authz_rev;
      audit_id = made.audit;
      action_restrictions = "outbound.send" ∷ [];
      truncated = g.truncated;
      next_cursor = truncation_cursor g.truncated g.edges;
      generated_at = now;
    },
    record {
      audit_id = made.audit;
      org_id = req.org_id;
      principal_id = principal.id;
      principal_kind = principal.kind;
      delegation_id = delegation_id req.delegation;
      action = req.action;
      reason_code = "RETRIEVAL_OK";
      authz_model_rev = authz_rev;
      policy_revision = policy_revision;
      resource_count = length found.0;
      resource_ids_sample = take 8 (map (λ c. c.resource_id) found.0);
      trace_id = "";
      attributes = some (("query_hash", made.query_hash) ∷ ("purpose", req.purpose) ∷ []);
      created_at = now;
    },
  )

  -- with the decisions on the candidates: one for each, or the answer is refused
  unfoldable pub decided :
      Principal
      → Request
      → PolicyResult
      → List SearchHit
      → List AuthzDecision
      → Result (ContextPacket × AuditEvent)
  decided principal req pol hits ds =
      let a = allowed_hits hits ds "" in
      let found = cite_all principal req a.0 in
      if length ds == length hits
      then ok (
          search_packet principal req pol found a.1
            (visible_subgraph p principal req [] (cited_ids found.0) 0))
      else err (err_internal "authz batch decision count mismatch")

  -- with the policy's answer: its bound, the candidates, and one check of them all
  unfoldable pub candidates :
      Principal → Request → PolicyResult → Result (ContextPacket × AuditEvent)
  candidates principal request pol =
      let limit =
        if ltb 0 pol.max_results && ltb pol.max_results request.limit
        then pol.max_results
        else request.limit in
      let req = record request { limit = limit } in
      p.search_candidates req.org_id (or_default req.query req.resource_id) limit
        (search_filters req)
      >>= λ hits.
          p.batch_check (map (λ (h : SearchHit). read_check principal req h.resource_id) hits)
          >>= λ ds. decided principal req pol hits ds

  -- with the principal and its organization: scopes, delegation, coarse scope, policy
  unfoldable pub admitted_search : Principal → Request → Result (ContextPacket × AuditEvent)
  admitted_search principal req =
      gate_scopes (effective_scopes principal req) req.action p.allow_empty_scopes >>= λ gated.
      check_delegation req.delegation req.purpose now >>= λ delegated.
      p.resolve_scope
        (record { principal = principal; action = req.action; consistency = req.consistency })
      >>= λ scope.
          if scope.reason_code == "AUTHZ_SCOPE_DENY"
          then ok (empty_packet principal req "AUTHZ_SCOPE_DENY" now made.audit)
          else p.evaluate (policy_request principal req "internal" none req.limit) >>= λ pol.
              if pol.allow
              then candidates principal req pol
              else ok (empty_packet principal req pol.reason_code now made.audit)

  -- Search
  unfoldable pub search_context : Request → Result (ContextPacket × AuditEvent)
  search_context request =
      let req = search_defaults request in
      p.authenticate req.credentials >>= λ principal. tenant_of principal req.org_id >>= λ org.
      admitted_search principal (record req { org_id = org })
