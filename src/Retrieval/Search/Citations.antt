-- ===== src/Retrieval/Search/Citations.antt =====
-- What a packet of Search cites and shows.
use gontext.Base.{ℕ, ◌≤◌, ◌<◌}
use gontext.Base.{String, string_eq, ◌==◌}
use gontext.Base.{◌≡◌, subst, inl, inr}
use gontext.Base.{true, false, not, ◌&&◌, none, some, List, [], ◌∷◌, map}
use gontext.Base.{arith, ltb, if◌then◌else◌, Bool-cases, Option-cases, length, All}
use gontext.Base.{number_eq}
use gontext.Base.Dict.{Dict}
use gontext.Ports.{
  Principal, AuthzCheck, AuthzDecision, GraphEdge, PolicyResult, AuditEvent, LedgerRecord,
  SearchHit,
}
use gontext.Platform.{Result, ok, >>=-eq-ok, ok_injective, Result-cases}
use gontext.Ledger.{or_limit, or_default}
use gontext.Deletion.{is_tombstoned}
use gontext.Retrieval.{
  Pipeline, Request, Citation, ContextPacket, tenant_of, tenant_of-ok, empty_packet,
  check_delegation, gate_scopes, effective_scopes, policy_request, read_check,
}
use gontext.Retrieval.Subgraph.Visible.{Decides, Lists, Allows}
use gontext.Retrieval.Subgraph.Shown.{IsDisclosed, IsDisclosedEdge, visible_subgraph-IsDisclosed}
use gontext.Retrieval.Search.{
  Made, search_defaults, search_filters, allowed_hits, cited_ids, citable, cite, cite_all, decided,
  candidates, admitted_search, search_context, search_packet,
}

-- The index returns no more hits than it is asked for.
pub record Limits (p : Pipeline) : Type 0 where
  pub limited :
      (org query : String) (limit : ℕ) (filters : Dict String) (hs : List SearchHit)
      → 0 < limit
      → p.search_candidates org query limit filters ≡ ok hs
      → length hs ≤ limit

-- the request that Search carries out for a principal, with the policy's limit
unfoldable pub search_request : Request → Principal → ℕ → Request
search_request request principal limit = record (search_defaults request) {
  org_id = principal.org_id;
  limit = limit;
}

module _ (p : Pipeline) (decide : AuthzCheck → AuthzDecision) (Stored : GraphEdge → Type 0)
    (principal : Principal) (req : Request) where
  -- The citation is of a resource that may be read, whose record the ledger returns, is not
  -- deleted, and passes the policy.
  unfoldable pub IsCitable : String → Type 0
  IsCitable id =
      Allows decide principal req id
      × (rec : LedgerRecord) × (pol : PolicyResult) × (p.get_record req.org_id id ≡ ok rec)
      × (is_tombstoned rec.state ≡ false)
      × (p.evaluate (policy_request principal req rec.classification (some rec) req.limit) ≡ ok pol)
      × (pol.allow ≡ true)

  -- The packet cites such resources only, no more than the limit, and shows nodes and edges of
  -- cited resources only.
  unfoldable pub CitesOnly : ContextPacket → Type 0
  CitesOnly packet =
      All (λ (c : Citation). IsCitable c.resource_id) packet.citations
      × (length packet.citations ≤ req.limit)
      × All (IsDisclosed p decide Stored principal req [] (cited_ids packet.citations) 0)
          packet.nodes
      × All (IsDisclosedEdge p decide Stored principal req [] (cited_ids packet.citations) 0)
          packet.edges

  allowed_hits-Allows :
      (hs : List SearchHit) (rev : String)
      → All
          (λ (h : SearchHit). Allows decide principal req h.resource_id)
          (allowed_hits hs
            (map decide (map (λ (h : SearchHit). read_check principal req h.resource_id) hs))
            rev).0
  unfolding allowed_hits Allows
  allowed_hits-Allows [] rev = tt
  allowed_hits-Allows (h ∷ hs) rev =
      elim (Bool-cases (decide (read_check principal req h.resource_id)).allowed) [
        | inl y ↦ rw (y) (y, allowed_hits-Allows hs _)
        | inr n ↦ rw (n) (allowed_hits-Allows hs rev)
      ]

  length-allowed_hits :
      (hs : List SearchHit) (ds : List AuthzDecision) (rev : String)
      → length (allowed_hits hs ds rev).0 ≤ length hs
  unfolding allowed_hits
  length-allowed_hits [] ds rev = omega arith
  length-allowed_hits (h ∷ hs) [] rev = omega arith
  length-allowed_hits (h ∷ hs) (d ∷ ds) rev =
      ground (arith, length-allowed_hits hs ds d.model_revision, length-allowed_hits hs ds rev)

  module _ (now : ℕ) (made : Made) where
    citable-some :
        (id : String) (rec : LedgerRecord) (pol : PolicyResult)
        → citable p now made principal req id ≡ some (rec, pol)
        → (p.get_record req.org_id id ≡ ok rec)
          × (is_tombstoned rec.state ≡ false)
          × (p.evaluate (policy_request principal req rec.classification (some rec) req.limit)
              ≡ ok pol)
          × (pol.allow ≡ true)
    unfolding citable
    citable-some id rec pol h = elim (Result-cases (p.get_record req.org_id id)) [
      | inl (e, k) ↦ absurd (cc (rw (k, citable) at h))
      | inr (r, k) ↦
          elim (Result-cases
            (p.evaluate (policy_request principal req r.classification (some r) req.limit))) [
              | inl (e, q) ↦ absurd (cc (rw (k, q, citable) at h))
              | inr (a, q) ↦ elim (Bool-cases (not (is_tombstoned r.state) && a.allow)) [
                | inr n ↦ absurd (cc (rw (k, q, n, citable) at h))
                | inl y ↦
                    let same_rec : r ≡ rec = cc (rw (k, q, y, citable) at h) in
                    let same_pol : a ≡ pol = cc (rw (k, q, y, citable) at h) in
                    rw (← same_rec, ← same_pol) (k, ground arith, q, ground arith)
              ]
            ]
    ]

    cite_all-IsCitable :
        (hs : List SearchHit)
        → All (λ (h : SearchHit). Allows decide principal req h.resource_id) hs
        → All (λ (c : Citation). IsCitable c.resource_id) (cite_all p now made principal req hs).0
    unfolding cite_all cite IsCitable
    cite_all-IsCitable [] a = tt
    cite_all-IsCitable (h ∷ hs) (g, a) =
        elim (Option-cases (citable p now made principal req h.resource_id)) [
          | inl n ↦ rw (n, cite_all) (cite_all-IsCitable hs a)
          | inr ((rec, pol), e) ↦
              let (x, t, q, y) = citable-some h.resource_id rec pol e in
              rw (e, cite_all) ((g, rec, pol, x, t, q, y), cite_all-IsCitable hs a)
        ]

    length-cite_all :
        (hs : List SearchHit) → length (cite_all p now made principal req hs).0 ≤ length hs
    unfolding cite_all
    length-cite_all [] = omega arith
    length-cite_all (h ∷ hs) =
        elim (Option-cases (citable p now made principal req h.resource_id)) [
          | inl n ↦ rw (n, cite_all) (omega (arith, length-cite_all hs))
          | inr (x, e) ↦ rw (e, cite_all) (omega (arith, length-cite_all hs))
        ]

    decided-CitesOnly :
        (pol : PolicyResult) (hs : List SearchHit) (ds : List AuthzDecision)
        (r : ContextPacket × AuditEvent)
        → Decides p decide
        → Lists p req.org_id Stored
        → length hs ≤ req.limit
        → ds ≡ map decide (map (λ (h : SearchHit). read_check principal req h.resource_id) hs)
        → decided p now made principal req pol hs ds ≡ ok r
        → CitesOnly r.0
    unfolding decided search_packet CitesOnly
    decided-CitesOnly pol hs ds r d l few same h = elim (Bool-cases (length ds == length hs)) [
      | inr n ↦ absurd (cc (rw (n, decided) at h))
      | inl y ↦
          let a = allowed_hits hs ds "" in
          let found = cite_all p now made principal req a.0 in
          let granted : All (λ (h : SearchHit). Allows decide principal req h.resource_id) a.0 =
            rw (same) (allowed_hits-Allows hs "") in
          let (ns, es) =
            visible_subgraph-IsDisclosed p decide Stored principal req [] (cited_ids found.0) 0 d
              l in
          subst (λ (x : ContextPacket × AuditEvent). CitesOnly x.0)
            (ok_injective (rw (y, decided) at h))
            (
              cite_all-IsCitable a.0 granted,
              omega (arith, length-cite_all a.0, length-allowed_hits hs ds ""),
              ns,
              es,
            )
    ]

-- The limit that the policy leaves.
policy_limit : Request → PolicyResult → ℕ
policy_limit req pol =
    if ltb 0 pol.max_results && ltb pol.max_results req.limit then pol.max_results else req.limit

module _ (p : Pipeline) (decide : AuthzCheck → AuthzDecision) (Stored : GraphEdge → Type 0)
    (principal : Principal) (req : Request) (now : ℕ) (made : Made) where
  -- with some limit that is at most the request's
  Cites : ContextPacket → Type 0
  Cites packet =
      (limit : ℕ) × (limit ≤ req.limit)
      × CitesOnly p decide Stored principal (record req { limit = limit }) packet

  empty-Cites :
      (reason : String) (r : ContextPacket × AuditEvent)
      → ◌≡◌ {A = Result (ContextPacket × AuditEvent)}
          (ok (empty_packet principal req reason now made.audit))
          (ok r)
      → Cites r.0
  unfolding empty_packet CitesOnly Cites
  empty-Cites reason r h =
      subst (λ (x : ContextPacket × AuditEvent). Cites x.0) (ok_injective h)
        (0, omega arith, (tt, omega arith, tt, tt))

  candidates-Cites :
      (pol : PolicyResult) (r : ContextPacket × AuditEvent)
      → Decides p decide
      → Lists p req.org_id Stored
      → Limits p
      → 0 < req.limit
      → candidates p now made principal req pol ≡ ok r
      → Cites r.0
  unfolding candidates Cites policy_limit
  candidates-Cites pol r d l b pos h =
      let limit = policy_limit req pol in
      let at = record req { limit = limit } in
      let (hs, e, h1) =
        >>=-eq-ok
          (p.search_candidates at.org_id (or_default at.query at.resource_id) limit
            (search_filters at))
          _ h in
      let (ds, f, h2) =
        >>=-eq-ok
          (p.batch_check (map (λ (x : SearchHit). read_check principal at x.resource_id) hs)) _
          h1 in
      (
        limit,
        ground arith,
        decided-CitesOnly p decide Stored principal at now made pol hs ds r d l
            (b.limited _ _ limit _ hs (ground arith) e) (d.pointwise _ ds f) h2,
      )

  admitted_search-Cites :
      (r : ContextPacket × AuditEvent)
      → Decides p decide
      → Lists p req.org_id Stored
      → Limits p
      → 0 < req.limit
      → admitted_search p now made principal req ≡ ok r
      → Cites r.0
  unfolding admitted_search
  admitted_search-Cites r d l b pos h =
      let (u, e0, h0) =
        >>=-eq-ok (gate_scopes (effective_scopes principal req) req.action p.allow_empty_scopes) _
          h in
      let (v, e1, h1) = >>=-eq-ok (check_delegation req.delegation req.purpose now) _ h0 in
      let (scope, e2, h2) =
        >>=-eq-ok
          (p.resolve_scope
            (record { principal = principal; action = req.action; consistency = req.consistency }))
          _ h1 in
      elim (Bool-cases (scope.reason_code == "AUTHZ_SCOPE_DENY")) [
        | inl y ↦ empty-Cites "AUTHZ_SCOPE_DENY" r (rw (y) at h2)
        | inr n ↦
            let (pol, e3, h3) =
              >>=-eq-ok (p.evaluate (policy_request principal req "internal" none req.limit)) _
                (rw (n) at h2) in
            elim (Bool-cases pol.allow) [
              | inl y ↦ candidates-Cites pol r d l b pos (rw (y) at h3)
              | inr k ↦ empty-Cites pol.reason_code r (rw (k) at h3)
            ]
      ]

search_defaults_bounds :
    (request : Request)
    → (0 < (search_defaults request).limit) × ((search_defaults request).limit ≤ 50)
unfolding search_defaults or_limit
search_defaults_bounds request = (ground arith, ground arith)

-- A packet of Search cites, to the principal that the credentials authenticate, only resources of
-- the principal's own organization that may be read, whose records are there, are not deleted and
-- pass the policy; at most 50; and its nodes and edges are of cited resources only. So it is where
-- the authorization provider decides each check of a batch by itself, the ledger lists stored
-- edges of the organization, and the index returns no more hits than it is asked for.
pub search_context-CitesOnly :
    (p : Pipeline) (decide : AuthzCheck → AuthzDecision) (Stored : String → GraphEdge → Type 0)
    (now : ℕ) (made : Made) (request : Request) (r : ContextPacket × AuditEvent)
    → Decides p decide
    → ((org : String) → Lists p org (Stored org))
    → Limits p
    → search_context p now made request ≡ ok r
    → (principal : Principal) × (p.authenticate request.credentials ≡ ok principal)
      × (limit : ℕ) × (limit ≤ 50)
      × CitesOnly p decide
          (Stored principal.org_id)
          principal
          (search_request request principal limit)
          r.0
unfolding search_context search_request search_defaults Cites
search_context-CitesOnly p decide Stored now made request r d l b h =
    let req = search_defaults request in
    let (principal, e, h1) = >>=-eq-ok (p.authenticate req.credentials) _ h in
    let (org, f, h2) = >>=-eq-ok (tenant_of principal req.org_id) _ h1 in
    let same = tenant_of-ok principal req.org_id org f in
    let (limit, le, only) =
      admitted_search-Cites p decide (Stored principal.org_id) principal
        (record req { org_id = principal.org_id }) now made r d (l principal.org_id) b
        (search_defaults_bounds request).0
        (subst (λ o. admitted_search p now made principal (record req { org_id = o }) ≡ ok r) same.0
          h2) in
    (principal, e, limit, omega (arith, le, (search_defaults_bounds request).1), only)
