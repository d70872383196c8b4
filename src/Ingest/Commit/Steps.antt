-- ===== src/Ingest/Commit/Steps.antt =====
-- Each step of writeEdges succeeds on a mapped edge, and what it leaves alone.
use gontext.Base.{ℕ}
use gontext.Base.{String, string_eq, ◌==◌, eq_iff, contains}
use gontext.Base.{◌≡◌, refl, ap, subst, ◌∙◌, ◌≢◌, inl, inr}
use gontext.Base.{Bool, true, false, ◌||◌, some, List, [], ◌∷◌}
use gontext.Base.{arith, if◌then◌else◌, Bool-cases, Option-cases, is_some, All}
use gontext.Base.{number_eq}
use gontext.Base.Dict.{Dict2, inner, put, get2, put2, get2-put2}
use gontext.Ports.{LedgerRecord, GraphEdge, AuthzTupleOp}
use gontext.Platform.{ok, err, status_of, err_not_found}
use gontext.Ledger.{Store, Step, and_then, found}
use gontext.Ledger.Records.{get_record, insert_placeholder}
use gontext.Ledger.Edges.{upsert_edge, merge_edge, filled}
use gontext.Ledger.Tuples.{enqueue_authz_tuple, merge_op}
use gontext.Ledger.Tuples.{filled as filled_op}
use gontext.Sync.{operation_write, edge_op, enqueue_for_edge, needs_synchronization}
use gontext.Sync.Pending.{edge_op-full}
use gontext.Mapping.{CanonicalEdge, Host}
use gontext.Mapping.Edges.{is_malformed}
use gontext.Mapping.Edges.Sound.{IsSound}
use gontext.Ingest.Commit.{
  placeholder, is_not_found, forget, ensure_endpoint, ensure_new, mapped_graph_edge, ensure_ends,
  known_after, write_edge, write_edges,
}

abbrev pub Links : Type 0
Links = Dict2 GraphEdge → Dict2 GraphEdge

abbrev pub Work : Type 0
Work = Dict2 AuthzTupleOp → Dict2 AuthzTupleOp

-- A step that succeeds, changes the edges and the relationship writes as it says, and of the rest
-- only the records, where it keeps those that are there.
pub record Adds (link : Links) (work : Work) (s : Store) (r : Step (Unit {0})) : Type 0 where
  pub succeeds : r.0 ≡ ok tt
  pub rest :
      r.1
      ≡ record s { records = r.1.records; edges = link s.edges; authz_tuples = work s.authz_tuples }
  pub kept :
      (a b : String) (rec : LedgerRecord)
      → get2 s.records a b ≡ some rec
      → get2 r.1.records a b ≡ some rec

abbrev same {ℓ} : {A : Type ℓ} → A → A
same a = a

pub Adds-here : (s : Store) → Adds same same s (ok tt, s)
Adds-here s = record { succeeds = refl; rest = refl; kept = λ a b rec h. h }

pub Adds-then :
    (l m : Links) (v w : Work) (s : Store) (r : Step (Unit {0}))
    (next : Unit {0} → Store → Step (Unit {0}))
    → Adds l v s r
    → ((t : Store) → Adds m w t (next tt t))
    → Adds (λ d. m (l d)) (λ d. w (v d)) s (and_then r next)
unfolding and_then
Adds-then l m v w s (err e, t) next a k = absurd (cc (a.succeeds))
Adds-then l m v w s (ok u, t) next a k = record {
  succeeds = (k t).succeeds;
  rest =
      (k t).rest
      ∙ ap
          (λ (x : Store). record x {
            records = (next tt t).1.records;
            edges = m x.edges;
            authz_tuples = w x.authz_tuples;
          })
          a.rest;
  kept = λ x y rec h. (k t).kept x y rec (a.kept x y rec h);
}

-- A new entry of a map of maps leaves those that are there.
put2-kept :
    (m : Dict2 LedgerRecord) (a b c d : String) (v old : LedgerRecord)
    → is_some (get2 m a b) ≡ false
    → get2 m c d ≡ some old
    → get2 (put2 m a b v) c d ≡ some old
put2-kept m a b c d v old new h =
    ground (arith, get2-put2 m a b c d v, eq_iff a c, eq_iff b d, same_key)
  where
    same_key : a ≡ c → b ≡ d → is_some (get2 m c d) ≡ false
    same_key e f =
        subst (λ x. is_some (get2 m c x) ≡ false) f
          (subst (λ x. is_some (get2 m x b) ≡ false) e new)

insert_placeholder-Adds :
    (rec : LedgerRecord) (now : ℕ) (s : Store)
    → rec.org_id ≢ ""
    → rec.resource_id ≢ ""
    → Adds same same s (forget (insert_placeholder rec now s))
unfolding insert_placeholder forget
insert_placeholder-Adds rec now s org id =
    let named : (rec.org_id == "" || rec.resource_id == "") ≡ false =
      ground (arith, eq_iff rec.org_id "", eq_iff rec.resource_id "") in
    elim (Bool-cases (is_some (get2 s.records rec.org_id rec.resource_id))) [
      | inl y ↦ rw (named, y) (Adds-here s)
      | inr n ↦
          rw (named, n)
            (record {
              succeeds = refl;
              rest = refl;
              kept = λ a b old h. put2-kept s.records rec.org_id rec.resource_id a b _ old n h;
            })
    ]

pub missing : (message : String) → is_not_found (err_not_found message) ≡ true
unfolding is_not_found status_of err_not_found
missing message = ground arith

ensure_endpoint-Adds :
    (rec : LedgerRecord) (now : ℕ) (s : Store)
    → rec.org_id ≢ ""
    → Adds same same s (ensure_endpoint rec now s)
unfolding ensure_endpoint get_record found
ensure_endpoint-Adds rec now s org = elim (Bool-cases (rec.resource_id == "")) [
  | inl y ↦ rw (y) (Adds-here s)
  | inr n ↦ elim (Option-cases (get2 s.records rec.org_id rec.resource_id)) [
    | inr (old, e) ↦ rw (n, e, found) (Adds-here s)
    | inl e ↦
        rw (n, e, found, missing "record not found")
          (insert_placeholder-Adds rec now s org
            (λ z. absurd (ground (arith, eq_iff rec.resource_id ""))))
  ]
]

pub ensure_new-Adds :
    (is_known : Bool) (rec : LedgerRecord) (now : ℕ) (s : Store)
    → rec.org_id ≢ ""
    → Adds same same s (ensure_new is_known rec now s)
unfolding ensure_new
ensure_new-Adds true rec now s org = Adds-here s
ensure_new-Adds false rec now s org = ensure_endpoint-Adds rec now s org

-- The edges after UpsertEdge of one edge, and the relationship writes after the one it asks for.
unfoldable pub with_edge : GraphEdge → ℕ → String → Links
with_edge edge now fresh d =
    put d edge.org_id (merge_edge (inner d edge.org_id) (filled edge now fresh) now)

unfoldable pub with_work : GraphEdge → ℕ → String → Work
with_work edge now fresh d =
    let op = edge_op edge operation_write now fresh in
    if needs_synchronization edge
    then put d op.org_id (merge_op (inner d op.org_id) (filled_op op now fresh) now)
    else d

upsert_edge-Adds :
    (edge : GraphEdge) (now : ℕ) (fresh : String) (s : Store)
    → (edge.org_id == "" || edge.from_id == "" || edge.to_id == "" || edge.predicate == "") ≡ false
    → (edge.from_id == edge.to_id) ≡ false
    → Adds (with_edge edge now fresh) same s (upsert_edge edge now fresh s)
unfolding upsert_edge with_edge
upsert_edge-Adds edge now fresh s named apart =
    rw (named, apart, upsert_edge) (record { succeeds = refl; rest = refl; kept = λ a b rec h. h })

enqueue_for_edge-Adds :
    (edge : GraphEdge) (now : ℕ) (fresh : String) (s : Store)
    → edge.org_id ≢ ""
    → Adds same (with_work edge now fresh) s (enqueue_for_edge edge operation_write now fresh now s)
unfolding enqueue_for_edge enqueue_authz_tuple with_work
enqueue_for_edge-Adds edge now fresh s org = elim (Bool-cases (needs_synchronization edge)) [
  | inr n ↦ rw (n, with_work) (record { succeeds = refl; rest = refl; kept = λ a b rec h. h })
  | inl y ↦
      rw (y, with_work, edge_op-full edge operation_write now fresh org)
        (record { succeeds = refl; rest = refl; kept = λ a b rec h. h })
]

module _ (host : Host) (org_id : String) (now : ℕ) (fresh : String → String) where
  -- The edges after UpsertEdge of every mapped edge in turn.
  unfoldable pub linked : List CanonicalEdge → Links
  linked [] d = d
  linked (e ∷ es) d =
      let edge = mapped_graph_edge host org_id e now in
      linked es (with_edge edge now (fresh edge.edge_id) d)

  -- The relationship writes after those of every mapped edge in turn.
  unfoldable pub queued : List CanonicalEdge → Work
  queued [] d = d
  queued (e ∷ es) d =
      let edge = mapped_graph_edge host org_id e now in
      queued es (with_work edge now (fresh edge.edge_id) d)

module _ (host : Host) (org_id : String) (now : ℕ) (fresh : String → String)
    (named : org_id ≢ "") where
  pub ensure_ends-Adds :
      (e : CanonicalEdge) (known : List String) (s : Store)
      → Adds same same s (ensure_ends host org_id now fresh e known s)
  unfolding ensure_ends placeholder
  ensure_ends-Adds e known s = elim (Bool-cases e.ensure_endpoints) [
    | inr n ↦ rw (n) (Adds-here s)
    | inl y ↦ rw (y) (
        Adds-then same same same same s _ _
          (ensure_new-Adds (contains known e.from_id) _ now s named)
          (λ t. ensure_new-Adds (contains (e.from_id ∷ known) e.to_id) _ now t named))
  ]

  pub write_edge-Adds :
      (e : CanonicalEdge) (s : Store)
      → IsSound e
      → Adds
          (linked host org_id now fresh (e ∷ []))
          (queued host org_id now fresh (e ∷ []))
          s
          (write_edge host org_id now fresh e s)
  unfolding write_edge mapped_graph_edge IsSound is_malformed linked queued
  write_edge-Adds e s sound =
      let given : (org_id == "") ≡ false = ground (arith, eq_iff org_id "") in
      let edge = mapped_graph_edge host org_id e now in
      Adds-then (with_edge edge now (fresh edge.edge_id)) same same
        (with_work edge now (fresh edge.edge_id)) s _ _
        (upsert_edge-Adds edge now _ s (ground arith) (ground arith))
        (λ t. enqueue_for_edge-Adds edge now _ t named)

  -- Sound edges of a named organization are all written.
  pub write_edges-Adds :
      (es : List CanonicalEdge) (known : List String) (s : Store)
      → All IsSound es
      → Adds
          (linked host org_id now fresh es)
          (queued host org_id now fresh es)
          s
          (write_edges host org_id now fresh es known s)
  unfolding write_edges linked queued
  write_edges-Adds [] known s a = record { succeeds = refl; rest = refl; kept = λ a b rec h. h }
  write_edges-Adds (e ∷ es) known s (sound, a) =
      let one_link = linked host org_id now fresh (e ∷ []) in
      let one_work = queued host org_id now fresh (e ∷ []) in
      let more_links = linked host org_id now fresh es in
      let more_work = queued host org_id now fresh es in
      Adds-then same (λ d. more_links (one_link d)) same (λ d. more_work (one_work d)) s _ _
        (ensure_ends-Adds e known s)
        (λ t.
          Adds-then one_link more_links one_work more_work t _ _ (write_edge-Adds e t sound)
            (λ u. write_edges-Adds es (known_after host org_id now fresh e known) u a))
