-- ===== src/Deletion/Frames.antt =====
-- What the saga's steps leave of the records.
use gontext.Base.{ℕ}
use gontext.Base.{String, string_eq, ◌==◌, eq_iff}
use gontext.Base.{◌≡◌, refl, ap, ◌∙◌, ◌≢◌, inl, inr}
use gontext.Base.{Bool, true, false, not, ◌||◌, List, [], ◌∷◌}
use gontext.Base.{arith, if◌then◌else◌, Option-cases}
use gontext.Base.Dict.{get2, get2-put2_self}
use gontext.Ports.{LedgerRecord, GraphEdge, AuditEvent}
use gontext.Platform.{ok, err}
use gontext.Ledger.{Store, Step, and_then, found, or_now}
use gontext.Ledger.Records.{get_record, upsert_record, append_revision}
use gontext.Ledger.Edges.{tombstone_edge}
use gontext.Ledger.Tuples.{enqueue_authz_tuple}
use gontext.Ledger.Feed.{append_audit}
use gontext.Audit.{append}
use gontext.Sync.{enqueue_for_edge, edge_op, needs_synchronization}
use gontext.Deletion.{Request, Fresh, Clock, tomb, drop_edges, revoke_visibility}

-- A step leaves the records as they are.
abbrev pub KeepsRecords {ℓ} : {A : Type ℓ} → (Store → Step A) → Type 0
KeepsRecords f = (s : Store) → (f s).1.records ≡ s.records

and_then-records {ℓ κ} :
    {A : Type ℓ} {B : Type κ} (first : Step A) (next : A → Store → Step B) (s : Store)
    → first.1.records ≡ s.records
    → ((a : A) → KeepsRecords (next a))
    → (and_then first next).1.records ≡ s.records
unfolding and_then
and_then-records (ok a, s1) next s h k = k a s1 ∙ h
and_then-records (err e, s1) next s h k = h

tombstone_edge-records :
    (org id : String) (now : ℕ) (s : Store) → (tombstone_edge org id now s).1.records ≡ s.records
unfolding tombstone_edge
tombstone_edge-records org id now s = elim (Option-cases (get2 s.edges org id)) [
  | inl e ↦ rw (e, tombstone_edge) refl
  | inr (x, e) ↦ rw (e, tombstone_edge) refl
]

guarded-records {ℓ} :
    {A : Type ℓ} (b : Bool) (x y : Step A) (s : Store)
    → x.1.records ≡ s.records
    → y.1.records ≡ s.records
    → (if b then x else y).1.records ≡ s.records
guarded-records true x y s p q = p
guarded-records false x y s p q = q

enqueue_for_edge-records :
    (e : GraphEdge) (operation : String) (now : ℕ) (fresh : String) (clock : ℕ) (s : Store)
    → (enqueue_for_edge e operation now fresh clock s).1.records ≡ s.records
unfolding enqueue_for_edge enqueue_authz_tuple
enqueue_for_edge-records e operation now fresh clock s =
    let op = edge_op e operation now fresh in
    guarded-records (not (needs_synchronization e)) _ _ s refl (
      guarded-records (op.org_id == "" || op.object == "" || op.relation == "" || op.subject == "")
        _ _ s refl refl)

drop_edges-records :
    (org : String) (fresh : Fresh) (clock : Clock) (es : List GraphEdge)
    → KeepsRecords (drop_edges org fresh clock es)
unfolding drop_edges
drop_edges-records org fresh clock [] s = refl
drop_edges-records org fresh clock (e ∷ es) s =
    and_then-records (tombstone_edge org e.edge_id clock.store s) _ s
      (tombstone_edge-records org e.edge_id clock.store s)
      (λ done s1.
        and_then-records _ _ s1 (enqueue_for_edge-records e _ _ _ clock.store s1)
          (λ done2 s2. drop_edges-records org fresh clock es s2))

pub append-records :
    (e : AuditEvent) (now : ℕ) (fresh : String) (s : Store)
    → (append e now fresh s).records ≡ s.records
unfolding append append_audit
append-records e now fresh s = refl

pub get_record-frame :
    (org id : String) (s t : Store)
    → t.records ≡ s.records
    → get_record org id t ≡ get_record org id s
unfolding get_record
get_record-frame org id s t h = ap (λ m. found (get2 m org id) "record not found") h

pub upsert-get_own :
    (rec : LedgerRecord) (now : ℕ) (s : Store)
    → rec.org_id ≢ ""
    → rec.resource_id ≢ ""
    → get_record rec.org_id rec.resource_id (upsert_record rec now s).1
      ≡ ok (record rec { created_at = or_now rec.created_at now; updated_at = now })
unfolding get_record upsert_record
upsert-get_own rec now s a b =
    let blank : (rec.org_id == "" || rec.resource_id == "") ≡ false =
      ground (arith, eq_iff rec.org_id "", eq_iff rec.resource_id "") in
    rw (blank, upsert_record)
      (ap (λ o. found o "record not found")
        (get2-put2_self s.records rec.org_id rec.resource_id
          (record rec { created_at = or_now rec.created_at now; updated_at = now })))

-- However the transaction ends, the record is stored in its new state.
pub revoke-get_record :
    (req : Request) (rec : LedgerRecord) (fresh : Fresh) (clock : Clock) (s : Store)
    → rec.org_id ≢ ""
    → rec.resource_id ≢ ""
    → get_record rec.org_id rec.resource_id (revoke_visibility req rec fresh clock s).1
      ≡ ok (record rec { created_at = or_now rec.created_at clock.store; updated_at = clock.store })
unfolding revoke_visibility append_revision and_then
revoke-get_record req rec fresh clock s a b =
    let s1 = (append_revision (tomb req fresh clock) clock.store s).1 in
    let x = upsert_record rec clock.store s1 in
    get_record-frame rec.org_id rec.resource_id x.1 _
      (and_then-records x _ x.1 refl (λ done s2. drop_edges-records req.org_id fresh clock _ s2))
    ∙ upsert-get_own rec clock.store s1 a b
