-- ===== src/Ingest/Commit/Outcome.antt =====
-- The transaction of Intake, for sound edges and a key that is free: it refuses before its first
-- write, or every write of it is there.
use gontext.Base.{ℕ}
use gontext.Base.{String, string_eq, ◌==◌, eq_iff}
use gontext.Base.{◌≡◌, refl, ap, subst, sym, ◌∙◌, ◌≢◌, ◌⊎◌, inl, inr}
use gontext.Base.{Bool, false, ◌&&◌, Option, none, some, List, [], ◌∷◌}
use gontext.Base.{arith, ◌++◌, Bool-cases, Option-cases, is_some, All}
use gontext.Base.{number_eq}
use gontext.Base.Dict.{Dict, Dict2, put, put2, get, get2, get2-put2, get2-put2_self, get-put_self}
use gontext.Ports.{LedgerRecord, IdempotencyRecord}
use gontext.Platform.{ok, err, Error, ok_injective, Result-cases}
use gontext.Ledger.{Store, Step, and_then, found, or_now, or_default}
use gontext.Ledger.Records.{get_record, promote_placeholder, promoted, append_revision}
use gontext.Ledger.Outbox.{enqueue_outbox}
use gontext.Ledger.Once.{put_idempotency, idempotency_index}
use gontext.Mapping.{CanonicalEdge, Host}
use gontext.Mapping.Edges.Sound.{IsSound}
use gontext.Ingest.Commit.{
  Writes, write_edges, write_all, seed_of, put_once, merged, write_merged, commit,
}
use gontext.Ingest.{is_source_of_truth, would_overwrite, preserve}
use gontext.Ingest.Commit.Steps.{linked, queued, write_edges-Adds, missing}
use gontext.Ingest.Commit.Ends.{HasEnds, IsKnown, All-kept, and_then-ok, write_edges-HasEnds}

-- No record stands under the key that is to be written.
unfoldable pub IsFree : Option IdempotencyRecord → Store → Type 0
IsFree none s = Unit
IsFree (some r) s =
    is_some (get s.idempotency (idempotency_index r.org_id r.idempotency_key)) ≡ false

unfoldable pub Remembers : Option IdempotencyRecord → ℕ → Store → Type 0
Remembers none now t = Unit
Remembers (some r) now t =
    get t.idempotency (idempotency_index r.org_id r.idempotency_key)
    ≡ some (record r { created_at = or_now r.created_at now })

-- The idempotency keys with the one that is to be written.
unfoldable pub keyed :
    Option IdempotencyRecord → ℕ → Dict IdempotencyRecord → Dict IdempotencyRecord
keyed none now d = d
keyed (some r) now d =
    put d (idempotency_index r.org_id r.idempotency_key)
      (record r { created_at = or_now r.created_at now })

-- The store with all that the transaction writes, its records aside.
unfoldable pub with_all :
    Host → String → ℕ → (String → String) → List CanonicalEdge → Writes → Store → Store → Store
with_all host org_id now fresh edges w s t = record s {
  records = t.records;
  revisions =
      put2 s.revisions w.revision.org_id w.revision.revision_id
        (record w.revision { created_at = or_now w.revision.created_at now });
  edges = linked host org_id now fresh edges s.edges;
  authz_tuples = queued host org_id now fresh edges s.authz_tuples;
  outbox =
      s.outbox
      ++ record w.entry {
        id = or_default w.entry.id w.entry.id;
        created_at = or_now w.entry.created_at now;
      }
        ∷ [];
  idempotency = keyed w.once now s.idempotency;
}

-- What the transaction leaves: the record as PromotePlaceholder makes it, the other records that
-- were there, a record at both ends of each edge that asks for them, and beside the records the
-- revision, the edges and their relationship writes, the entry of the outbox and the idempotency
-- key, added to a store that is otherwise as it was.
pub record Written (host : Host) (org_id : String) (now : ℕ) (fresh : String → String)
    (edges : List CanonicalEdge) (rec : LedgerRecord) (w : Writes) (s t : Store) : Type 0 where
  pub stored :
      get2 t.records rec.org_id rec.resource_id
      ≡ some (promoted (get2 s.records rec.org_id rec.resource_id) rec now)
  pub others :
      (a b : String) (old : LedgerRecord)
      → (rec.org_id == a && rec.resource_id == b) ≡ false
      → get2 s.records a b ≡ some old
      → get2 t.records a b ≡ some old
  pub ends : All (HasEnds org_id t) edges
  pub rest : t ≡ with_all host org_id now fresh edges w s t
  pub remembered : Remembers w.once now t

put_once_lem :
    (once : Option IdempotencyRecord) (now : ℕ) (s : Store)
    → IsFree once s
    → put_once once now s ≡ (ok tt, record s { idempotency = keyed once now s.idempotency })
unfolding put_once put_idempotency IsFree keyed
put_once_lem none now s free = refl
put_once_lem (some r) now s free = rw (free, put_once, put_idempotency) refl

keyed-Remembers :
    (once : Option IdempotencyRecord) (now : ℕ) (s : Store)
    → Remembers once now (record s { idempotency = keyed once now s.idempotency })
unfolding keyed Remembers
keyed-Remembers none now s = tt
keyed-Remembers (some r) now s =
    get-put_self s.idempotency (idempotency_index r.org_id r.idempotency_key) _

IsFree-keys :
    (once : Option IdempotencyRecord) (s t : Store)
    → t.idempotency ≡ s.idempotency
    → IsFree once s
    → IsFree once t
unfolding IsFree
IsFree-keys none s t e free = tt
IsFree-keys (some r) s t e free =
    ap
      (λ (d : Dict IdempotencyRecord).
        is_some (get d (idempotency_index r.org_id r.idempotency_key)))
      e
    ∙ free

-- The record that the transaction just wrote is the one that writeEdges knows first.
seed-IsKnown :
    (org_id : String) (rec : LedgerRecord) (now : ℕ) (s : Store)
    → rec.org_id ≡ org_id
    → IsKnown org_id (seed_of rec.resource_id) (promote_placeholder rec now s).1
unfolding promote_placeholder seed_of
seed-IsKnown org_id rec now s org id h = elim (Bool-cases (rec.resource_id == "")) [
  | inl y ↦ absurd (cc (rw (y) at h))
  | inr n ↦
      let is_id : rec.resource_id ≡ id = ground (arith, eq_iff rec.resource_id id, rw (n) at h) in
      ap (λ o. is_some (get2 (promote_placeholder rec now s).1.records o id)) (sym org)
      ∙ ap (λ i. is_some (get2 (promote_placeholder rec now s).1.records rec.org_id i)) (sym is_id)
      ∙ ap is_some (get2-put2_self s.records rec.org_id rec.resource_id _)
]

pub answered :
    (r : Step (Unit {0})) (new : LedgerRecord)
    → r.0 ≡ ok tt
    → and_then r (λ done s1. (ok new, s1)) ≡ (ok new, r.1)
unfolding and_then
answered (ok u, t) new h = refl
answered (err e, t) new h = cc

other_kept :
    (m : Dict2 LedgerRecord) (a b c d : String) (v old : LedgerRecord)
    → (a == c && b == d) ≡ false
    → get2 m c d ≡ some old
    → get2 (put2 m a b v) c d ≡ some old
other_kept m a b c d v old ne h = ground (arith, get2-put2 m a b c d v)

pub merged-keys :
    (generated : Bool) (rec : LedgerRecord) (old : Option LedgerRecord) (new : LedgerRecord)
    (now : ℕ)
    → merged generated rec old now ≡ ok new
    → (new.org_id ≡ rec.org_id) × (new.resource_id ≡ rec.resource_id)
unfolding merged preserve
merged-keys generated rec none new now h =
    subst (λ (x : LedgerRecord). (x.org_id ≡ rec.org_id) × (x.resource_id ≡ rec.resource_id))
      (ok_injective h) (refl, refl)
merged-keys generated rec (some old) new now h =
    let keeps = λ (x : LedgerRecord). (x.org_id ≡ rec.org_id) × (x.resource_id ≡ rec.resource_id) in
    elim (Bool-cases (generated && is_source_of_truth old && would_overwrite old rec)) [
      | inl y ↦ absurd (cc (rw (y, merged) at h))
      | inr n ↦ elim (Bool-cases (generated && is_source_of_truth old)) [
        | inl y ↦ subst keeps (ok_injective (rw (n, y, merged) at h)) (refl, refl)
        | inr m ↦ subst keeps (ok_injective (rw (n, m, merged) at h)) (refl, refl)
      ]
    ]

module _ (host : Host) (org_id : String) (now : ℕ) (fresh : String → String)
    (named : org_id ≢ "") where
  pub write_all-Written :
      (rec : LedgerRecord) (edges : List CanonicalEdge) (w : Writes) (s : Store)
      → rec.org_id ≡ org_id
      → All IsSound edges
      → IsFree w.once s
      → ((write_all host org_id now fresh rec edges w s).0 ≡ ok tt)
        × Written host org_id now fresh edges rec w s
            (write_all host org_id now fresh rec edges w s).1
  unfolding write_all promote_placeholder append_revision enqueue_outbox and_then with_all
  write_all-Written rec edges w s org sound free =
      let s2 = (append_revision w.revision now (promote_placeholder rec now s).1).1 in
      let e = write_edges host org_id now fresh edges (seed_of rec.resource_id) s2 in
      let a =
        write_edges-Adds host org_id now fresh named edges (seed_of rec.resource_id) s2 sound in
      let s4 = (enqueue_outbox w.entry now w.entry.id e.1).1 in
      let t : Store = record s4 { idempotency = keyed w.once now s4.idempotency } in
      let has_ends =
        write_edges-HasEnds host org_id now fresh named edges (seed_of rec.resource_id) s2 sound
          (seed-IsKnown org_id rec now s org) in
      let whole =
        and_then-ok e
          (λ written s3.
            and_then (enqueue_outbox w.entry now w.entry.id s3)
              (λ queued s5. put_once w.once now s5))
          a.succeeds
        ∙ put_once_lem w.once now s4
            (IsFree-keys w.once s s4 (ap (λ (x : Store). x.idempotency) a.rest) free) in
      subst
        (λ (r : Step (Unit {0})). (r.0 ≡ ok tt) × Written host org_id now fresh edges rec w s r.1)
        (sym whole)
        (
          refl,
          record {
            stored =
                a.kept rec.org_id rec.resource_id _
                  (get2-put2_self s.records rec.org_id rec.resource_id _);
            others = λ x y old ne h. a.kept x y old (
                other_kept s.records rec.org_id rec.resource_id x y
                  (promoted (get2 s.records rec.org_id rec.resource_id) rec now) old ne h);
            ends = All-kept org_id e.1 t edges (λ x y old h. h) has_ends;
            rest =
                ap
                  (λ (x : Store). record x {
                    outbox = (enqueue_outbox w.entry now w.entry.id x).1.outbox;
                    idempotency = keyed w.once now x.idempotency;
                  })
                  a.rest;
            remembered = keyed-Remembers w.once now s4;
          },
        )

  -- The transaction refuses at once and changes nothing, or writes the merged record and all else.
  unfoldable pub IsDecided :
      Bool → LedgerRecord → List CanonicalEdge → Writes → Store → Step LedgerRecord → Type 0
  IsDecided generated rec edges w s r =
      ((e : Error) × (r ≡ (err e, s)))
      ⊎ ((old : Option LedgerRecord) × (new : LedgerRecord) × (get2 s.records org_id rec.resource_id
            ≡ old)
          × (merged generated rec old now ≡ ok new)
          × (r.0 ≡ ok new)
          × Written host org_id now fresh edges new w s r.1)

  write_merged-IsDecided :
      (generated : Bool) (rec : LedgerRecord) (old : Option LedgerRecord)
      (edges : List CanonicalEdge) (w : Writes) (s : Store)
      → rec.org_id ≡ org_id
      → get2 s.records org_id rec.resource_id ≡ old
      → All IsSound edges
      → IsFree w.once s
      → IsDecided generated rec edges w s
          (write_merged host org_id now fresh (merged generated rec old now) edges w s)
  unfolding write_merged IsDecided and_then
  write_merged-IsDecided generated rec old edges w s org e sound free =
      elim (Result-cases (merged generated rec old now)) [
        | inl (x, m) ↦ rw (m, write_merged) (inl (x, refl))
        | inr (new, m) ↦
            let (fine, written) =
              write_all-Written new edges w s ((merged-keys generated rec old new now m).0 ∙ org)
                sound free in
            rw (m, write_merged, answered (write_all host org_id now fresh new edges w s) new fine)
              (inr (old, new, e, m, refl, written))
      ]

  pub commit-IsDecided :
      (generated : Bool) (rec : LedgerRecord) (edges : List CanonicalEdge) (w : Writes) (s : Store)
      → rec.org_id ≡ org_id
      → All IsSound edges
      → IsFree w.once s
      → IsDecided generated rec edges w s (commit host org_id now fresh generated rec edges w s)
  unfolding commit get_record found
  commit-IsDecided generated rec edges w s org sound free =
      elim (Option-cases (get2 s.records org_id rec.resource_id)) [
        | inl e ↦
            rw (e, commit, missing "record not found")
              (write_merged-IsDecided generated rec none edges w s org e sound free)
        | inr (old, e) ↦
            rw (e, commit)
              (write_merged-IsDecided generated rec (some old) edges w s org e sound free)
      ]
