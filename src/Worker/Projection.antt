-- ===== src/Worker/Projection.antt =====
-- The projection of events into the search index.
use gontext.Base.{ℕ}
use gontext.Base.{String, string_eq, ◌==◌, eq_iff}
use gontext.Base.{◌≡◌, refl, sym, ap, subst, ◌∙◌, ◌≢◌, inl, inr}
use gontext.Base.{Bool, true, false, not, ◌&&◌, ◌||◌, some}
use gontext.Base.{arith, Bool-cases, is_some}
use gontext.Base.Dict.{get-put_self}
use gontext.Ports.{LedgerRecord, lifecycle_placeholder, lifecycle_ensured}
use gontext.Platform.{Result, ok, err}
use gontext.Ledger.{Store}
use gontext.Ledger.Records.{get_record}
use gontext.Ledger.Once.{has_inbox, put_inbox, inbox_index}
use gontext.Index.{Index, get_document}
use gontext.Index.Search.{upsert-get_document}
use gontext.Worker.{index_consumer, OutboxPayload, document, seen, project_record, project_payload}

has-put_inbox :
    (p : OutboxPayload) (now : ℕ) (fresh : String) (s : Store)
    → has_inbox p.org_id index_consumer p.event_id (seen p now fresh s) ≡ true
unfolding seen has_inbox put_inbox
has-put_inbox p now fresh s =
    ap is_some (get-put_self s.inbox (inbox_index p.org_id index_consumer p.event_id) _)

-- An event that is in the inbox is not projected again.
seen-skips :
    (has_index : Bool) (p : OutboxPayload) (now : ℕ) (fresh : String) (s : Store) (idx : Index)
    → has_inbox p.org_id index_consumer p.event_id s ≡ true
    → project_payload has_index (some p) now fresh s idx ≡ (ok tt, s, idx)
unfolding project_payload
seen-skips has_index p now fresh s idx h = elim (Bool-cases (p.org_id == "" || p.event_id == "")) [
  | inl y ↦ rw (y, project_payload) refl
  | inr n ↦ rw (n, h, project_payload) refl
]

-- A projection that succeeds leaves an event that names an organization and itself in the inbox.
project_record-seen :
    (r : Result LedgerRecord) (p : OutboxPayload) (now : ℕ) (fresh : String) (s : Store)
    (idx : Index)
    → (project_record r p now fresh s idx).0 ≡ ok tt
    → has_inbox p.org_id index_consumer p.event_id (project_record r p now fresh s idx).1 ≡ true
unfolding project_record
project_record-seen (err e) p now fresh s idx h = absurd (ground arith)
project_record-seen (ok rec) p now fresh s idx h =
    elim (Bool-cases (rec.state == lifecycle_placeholder || rec.state == lifecycle_ensured)) [
      | inl y ↦ rw (y, project_record) (has-put_inbox p now fresh s)
      | inr n ↦ rw (n, project_record) (has-put_inbox p now fresh s)
    ]

project-seen :
    (has_index : Bool) (p : OutboxPayload) (now : ℕ) (fresh : String) (s : Store) (idx : Index)
    → p.org_id ≢ ""
    → p.event_id ≢ ""
    → (project_payload has_index (some p) now fresh s idx).0 ≡ ok tt
    → has_inbox p.org_id index_consumer p.event_id
        (project_payload has_index (some p) now fresh s idx).1
      ≡ true
unfolding project_payload
project-seen has_index p now fresh s idx a b h =
    let blank : (p.org_id == "" || p.event_id == "") ≡ false =
      ground (arith, eq_iff p.org_id "", eq_iff p.event_id "") in
    elim (Bool-cases (has_inbox p.org_id index_consumer p.event_id s)) [
      | inl y ↦ rw (blank, y, project_payload) y
      | inr n ↦ elim (Bool-cases (has_index && not (p.resource_id == ""))) [
        | inl i ↦
            let same : project_payload has_index (some p) now fresh s idx
                ≡ project_record (get_record p.org_id p.resource_id s) p now fresh s idx =
              rw (blank, n, i, project_payload) refl in
            subst (λ o. has_inbox p.org_id index_consumer p.event_id o.1 ≡ true) (sym same)
              (project_record-seen _ p now fresh s idx (sym (ap (λ o. o.0) same) ∙ h))
        | inr i ↦ rw (blank, n, i, project_payload) (has-put_inbox p now fresh s)
      ]
    ]

-- An event is projected once: when a projection has succeeded, a second one of the same event, at
-- any time and whatever the index then is, succeeds and changes neither the ledger nor the index.
pub project-project :
    (has_index : Bool) (p : OutboxPayload) (now later : ℕ) (fresh fresh' : String) (s : Store)
    (idx idx' : Index)
    → p.org_id ≢ ""
    → p.event_id ≢ ""
    → (project_payload has_index (some p) now fresh s idx).0 ≡ ok tt
    → project_payload has_index
        (some p)
        later
        fresh'
        (project_payload has_index (some p) now fresh s idx).1
        idx'
      ≡ (ok tt, (project_payload has_index (some p) now fresh s idx).1, idx')
project-project has_index p now later fresh fresh' s idx idx' a b h =
    seen-skips has_index p later fresh' _ idx' (project-seen has_index p now fresh s idx a b h)

-- An event that is projected after its record was deleted puts the record back into the index: of a
-- record in any state but a placeholder's, GetDocument returns the document made of it.
pub project-get_document :
    (p : OutboxPayload) (now : ℕ) (fresh : String) (s : Store) (idx : Index) (rec : LedgerRecord)
    → p.org_id ≢ ""
    → p.event_id ≢ ""
    → p.resource_id ≢ ""
    → has_inbox p.org_id index_consumer p.event_id s ≡ false
    → get_record p.org_id p.resource_id s ≡ ok rec
    → rec.state ≢ lifecycle_placeholder
    → rec.state ≢ lifecycle_ensured
    → get_document p.org_id p.resource_id (project_payload true (some p) now fresh s idx).2
      ≡ some (document p rec)
unfolding project_payload project_record document
project-get_document p now fresh s idx rec a b c unseen found x y =
    let blank : (p.org_id == "" || p.event_id == "") ≡ false =
      ground (arith, eq_iff p.org_id "", eq_iff p.event_id "") in
    let named : not (p.resource_id == "") ≡ true = ground (arith, eq_iff p.resource_id "") in
    let settled : (rec.state == lifecycle_placeholder || rec.state == lifecycle_ensured) ≡ false =
      ground (arith, eq_iff rec.state lifecycle_placeholder, eq_iff rec.state lifecycle_ensured) in
    rw (blank, unseen, named, found, settled, project_payload, project_record)
      (ground (
        arith,
        upsert-get_document (document p rec) idx p.org_id p.resource_id,
        eq_iff p.org_id p.org_id,
        eq_iff p.resource_id p.resource_id,
      ))
