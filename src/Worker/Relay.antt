-- ===== src/Worker/Relay.antt =====
-- relayOnce of internal/application/worker.go. The bus is an argument, and so is the reading of a
-- payload's JSON; the index is there. The gauge of pending entries is left out.
use gontext.Base.{ℕ}
use gontext.Base.{String, string_eq, ◌==◌}
use gontext.Base.{◌≡◌, refl, ap, subst}
use gontext.Base.{true, Option, none, some, List, [], ◌∷◌, map}
use gontext.Base.{All, arith, if◌then◌else◌}
use gontext.Base.Dict.{Dict, put}
use gontext.Ports.{OutboxEntry}
use gontext.Platform.{Error, Result, ok, err, ok_injective}
use gontext.Ledger.{Store}
use gontext.Ledger.Outbox.{claim_outbox, mark_outbox_published, publish}
use gontext.Ledger.Outbox.Published.{ArePublished, publish-ArePublished}
use gontext.Index.{Index, text_of}
use gontext.Worker.{OutboxPayload, project_payload}

unfoldable pub headers_of : OutboxEntry → Dict String
headers_of e =
    let headers : Dict String = elim e.headers [ none ↦ [] | some h ↦ h ] in
    let event_id = if text_of headers "event_id" == "" then e.id else text_of headers "event_id" in
    put (put headers "Nats-Msg-Id" event_id) "event_id" event_id

-- an entry's identifier before those of the rest
unfoldable pub with_id :
    String → Result (List String) × Store × Index → Result (List String) × Store × Index
with_id id (err e, s, idx) = (err e, s, idx)
with_id id (ok ids, s, idx) = (ok (id ∷ ids), s, idx)

unfoldable pub ids_of : List OutboxEntry → List String
ids_of [] = []
ids_of (e ∷ es) = e.id ∷ ids_of es

-- The bus accepts the message of every entry.
unfoldable pub AreAccepted :
    (String → String → Dict String → Option Error) → List OutboxEntry → Type 0
AreAccepted send es = All (λ e. send e.subject e.payload (headers_of e) ≡ none) es

module _ (send : String → String → Dict String → Option Error)
    (parse : String → Option OutboxPayload) where
  -- The loop over the claimed entries. A projection that fails is logged and the loop goes on.
  unfoldable pub relay_entries :
      List OutboxEntry
      → ℕ
      → (String → String)
      → Store
      → Index
      → Result (List String) × Store × Index
  unfolding with_id
  relay_entries [] now fresh s idx = (ok [], s, idx)
  relay_entries (e ∷ es) now fresh s idx =
      let r = project_payload true (parse e.payload) now (fresh e.id) s idx in
      let rest = relay_entries es now fresh r.1 r.2 in
      elim (send e.subject e.payload (headers_of e)) [
        | some x ↦ (err x, s, idx)
        | none ↦ with_id e.id rest
      ]

  -- the mark, where every entry was sent
  unfoldable pub relayed :
      Result (List String) × Store × Index → ℕ → Result (Unit {0}) × Store × Index
  relayed (err e, s, idx) at = (err e, s, idx)
  relayed (ok ids, s, idx) at = let m = mark_outbox_published ids at s in (m.0, m.1, idx)

  -- with the claimed entries: nothing is to be done where there are none
  unfoldable pub relay_claimed :
      Result (List OutboxEntry)
      → ℕ
      → (String → String)
      → Store
      → Index
      → Result (Unit {0}) × Store × Index
  relay_claimed (err e) now fresh s idx = (err e, s, idx)
  relay_claimed (ok []) now fresh s idx = (ok tt, s, idx)
  relay_claimed (ok (e ∷ es)) now fresh s idx = relayed (relay_entries (e ∷ es) now fresh s idx) now

  -- relayOnce
  unfoldable pub relay_once :
      ℕ → ℕ → String → (String → String) → Store → Index → Result (Unit {0}) × Store × Index
  relay_once batch now stamp fresh s idx =
      let c = claim_outbox batch now stamp s in relay_claimed c.0 now fresh c.1 idx

  with_id-ok :
      (id : String) (ids : List String) (r : Result (List String) × Store × Index)
      → r.0 ≡ ok ids
      → (with_id id r).0 ≡ ok (id ∷ ids)
  unfolding with_id
  with_id-ok id ids (err e, s, idx) h = absurd (ground arith)
  with_id-ok id ids (ok rest, s, idx) h = ap (λ l. ok (id ∷ l)) (ok_injective h)

  relay_entries-ok :
      (es : List OutboxEntry) (now : ℕ) (fresh : String → String) (s : Store) (idx : Index)
      → AreAccepted send es
      → (relay_entries es now fresh s idx).0 ≡ ok (ids_of es)
  unfolding relay_entries ids_of AreAccepted
  relay_entries-ok [] now fresh s idx a = refl
  relay_entries-ok (e ∷ es) now fresh s idx (p, a) =
      let r = project_payload true (parse e.payload) now (fresh e.id) s idx in
      let rest = relay_entries es now fresh r.1 r.2 in
      rw (p, relay_entries)
        (with_id-ok e.id (ids_of es) rest (relay_entries-ok es now fresh r.1 r.2 a))

  relayed-publishes :
      (ids : List String) (r : Result (List String) × Store × Index) (now : ℕ)
      → r.0 ≡ ok ids
      → ((relayed r now).0 ≡ ok tt) × ArePublished ids (relayed r now).1.outbox
  unfolding relayed mark_outbox_published
  relayed-publishes ids (err e, s, idx) now h = absurd (ground arith)
  relayed-publishes ids (ok rest, s, idx) now h = (
    refl,
    subst (λ xs. ArePublished xs (map (publish rest now) s.outbox)) (ok_injective h)
        (publish-ArePublished rest now s.outbox),
  )

  none-ArePublished : (es : List OutboxEntry) → ArePublished [] es
  unfolding ArePublished
  none-ArePublished [] = tt
  none-ArePublished (e ∷ es) = (refl, none-ArePublished es)

  relay_claimed-publishes :
      (es : List OutboxEntry) (now : ℕ) (fresh : String → String) (s : Store) (idx : Index)
      → AreAccepted send es
      → ((relay_claimed (ok es) now fresh s idx).0 ≡ ok tt)
        × ArePublished (ids_of es) (relay_claimed (ok es) now fresh s idx).1.outbox
  unfolding relay_claimed ids_of
  relay_claimed-publishes [] now fresh s idx a = (refl, none-ArePublished s.outbox)
  relay_claimed-publishes (e ∷ es) now fresh s idx a =
      relayed-publishes (ids_of (e ∷ es)) (relay_entries (e ∷ es) now fresh s idx) now
        (relay_entries-ok (e ∷ es) now fresh s idx a)

  -- Where the bus accepts the message of every entry that the claim takes, the relay ends without
  -- an error and every one of these entries is published in the store it leaves, also an entry
  -- whose projection failed.
  pub relay_once-publishes :
      (batch now : ℕ) (stamp : String) (fresh : String → String) (s : Store) (idx : Index)
      (taken : List OutboxEntry)
      → (claim_outbox batch now stamp s).0 ≡ ok taken
      → AreAccepted send taken
      → ((relay_once batch now stamp fresh s idx).0 ≡ ok tt)
        × ArePublished (ids_of taken) (relay_once batch now stamp fresh s idx).1.outbox
  unfolding relay_once
  relay_once-publishes batch now stamp fresh s idx taken k a =
      let c = claim_outbox batch now stamp s in
      rw (k) (relay_claimed-publishes taken now fresh c.1 idx a)
