-- ===== src/Ledger/Outbox.antt =====
-- EnqueueOutbox, ClaimOutbox, ListOutboxPending and MarkOutboxPublished of
-- internal/adapters/memory/ledger.go: the events that wait to be published.
pub mod Leases
pub mod Published
use gontext.Base.{ℕ, zero, suc, ◌+◌}
use gontext.Base.{String, string_eq, ◌==◌, contains}
use gontext.Base.{Bool, false, not, ◌&&◌, ◌||◌, none, some, List, [], ◌∷◌, ◌++◌, map}
use gontext.Base.{ltb, if◌then◌else◌, is_some, take, select}
use gontext.Base.Dict.{Dict, get, put, remove}
use gontext.Ports.{OutboxEntry}
use gontext.Platform.{ok}
use gontext.Ledger.{Store, Step, or_now, or_default, or_limit, thirty_seconds}

unfoldable pub enqueue_outbox : OutboxEntry → ℕ → String → Store → Step (Unit {0})
enqueue_outbox entry now fresh s = (
  ok tt,
  record s {
    outbox =
        s.outbox
        ++ record entry { id = or_default entry.id fresh; created_at = or_now entry.created_at now }
          ∷ [];
  },
)

-- `until, ok := s.outboxLease[e.ID]; ok && until.After(now)`
unfoldable pub held : Dict ℕ → String → ℕ → Bool
held leases id now = elim (get leases id) [ none ↦ false | some until ↦ ltb now until ]

-- The entry that a claim returns: its headers are made where there are none.
unfoldable pub stamped : String → OutboxEntry → OutboxEntry
stamped stamp e = record e {
  headers = elim e.headers [
    | none ↦ some (put [] "leased_at" stamp)
    | some h ↦ some (put h "leased_at" stamp)
  ];
}

-- The entry that stays in the outbox shares its headers with the claimed one where it has some.
unfoldable pub kept : String → OutboxEntry → OutboxEntry
kept stamp e = record e {
  headers = elim e.headers [ none ↦ none | some h ↦ some (put h "leased_at" stamp) ];
}

pub record OutboxClaim : Type 0 where
  pub taken : List OutboxEntry
  pub rest : List OutboxEntry
  pub leases : Dict ℕ

-- The loop over the outbox. With no room it has stopped.
unfoldable pub claim_entries : ℕ → ℕ → String → List OutboxEntry → Dict ℕ → ℕ → OutboxClaim
claim_entries now until stamp [] leases room = record { taken = []; rest = []; leases = leases }
claim_entries now until stamp (e ∷ es) leases zero = record {
  taken = [];
  rest = e ∷ es;
  leases = leases;
}
claim_entries now until stamp (e ∷ es) leases (suc room) =
    let skip = claim_entries now until stamp es leases (suc room) in
    let take = claim_entries now until stamp es (put leases e.id until) room in
    if is_some e.published || held leases e.id now
    then record { taken = skip.taken; rest = e ∷ skip.rest; leases = skip.leases }
    else record {
      taken = stamped stamp e ∷ take.taken;
      rest = kept stamp e ∷ take.rest;
      leases = take.leases;
    }

unfoldable pub claim_outbox : ℕ → ℕ → String → Store → Step (List OutboxEntry)
unfolding or_limit
claim_outbox limit now stamp s =
    let c =
      claim_entries now (now + thirty_seconds) stamp s.outbox s.outbox_lease (or_limit limit 10) in
    (ok c.taken, record s { outbox = c.rest; outbox_lease = c.leases })

unfoldable pub is_pending : String → OutboxEntry → Bool
is_pending org_id e =
    not (is_some e.published) && not (not (org_id == "") && not (e.org_id == org_id))

unfoldable pub list_outbox_pending : String → ℕ → Store → List OutboxEntry
unfolding or_limit
list_outbox_pending org_id limit s = take (or_limit limit 100) (select (is_pending org_id) s.outbox)

remove_all : List String → Dict ℕ → Dict ℕ
remove_all [] leases = leases
remove_all (id ∷ ids) leases = remove_all ids (remove leases id)

unfoldable pub publish : List String → ℕ → OutboxEntry → OutboxEntry
publish ids at e = if contains ids e.id then record e { published = some at } else e

unfoldable pub mark_outbox_published : List String → ℕ → Store → Step (Unit {0})
unfolding remove_all
mark_outbox_published ids at s = (
  ok tt,
  record s { outbox_lease = remove_all ids s.outbox_lease; outbox = map (publish ids at) s.outbox },
)
