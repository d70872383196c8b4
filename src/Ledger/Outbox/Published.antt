-- ===== src/Ledger/Outbox/Published.antt =====
-- A published event is not claimed again.
use gontext.Base.{ℕ, zero, suc, ◌+◌}
use gontext.Base.{String, string_eq, contains}
use gontext.Base.{◌≡◌, subst, inl, inr}
use gontext.Base.{true, false, not, ◌||◌, List, [], ◌∷◌, map}
use gontext.Base.{arith, Bool-cases, is_some, select, All}
use gontext.Base.Sort.{All-take}
use gontext.Base.Dict.{Dict, put}
use gontext.Ports.{OutboxEntry}
use gontext.Platform.{ok, ok_injective}
use gontext.Ledger.{Store, or_limit, thirty_seconds}
use gontext.Ledger.Outbox.{
  held, stamped, kept, claim_entries, claim_outbox, publish, is_pending, list_outbox_pending,
  mark_outbox_published,
}

-- Every entry that the list of identifiers names is published.
unfoldable pub ArePublished : List String → List OutboxEntry → Type 0
ArePublished ids es = All (λ e. (not (contains ids e.id) || is_some e.published) ≡ true) es

publish-published :
    (ids : List String) (at : ℕ) (e : OutboxEntry)
    → (not (contains ids (publish ids at e).id) || is_some (publish ids at e).published) ≡ true
unfolding publish
publish-published ids at e = elim (Bool-cases (contains ids e.id)) [
  | inl y ↦ rw (y, publish) (ground arith)
  | inr n ↦ rw (n, publish) (ground arith)
]

pub publish-ArePublished :
    (ids : List String) (at : ℕ) (es : List OutboxEntry)
    → ArePublished ids (map (publish ids at) es)
unfolding ArePublished publish
publish-ArePublished ids at [] = tt
publish-ArePublished ids at (e ∷ es) = (publish-published ids at e, publish-ArePublished ids at es)

module _ (ids : List String) (now until : ℕ) (stamp : String) where
  claim-ArePublished :
      (es : List OutboxEntry) (leases : Dict ℕ) (room : ℕ)
      → ArePublished ids es
      → ArePublished ids (claim_entries now until stamp es leases room).rest
        × All (λ e. contains ids e.id ≡ false) (claim_entries now until stamp es leases room).taken
  unfolding claim_entries stamped kept ArePublished
  claim-ArePublished [] leases room a = (tt, tt)
  claim-ArePublished (e ∷ es) leases zero a = (a, tt)
  claim-ArePublished (e ∷ es) leases (suc room) (p, a) =
      elim (Bool-cases (is_some e.published || held leases e.id now)) [
        | inl b ↦ let (r, t) = claim-ArePublished es leases (suc room) a in rw (b) ((p, r), t)
        | inr b ↦
            let (r, t) = claim-ArePublished es (put leases e.id until) room a in
            let free : contains ids e.id ≡ false = elim (Bool-cases (contains ids e.id)) [
              | inl y ↦ absurd (ground (arith, p))
              | inr n ↦ n
            ] in
            rw (b) ((p, r), (free, t))
      ]

-- Once the identifiers are marked as published, a claim returns none of them, and leaves every one
-- of them published, so that no later claim returns it.
mark-claim :
    (ids : List String) (at limit now : ℕ) (stamp : String) (s : Store) (taken : List OutboxEntry)
    → (claim_outbox limit now stamp (mark_outbox_published ids at s).1).0 ≡ ok taken
    → All (λ e. contains ids e.id ≡ false) taken
      × ArePublished ids (claim_outbox limit now stamp (mark_outbox_published ids at s).1).1.outbox
unfolding claim_outbox mark_outbox_published
mark-claim ids at limit now stamp s taken h =
    let m = (mark_outbox_published ids at s).1 in
    let (r, t) =
      claim-ArePublished ids now (now + thirty_seconds) stamp m.outbox m.outbox_lease
        (or_limit limit 10) (publish-ArePublished ids at s.outbox) in
    (subst (λ xs. All (λ e. contains ids e.id ≡ false) xs) (ok_injective h) t, r)

published_not_pending :
    (ids : List String) (at : ℕ) (org_id : String) (e : OutboxEntry)
    → contains ids e.id ≡ true
    → is_pending org_id (publish ids at e) ≡ false
unfolding is_pending publish
published_not_pending ids at org_id e y = ground arith

publish_unnamed :
    (ids : List String) (at : ℕ) (e : OutboxEntry)
    → contains ids e.id ≡ false
    → contains ids (publish ids at e).id ≡ false
unfolding publish
publish_unnamed ids at e n = rw (n) n

select-published :
    (ids : List String) (at : ℕ) (org_id : String) (es : List OutboxEntry)
    → All (λ e. contains ids e.id ≡ false) (select (is_pending org_id) (map (publish ids at) es))
select-published ids at org_id [] = tt
select-published ids at org_id (e ∷ es) = elim (Bool-cases (contains ids e.id)) [
  | inl y ↦ rw (published_not_pending ids at org_id e y) (select-published ids at org_id es)
  | inr n ↦ elim (Bool-cases (is_pending org_id (publish ids at e))) [
    | inl y ↦ rw (y) (publish_unnamed ids at e n, select-published ids at org_id es)
    | inr w ↦ rw (w) (select-published ids at org_id es)
  ]
]

-- What is marked as published is gone from the list of pending events of every organization.
pub mark-pending :
    (ids : List String) (at limit : ℕ) (org_id : String) (s : Store)
    → All
        (λ e. contains ids e.id ≡ false)
        (list_outbox_pending org_id limit (mark_outbox_published ids at s).1)
unfolding mark_outbox_published list_outbox_pending
mark-pending ids at limit org_id s =
    All-take _ (or_limit limit 100) _ (select-published ids at org_id s.outbox)
