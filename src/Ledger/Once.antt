-- ===== src/Ledger/Once.antt =====
-- The idempotency keys and the inbox of internal/adapters/memory/ledger.go: what makes an event be
-- taken once.
use gontext.Base.{ℕ}
use gontext.Base.{String, string_eq, eq_iff, concat}
use gontext.Base.{◌≡◌, refl, sym, ap, ◌∙◌, inl, inr}
use gontext.Base.{Bool, some, List, [], ◌∷◌}
use gontext.Base.{arith, if◌then◌else◌, Bool-cases, is_some}
use gontext.Base.{number_eq}
use gontext.Base.Dict.{get, put, get-put, get-put_self}
use text.Mathlib.TextLemmas.{append_assoc}
use gontext.Ports.{IdempotencyRecord}
use gontext.Platform.{Result, ok, err, err_conflict}
use gontext.Ledger.{Store, Step, InboxEntry, found, or_now}

-- orgID + "|" + key
unfoldable pub idempotency_index : String → String → String
idempotency_index org_id key = concat (concat org_id "|") key

-- GetIdempotency
unfoldable pub get_idempotency : String → String → Store → Result IdempotencyRecord
unfolding idempotency_index found
get_idempotency org_id key s =
    found (get s.idempotency (idempotency_index org_id key)) "idempotency key not found"

-- PutIdempotency
unfoldable pub put_idempotency : IdempotencyRecord → ℕ → Store → Step (Unit {0})
unfolding or_now
put_idempotency rec now s =
    if is_some (get s.idempotency (idempotency_index rec.org_id rec.idempotency_key))
    then (err (err_conflict "idempotency key exists"), s)
    else (
      ok tt,
      record s {
        idempotency =
            put s.idempotency (idempotency_index rec.org_id rec.idempotency_key)
              (record rec { created_at = or_now rec.created_at now });
      },
    )

-- orgID + "|" + consumer + "|" + msgID
unfoldable pub inbox_index : String → String → String → String
inbox_index org_id consumer msg_id =
    concat (concat (concat (concat org_id "|") consumer) "|") msg_id

-- PutInbox
unfoldable pub put_inbox : InboxEntry → Store → Store
put_inbox entry s = record s {
  inbox = put s.inbox (inbox_index entry.org_id entry.consumer entry.msg_id) entry;
}

-- HasInbox
unfoldable pub has_inbox : String → String → String → Store → Bool
has_inbox org_id consumer msg_id s = is_some (get s.inbox (inbox_index org_id consumer msg_id))

unfoldable pub put_all : List (IdempotencyRecord × ℕ) → Store → Store
put_all [] s = s
put_all ((rec, now) ∷ rs) s = put_all rs (put_idempotency rec now s).1

put-keeps :
    (rec : IdempotencyRecord) (now : ℕ) (s : Store) (k : String) (v : IdempotencyRecord)
    → get s.idempotency k ≡ some v
    → get (put_idempotency rec now s).1.idempotency k ≡ some v
unfolding put_idempotency
put-keeps rec now s k v h =
    let i = idempotency_index rec.org_id rec.idempotency_key in
    ground (
      arith,
      get-put s.idempotency i k (record rec { created_at = or_now rec.created_at now }),
      eq_iff i k,
    )

put_all-keeps :
    (rs : List (IdempotencyRecord × ℕ)) (s : Store) (k : String) (v : IdempotencyRecord)
    → get s.idempotency k ≡ some v
    → get (put_all rs s).idempotency k ≡ some v
unfolding put_all
put_all-keeps [] s k v h = h
put_all-keeps ((rec, now) ∷ rs) s k v h =
    put_all-keeps rs (put_idempotency rec now s).1 k v (put-keeps rec now s k v h)

put-stores :
    (rec : IdempotencyRecord) (now : ℕ) (s : Store)
    → (put_idempotency rec now s).0 ≡ ok tt
    → get
        (put_idempotency rec now s).1.idempotency
        (idempotency_index rec.org_id rec.idempotency_key)
      ≡ some (record rec { created_at = or_now rec.created_at now })
unfolding put_idempotency
put-stores rec now s h =
    let i = idempotency_index rec.org_id rec.idempotency_key in
    elim (Bool-cases (is_some (get s.idempotency i))) [
      | inl y ↦ absurd (ground arith)
      | inr n ↦ rw (n, put_idempotency) (get-put_self s.idempotency i _)
    ]

put-refused :
    (rec : IdempotencyRecord) (now : ℕ) (s : Store) (v : IdempotencyRecord)
    → get s.idempotency (idempotency_index rec.org_id rec.idempotency_key) ≡ some v
    → put_idempotency rec now s ≡ (err (err_conflict "idempotency key exists"), s)
unfolding put_idempotency
put-refused rec now s v h = rw (h, put_idempotency) refl

-- The first write of an idempotency key wins: once a key is written, the record is what
-- GetIdempotency returns after any writes that follow, and a second write of the key is refused
-- and changes nothing.
first_put-wins :
    (rec again : IdempotencyRecord) (now later : ℕ) (rs : List (IdempotencyRecord × ℕ)) (s : Store)
    → (put_idempotency rec now s).0 ≡ ok tt
    → again.org_id ≡ rec.org_id
    → again.idempotency_key ≡ rec.idempotency_key
    → (get_idempotency rec.org_id rec.idempotency_key (put_all rs (put_idempotency rec now s).1)
        ≡ ok (record rec { created_at = or_now rec.created_at now }))
      × (put_idempotency again later (put_all rs (put_idempotency rec now s).1)
          ≡ (err (err_conflict "idempotency key exists"), put_all rs (put_idempotency rec now s).1))
unfolding get_idempotency found put_idempotency
first_put-wins rec again now later rs s h same_org same_key =
    let i = idempotency_index rec.org_id rec.idempotency_key in
    let kept =
      put_all-keeps rs (put_idempotency rec now s).1 i
        (record rec { created_at = or_now rec.created_at now }) (put-stores rec now s h) in
    (
      ap (λ o. found o "idempotency key not found") kept,
      put-refused again later (put_all rs (put_idempotency rec now s).1)
          (record rec { created_at = or_now rec.created_at now }) (rw (same_org, same_key) kept),
    )

shared_index :
    (a b c : String)
    → idempotency_index a (concat (concat b "|") c) ≡ idempotency_index (concat (concat a "|") b) c
unfolding idempotency_index
shared_index a b c =
    ap (λ t. concat (concat a "|") t) (append_assoc b "|" c)
    ∙ sym (append_assoc (concat a "|") b (concat "|" c))
    ∙ sym (append_assoc (concat (concat a "|") b) "|" c)

-- The index does not keep tenants apart: once an organization whose identifier is `a|b` has
-- written the key c, the organization a reads that record under the key `b|c`.
pub put-get_other_tenant :
    (a b c : String) (rec : IdempotencyRecord) (now : ℕ) (s : Store)
    → rec.org_id ≡ concat (concat a "|") b
    → rec.idempotency_key ≡ c
    → (put_idempotency rec now s).0 ≡ ok tt
    → get_idempotency a (concat (concat b "|") c) (put_idempotency rec now s).1
      ≡ ok (record rec { created_at = or_now rec.created_at now })
unfolding get_idempotency found
put-get_other_tenant a b c rec now s org key h =
    let same : idempotency_index rec.org_id rec.idempotency_key
        ≡ idempotency_index a (concat (concat b "|") c) =
      ap (λ o. idempotency_index o rec.idempotency_key) org
      ∙ ap (λ k. idempotency_index (concat (concat a "|") b) k) key
      ∙ sym (shared_index a b c) in
    ap (λ o. found o "idempotency key not found")
      (ap (λ i. get (put_idempotency rec now s).1.idempotency i) (sym same)
        ∙ put-stores rec now s h)
