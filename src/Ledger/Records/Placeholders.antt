-- ===== src/Ledger/Records/Placeholders.antt =====
-- Placeholder records: what stands for a resource that nobody has written yet.
use gontext.Base.{ℕ}
use gontext.Base.{String, string_eq, ◌==◌, eq_iff}
use gontext.Base.{◌≡◌, refl, ap, ◌≢◌, inl, inr}
use gontext.Base.{◌||◌, Option, none, some}
use gontext.Base.{arith, Bool-cases}
use gontext.Base.Dict.{get, put, remove, get2, get2-put2, get2-put2_self, get-remove}
use gontext.Ports.{LedgerRecord, lifecycle_accepted, lifecycle_placeholder, lifecycle_ensured}
use gontext.Platform.{Result, ok, err}
use gontext.Ledger.{Store, found, found-ok, or_now}
use gontext.Ledger.Records.{get_record, insert_placeholder, settled, promoted, promote_placeholder}

-- InsertPlaceholder never replaces a record: what GetRecord returned before, it returns after, for
-- every organization and resource.
pub insert-keeps :
    (rec : LedgerRecord) (now : ℕ) (s : Store) (org_id resource_id : String) (old : LedgerRecord)
    → get_record org_id resource_id s ≡ ok old
    → get_record org_id resource_id (insert_placeholder rec now s).1 ≡ ok old
unfolding get_record insert_placeholder found
insert-keeps rec now s org_id resource_id old h = ground (
  arith,
  h,
  found-ok (get2 s.records org_id resource_id) "record not found" old h,
  get2-put2 s.records rec.org_id rec.resource_id org_id resource_id (record rec {
    state = lifecycle_placeholder;
    created_at = or_now rec.created_at now;
    updated_at = now;
    attributes = put rec.attributes "placeholder" "true";
  }),
  eq_iff rec.org_id org_id,
  eq_iff rec.resource_id resource_id,
)

accepted_ne :
    (lifecycle_accepted ≢ lifecycle_placeholder) × (lifecycle_accepted ≢ lifecycle_ensured)
accepted_ne = (
  (λ e. absurd (ground (arith, eq_iff lifecycle_accepted lifecycle_placeholder))),
  (λ e. absurd (ground (arith, eq_iff lifecycle_accepted lifecycle_ensured))),
)

settled_lem :
    (state : String) → (settled state ≢ lifecycle_placeholder) × (settled state ≢ lifecycle_ensured)
unfolding settled
settled_lem state =
    elim (Bool-cases
      (state == "" || state == lifecycle_placeholder || state == lifecycle_ensured)) [
        | inl y ↦ rw (y) (accepted_ne.0, accepted_ne.1)
        | inr n ↦ rw (n) (
          (λ e. absurd (ground (arith, eq_iff state lifecycle_placeholder))),
          (λ e. absurd (ground (arith, eq_iff state lifecycle_ensured))),
        )
      ]

promoted-settles :
    (existing : Option LedgerRecord) (rec : LedgerRecord) (now : ℕ)
    → ((promoted existing rec now).state ≢ lifecycle_placeholder)
      × ((promoted existing rec now).state ≢ lifecycle_ensured)
      × (get (promoted existing rec now).attributes "placeholder" ≡ none)
      × (get (promoted existing rec now).attributes "ensured" ≡ none)
unfolding promoted
promoted-settles existing rec now = (
  (settled_lem rec.state).0,
  (settled_lem rec.state).1,
  ground (
    arith,
    get-remove (remove rec.attributes "placeholder") "ensured" "placeholder",
    get-remove rec.attributes "placeholder" "placeholder",
  ),
  ground (arith, get-remove (remove rec.attributes "placeholder") "ensured" "ensured"),
)

-- the creation time of the record that a promotion finds, or of a new one
unfoldable pub created_before : Result LedgerRecord → LedgerRecord → ℕ → ℕ
created_before (ok old) rec now = old.created_at
created_before (err e) rec now = or_now rec.created_at now

promoted-created :
    (existing : Option LedgerRecord) (rec : LedgerRecord) (now : ℕ)
    → (promoted existing rec now).created_at
      ≡ created_before (found existing "record not found") rec now
unfolding promoted created_before found
promoted-created none rec now = refl
promoted-created (some old) rec now = refl

-- A record that is promoted is returned with a state other than a placeholder's, without the two
-- placeholder attributes, and with the creation time of the record that it replaces, where there is
-- one.
promote-settles :
    (rec : LedgerRecord) (now : ℕ) (s : Store)
    → (new : LedgerRecord) × (get_record rec.org_id rec.resource_id
          (promote_placeholder rec now s).1
        ≡ ok new)
      × (new.state ≢ lifecycle_placeholder)
      × (new.state ≢ lifecycle_ensured)
      × (get new.attributes "placeholder" ≡ none)
      × (get new.attributes "ensured" ≡ none)
      × (new.created_at ≡ created_before (get_record rec.org_id rec.resource_id s) rec now)
unfolding get_record promote_placeholder promoted found
promote-settles rec now s =
    let existing = get2 s.records rec.org_id rec.resource_id in
    let (a, b, c, d) = promoted-settles existing rec now in
    (
      promoted existing rec now,
      ap (λ o. found o "record not found")
          (get2-put2_self s.records rec.org_id rec.resource_id (promoted existing rec now)),
      a,
      b,
      c,
      d,
      promoted-created existing rec now,
    )
