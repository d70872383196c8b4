-- ===== src/Audit.antt =====
-- internal/audit/audit.go: what an audited action leaves in the log.
use gontext.Base.{ℕ, ◌≤◌}
use gontext.Base.{String, string_eq, eq_iff, contains, lower}
use gontext.Base.{◌≡◌, refl, ◌∙◌, inl, inr}
use gontext.Base.{Bool, false, not, none, some, List, [], ◌∷◌, ◌++◌}
use gontext.Base.{
  arith, ltb, if◌then◌else◌, Bool-cases, Option-cases, length, take, select, All, length-take-le,
}
use gontext.Base.Dict.{Dict, or_empty, log_of}
use gontext.Ports.{AuditEvent}
use gontext.Ledger.{Store, or_now, or_default}
use gontext.Ledger.Feed.{append_audit, log_of-append}

-- forbiddenAttrKeys
abbrev pub forbidden_attr_keys : List String
forbidden_attr_keys =
    "query" ∷ "q" ∷ "content" ∷ "body" ∷ "token" ∷ "access_token" ∷ "refresh_token"
    ∷ "authorization" ∷ "api_key" ∷ "password" ∷ "secret" ∷ "raw" ∷ []

unfoldable pub is_forbidden : String → Bool
is_forbidden k = contains forbidden_attr_keys (lower k)

unfoldable pub clean : Dict String → Dict String
clean attributes = select (λ a. not (is_forbidden a.0)) attributes

-- sanitize: an event without attributes is returned as it is.
unfoldable pub sanitize : AuditEvent → AuditEvent
sanitize e = elim e.attributes [
  | none ↦ e
  | some attributes ↦ record e {
    attributes = some (clean attributes);
    resource_ids_sample =
        if ltb 16 (length e.resource_ids_sample)
        then take 16 e.resource_ids_sample
        else e.resource_ids_sample;
  }
]

-- LedgerLogger.Append with a writer
unfoldable pub append : AuditEvent → ℕ → String → Store → Store
unfolding or_now or_default
append event now fresh s =
    let e = sanitize event in
    append_audit
      (record e { audit_id = or_default e.audit_id fresh; created_at = or_now e.created_at now }) s

-- What the log must not hold: a forbidden attribute, or a sample of more than 16 resources.
unfoldable pub IsClean : AuditEvent → Type 0
IsClean e =
    All (λ a. is_forbidden a.0 ≡ false) (or_empty e.attributes)
    × (length e.resource_ids_sample ≤ 16)

clean_lem : (m : Dict String) → All (λ a. is_forbidden a.0 ≡ false) (clean m)
unfolding clean
clean_lem [] = tt
clean_lem ((k, v) ∷ m) = elim (Bool-cases (is_forbidden k)) [
  | inl y ↦ rw (y) (clean_lem m)
  | inr n ↦ rw (n) (n, clean_lem m)
]

capped_le : (xs : List String) → length (if ltb 16 (length xs) then take 16 xs else xs) ≤ 16
capped_le xs = ground (arith, length-take-le 16 xs)

sanitize-IsClean :
    (e : AuditEvent) (attributes : Dict String)
    → e.attributes ≡ some attributes
    → IsClean (sanitize e)
unfolding IsClean sanitize
sanitize-IsClean e attributes h =
    rw (h, sanitize) (clean_lem attributes, capped_le e.resource_ids_sample)

sanitize-org : (e : AuditEvent) → (sanitize e).org_id ≡ e.org_id
unfolding sanitize
sanitize-org e = elim (Option-cases e.attributes) [
  | inl h ↦ rw (h, sanitize) refl
  | inr (attributes, h) ↦ rw (h, sanitize) refl
]

-- Appending an event that has attributes adds one event to the end of its organization's log, and
-- the event that is added has no forbidden attribute, whatever the case of its name, and at most 16
-- resources.
pub append-IsClean :
    (e : AuditEvent) (attributes : Dict String) (now : ℕ) (fresh : String) (s : Store)
    → e.attributes ≡ some attributes
    → (logged : AuditEvent) × (log_of (append e now fresh s).audits e.org_id
        ≡ log_of s.audits e.org_id ++ logged ∷ [])
      × IsClean logged
unfolding append IsClean
append-IsClean e attributes now fresh s h =
    let logged : AuditEvent = record (sanitize e) {
      audit_id = or_default (sanitize e).audit_id fresh;
      created_at = or_now (sanitize e).created_at now;
    } in
    (
      logged,
      log_of-append logged s e.org_id
          ∙ rw ((eq_iff (sanitize e).org_id e.org_id).1 (sanitize-org e)) refl,
      sanitize-IsClean e attributes h,
    )

-- An event that has no attributes keeps every resource of its sample, also where it names more
-- than 16.
pub sanitize-keeps_sample :
    (e : AuditEvent)
    → e.attributes ≡ none
    → (sanitize e).resource_ids_sample ≡ e.resource_ids_sample
unfolding sanitize
sanitize-keeps_sample e h = rw (h, sanitize) refl
