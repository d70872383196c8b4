-- ===== src/Ledger/Feed.antt =====
-- AppendChange, AppendAudit and ListAudit of internal/adapters/memory/ledger.go: the logs of changes
-- and of audited actions.
use gontext.Base.{ℕ, ◌-◌, ◌<◌}
use gontext.Base.{String, string_eq, ◌==◌, eq_iff}
use gontext.Base.{◌≡◌, refl, sym, ap, subst, ◌∙◌, inl, inr}
use gontext.Base.{Bool, ◌||◌, List, [], ◌∷◌, ◌++◌}
use gontext.Base.{arith, ltb, if◌then◌else◌, Bool-cases, length, drop, select, length-append}
use gontext.Base.{number_eq}
use gontext.Base.Dict.{put, log_of, log_of-put}
use gontext.Ports.{ChangeEvent, AuditEvent}
use gontext.Ledger.{Store}

-- AppendChange
unfoldable pub append_change : ChangeEvent → Store → Store
append_change ev s = record s {
  changes = put s.changes ev.org_id (log_of s.changes ev.org_id ++ ev ∷ []);
}

-- AppendAudit
unfoldable pub append_audit : AuditEvent → Store → Store
append_audit event s = record s {
  audits = put s.audits event.org_id (log_of s.audits event.org_id ++ event ∷ []);
}

-- ListAudit: the last ones.
unfoldable pub list_audit : String → ℕ → Store → List AuditEvent
list_audit org_id limit s =
    let ev = log_of s.audits org_id in
    let n = if limit == 0 || ltb (length ev) limit then length ev else limit in
    drop (length ev - n) ev

unfoldable pub append_audits : List AuditEvent → Store → Store
append_audits [] s = s
append_audits (e ∷ es) s = append_audits es (append_audit e s)

append_assoc {ℓ} : {A : Type ℓ} (xs ys zs : List A) → (xs ++ ys) ++ zs ≡ xs ++ (ys ++ zs)
append_assoc [] ys zs = refl
append_assoc (x ∷ xs) ys zs = ap (λ l. x ∷ l) (append_assoc xs ys zs)

append-nil {ℓ} : {A : Type ℓ} (xs : List A) → xs ++ [] ≡ xs
append-nil [] = refl
append-nil (x ∷ xs) = ap (λ l. x ∷ l) (append-nil xs)

select-cons {ℓ} :
    {A : Type ℓ} (keep : A → Bool) (x : A) (xs : List A)
    → (if keep x then x ∷ [] else []) ++ select keep xs ≡ select keep (x ∷ xs)
select-cons keep x xs = elim (Bool-cases (keep x)) [ inl e ↦ rw (e) refl | inr e ↦ rw (e) refl ]

drop-append {ℓ} : {A : Type ℓ} (xs ys : List A) → drop (length xs) (xs ++ ys) ≡ ys
drop-append [] ys = refl
drop-append (x ∷ xs) ys = drop-append xs ys

pub log_of-append :
    (e : AuditEvent) (s : Store) (org_id : String)
    → log_of (append_audit e s).audits org_id
      ≡ log_of s.audits org_id ++ (if e.org_id == org_id then e ∷ [] else [])
unfolding append_audit
log_of-append e s org_id = elim (Bool-cases (e.org_id == org_id)) [
  | inl y ↦
      let same : e.org_id ≡ org_id = ground (arith, eq_iff e.org_id org_id) in
      rw (y) (
        log_of-put s.audits e.org_id org_id (log_of s.audits e.org_id ++ e ∷ [])
        ∙ ap (λ b. if b then log_of s.audits e.org_id ++ e ∷ [] else log_of s.audits org_id) y
        ∙ ap (λ i. log_of s.audits i ++ e ∷ []) same)
  | inr n ↦ rw (n) (
      log_of-put s.audits e.org_id org_id (log_of s.audits e.org_id ++ e ∷ [])
      ∙ ap (λ b. if b then log_of s.audits e.org_id ++ e ∷ [] else log_of s.audits org_id) n
      ∙ sym (append-nil (log_of s.audits org_id)))
]

log_of-appends :
    (es : List AuditEvent) (s : Store) (org_id : String)
    → log_of (append_audits es s).audits org_id
      ≡ log_of s.audits org_id ++ select (λ e. e.org_id == org_id) es
unfolding append_audits
log_of-appends [] s org_id = sym (append-nil (log_of s.audits org_id))
log_of-appends (e ∷ es) s org_id =
    log_of-appends es (append_audit e s) org_id
    ∙ ap (λ l. l ++ select (λ x. x.org_id == org_id) es) (log_of-append e s org_id)
    ∙ append_assoc (log_of s.audits org_id) (if e.org_id == org_id then e ∷ [] else [])
        (select (λ x. x.org_id == org_id) es)
    ∙ ap (λ l. log_of s.audits org_id ++ l) (select-cons (λ x. x.org_id == org_id) e es)

last_of :
    (old mine : List AuditEvent)
    → 0 < length mine
    → length old
      ≡ length (old ++ mine)
        - (if length mine == 0 || ltb (length (old ++ mine)) (length mine)
            then length (old ++ mine)
            else length mine)
last_of old mine pos = ground (arith, length-append old mine)

-- The audit log keeps what is appended, in order and by organization: after any events of any
-- organizations, a request for as many events as an organization has among them returns those, and
-- none of another organization.
pub appends-list_audit :
    (es : List AuditEvent) (s : Store) (org_id : String)
    → 0 < length (select (λ e. e.org_id == org_id) es)
    → list_audit org_id (length (select (λ e. e.org_id == org_id) es)) (append_audits es s)
      ≡ select (λ e. e.org_id == org_id) es
unfolding list_audit
appends-list_audit es s org_id pos =
    let mine = select (λ e. e.org_id == org_id) es in
    let old = log_of s.audits org_id in
    rw (log_of-appends es s org_id)
      (subst (λ n. drop n (old ++ mine) ≡ mine) (last_of old mine pos) (drop-append old mine))
