-- ===== src/Platform.antt =====
-- internal/platform/errors.go and org.go: the error values of every surface, and the tenant guard.
use gontext.Base.{ℕ}
use gontext.Base.{String, string_eq, ◌==◌}
use gontext.Base.{◌≡◌, refl, ap, ◌⊎◌, inl, inr}
use gontext.Base.{Bool, true, false, not, Option, none, some}
use gontext.Base.{if◌then◌else◌}
use gontext.Ports.{Principal}

-- APIError. `audit_id` and `trace_id` are "" in every error that these files build.
pub record ApiError : Type 0 where
  pub reason_code : String
  pub message : String
  pub retryable : Bool
  pub retry_after : ℕ
  pub doc_url : String
  pub http_status : ℕ

-- Go's `error`: an APIError, or any other error by its text.
pub data Error : Type 0 where
  api : ApiError → Error
  plain : String → Error

-- Go's pair (T, error).
pub data Result {ℓ} (A : Type ℓ) : Type ℓ where
  ok : A → Result A
  err : Error → Result A

pub ok_injective {ℓ} : {A : Type ℓ} {a b : A} → ok a ≡ ok b → a ≡ b
ok_injective {A} {a} {b} e = ap (λ r. elim r [ ok x ↦ x | err x ↦ a ]) e

infixl 5 ◌>>=◌
-- `v, err := ...; if err != nil { return err }`
abbrev pub ◌>>=◌ {ℓ κ} : {A : Type ℓ} {B : Type κ} → Result A → (A → Result B) → Result B
r >>= next = elim r [ ok value ↦ next value | err e ↦ err e ]

pub Result-cases {ℓ} :
    {A : Type ℓ} (r : Result A) → ((e : Error) × (r ≡ err e)) ⊎ ((a : A) × (r ≡ ok a))
Result-cases (ok a) = inr (a, refl)
Result-cases (err e) = inl (e, refl)

-- A chain that succeeds: its first step does, and the rest does with its value.
pub >>=-eq-ok {ℓ κ} :
    {A : Type ℓ} {B : Type κ} (m : Result A) (next : A → Result B) {b : B}
    → (m >>= next) ≡ ok b
    → (a : A) × (m ≡ ok a) × (next a ≡ ok b)
>>=-eq-ok (ok a) next h = (a, refl, h)
>>=-eq-ok (err e) next h = cc

base_err : String → ℕ → Bool → String → ApiError
base_err reason status retryable doc = record {
  reason_code = reason;
  message = reason;
  retryable = retryable;
  retry_after = 0;
  doc_url = doc;
  http_status = status;
}

-- with: a message that is not "" replaces the default.
with_message : ApiError → String → ApiError
with_message e msg = if msg == "" then e else record e { message = msg }

unfoldable pub err_unauthorized : String → Error
unfolding base_err with_message
err_unauthorized msg = api (
    with_message
      (base_err "unauthorized" 401 false "https://docs.context-fabric.io/errors/unauthorized") msg)

unfoldable pub err_forbidden : String → Error
unfolding base_err with_message
err_forbidden msg = api (
    with_message (base_err "forbidden" 403 false "https://docs.context-fabric.io/errors/forbidden")
      msg)

unfoldable pub err_not_found : String → Error
unfolding base_err with_message
err_not_found msg = api (
    with_message (base_err "not_found" 404 false "https://docs.context-fabric.io/errors/not-found")
      msg)

unfoldable pub err_conflict : String → Error
unfolding base_err with_message
err_conflict msg = api (
    with_message (base_err "conflict" 409 false "https://docs.context-fabric.io/errors/conflict")
      msg)

unfoldable pub err_validation : String → Error
unfolding base_err with_message
err_validation msg = api (
    with_message
      (base_err "validation_failed" 400 false "https://docs.context-fabric.io/errors/validation")
      msg)

unfoldable pub err_rate_limited : String → ℕ → Error
unfolding base_err with_message
err_rate_limited msg retry_after =
    let e =
      with_message
        (base_err "rate_limited" 429 true "https://docs.context-fabric.io/errors/rate-limited")
        msg in
    api (record e { retry_after = retry_after })

unfoldable pub err_unavailable : String → Error
unfolding base_err with_message
err_unavailable msg = api (
    with_message
      (base_err "unavailable" 503 true "https://docs.context-fabric.io/errors/unavailable") msg)

unfoldable pub err_internal : String → Error
unfolding base_err with_message
err_internal msg =
    let text = if msg == "" then "internal error" else msg in
    api (
      with_message
        (base_err "internal_error" 500 false "https://docs.context-fabric.io/errors/internal") text)

-- AsAPIError, for the field that callers read.
unfoldable pub reason_of : Error → Option String
reason_of (api e) = some e.reason_code
reason_of (plain text) = none

-- AsAPIError, for the status that callers read.
unfoldable pub status_of : Error → Option ℕ
status_of (api e) = some e.http_status
status_of (plain text) = none

unfoldable pub require_org : Principal → String → Result (Unit {0})
require_org principal path_org =
    if path_org == ""
    then err (err_validation "organization required")
    else if principal.org_id == ""
    then err (err_forbidden "principal missing organization")
    else if not (principal.org_id == path_org)
    then err (err_forbidden "organization mismatch")
    else ok tt
