-- ===== src/Delivery.antt =====
-- internal/changes/changes.go: the delivery of changes to webhooks, with the in-memory log of
-- attempts. The HTTP request is an argument, and so are the digest of the payload, the clock's
-- reading and the identifier of an attempt. Error texts are without the figures in them.
pub mod Bounds
pub mod Once
use gontext.Base.{ℕ, ◌+◌, ◌-◌, ◌*◌, ◌^◌, min}
use gontext.Base.{String, string_eq, ◌==◌}
use gontext.Base.{Bool, true, false, not, ◌&&◌, ◌||◌, Option, none, some, List, [], ◌∷◌, ◌++◌}
use gontext.Base.{ltb, leb, if◌then◌else◌, length, drop, any}
use gontext.Base.{number_eq}
use gontext.Base.Dict.{Dict, put, log_of}
use gontext.Ports.{ChangeEvent}
use gontext.Platform.{Error, Result, ok, err}
use gontext.Ledger.{or_limit}

pub record Subscription : Type 0 where
  pub id : String
  pub org_id : String
  pub target_url : String
  pub events : List String
  pub secret : String
  pub enabled : Bool
  pub created_at : ℕ

pub record DeliveryAttempt : Type 0 where
  pub delivery_id : String
  pub subscription_id : String
  pub org_id : String
  pub event_id : String
  pub attempt : ℕ
  pub status_code : ℕ
  pub success : Bool
  pub status : String
  pub error : String
  pub payload_sha : String
  pub next_attempt : Option ℕ
  pub created_at : ℕ

-- s.deliv: org -> attempts
abbrev pub Deliveries : Type 0
Deliveries = Dict (List DeliveryAttempt)

abbrev pub max_delivery_log : ℕ
max_delivery_log = 1000

-- trimDeliveriesLocked, of one organization's log
unfoldable pub trim_deliveries : List DeliveryAttempt → List DeliveryAttempt
trim_deliveries all =
    if ltb max_delivery_log (length all) then drop (length all - max_delivery_log) all else all

unfoldable pub append_delivery : DeliveryAttempt → Deliveries → Deliveries
append_delivery d log = put log d.org_id (trim_deliveries (log_of log d.org_id ++ d ∷ []))

-- 1 << min(attempt, 6) seconds
unfoldable pub retry_after : ℕ → ℕ
retry_after attempt = 2 ^ min attempt 6 * 1_000_000_000

-- What a push hands to the log beside its outcome: the clock, the identifier and the digest.
pub record Stamp : Type 0 where
  pub now : ℕ
  pub delivery_id : String
  pub payload_sha : String

-- the attempt that RecordDelivery makes
unfoldable pub delivery_of :
    ℕ → Subscription → ChangeEvent → ℕ → ℕ → Bool → String → Stamp → DeliveryAttempt
delivery_of max sub ev attempt code success message stamp = record {
  delivery_id = stamp.delivery_id;
  subscription_id = sub.id;
  org_id = sub.org_id;
  event_id = ev.event_id;
  attempt = attempt;
  status_code = code;
  success = success;
  status = if success then "delivered" else if leb max attempt then "dead" else "pending";
  error = message;
  payload_sha = stamp.payload_sha;
  next_attempt =
      if success || leb max attempt then none else some (stamp.now + retry_after attempt);
  created_at = stamp.now;
}

-- the attempt that RecordDuplicate makes
unfoldable pub duplicate_of : Subscription → ChangeEvent → Stamp → DeliveryAttempt
duplicate_of sub ev stamp = record {
  delivery_id = stamp.delivery_id;
  subscription_id = sub.id;
  org_id = sub.org_id;
  event_id = ev.event_id;
  attempt = 0;
  status_code = 0;
  success = true;
  status = "duplicate_ignored";
  error = "";
  payload_sha = stamp.payload_sha;
  next_attempt = none;
  created_at = stamp.now;
}

-- an attempt of the subscription and the event
unfoldable pub is_of : String → String → DeliveryAttempt → Bool
is_of sub_id event_id d = d.subscription_id == sub_id && d.event_id == event_id

-- failedAttemptCount: the highest failed attempt
unfoldable pub failed_attempt_count : String → String → List DeliveryAttempt → ℕ
failed_attempt_count sub_id event_id [] = 0
failed_attempt_count sub_id event_id (d ∷ ds) =
    let n = failed_attempt_count sub_id event_id ds in
    if is_of sub_id event_id d
      && not d.success
      && not (d.status == "duplicate_ignored")
      && ltb n d.attempt
    then d.attempt
    else n

latest : Option ℕ → Option ℕ → Option ℕ
latest none b = b
latest (some a) none = some a
latest (some a) (some b) = if ltb b a then some a else some b

-- nextAttemptAt: the latest time set for another attempt
unfoldable pub next_attempt_at : String → String → List DeliveryAttempt → Option ℕ
unfolding latest
next_attempt_at sub_id event_id [] = none
next_attempt_at sub_id event_id (d ∷ ds) =
    let rest = next_attempt_at sub_id event_id ds in
    if is_of sub_id event_id d then latest d.next_attempt rest else rest

-- hasSuccessfulDelivery
unfoldable pub has_successful_delivery : String → String → List DeliveryAttempt → Bool
has_successful_delivery sub_id event_id ds = any (λ d. is_of sub_id event_id d && d.success) ds

-- What the HTTP client gives: an error, or the status of an answer.
pub data Response : Type 0 where
  failed : String → Response
  answered : ℕ → Response

-- Whether a request was posted, the answer, and the log.
abbrev pub Push : Type 0
Push = Bool × Result (Unit {0}) × Deliveries

-- once the request is posted
unfoldable pub posted : Response → ℕ → Subscription → ChangeEvent → ℕ → Stamp → Deliveries → Push
posted (failed message) max sub ev attempt stamp log = (
  true,
  err (Error.plain message),
  append_delivery (delivery_of max sub ev attempt 0 false message stamp) log,
)
posted (answered code) max sub ev attempt stamp log =
    if leb 200 code && ltb code 300
    then (true, ok tt, append_delivery (delivery_of max sub ev attempt code true "" stamp) log)
    else (
      true,
      err (Error.plain "webhook delivery failed"),
      append_delivery (delivery_of max sub ev attempt code false "status" stamp) log,
    )

-- `next, ok := ...; ok && next.After(now)`
unfoldable pub is_waiting : Option ℕ → ℕ → Bool
is_waiting none now = false
is_waiting (some next) now = ltb now next

-- pushOne, with MaxAttempts as the service holds it
unfoldable pub push_one :
    (Subscription → ChangeEvent → Response)
    → ℕ
    → Subscription
    → ChangeEvent
    → Stamp
    → Deliveries
    → Push
unfolding or_limit
push_one send max_attempts sub ev stamp log =
    let mine = log_of log sub.org_id in
    let attempt = failed_attempt_count sub.id ev.event_id mine + 1 in
    let max = or_limit max_attempts 8 in
    if has_successful_delivery sub.id ev.event_id mine
    then (false, ok tt, append_delivery (duplicate_of sub ev stamp) log)
    else if is_waiting (next_attempt_at sub.id ev.event_id mine) stamp.now
    then (false, err (Error.plain "webhook backoff"), log)
    else if ltb max attempt
    then (false, err (Error.plain "webhook dead-lettered"), log)
    else posted (send sub ev) max sub ev attempt stamp log
