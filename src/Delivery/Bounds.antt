-- ===== src/Delivery/Bounds.antt =====
-- The log of attempts is bounded, and so is every attempt's number.
use gontext.Base.{ℕ, zero, suc, ◌+◌, ◌-◌, ◌≤◌}
use gontext.Base.{String, string_eq}
use gontext.Base.{inl, inr}
use gontext.Base.{◌&&◌, List, [], ◌∷◌, ◌++◌}
use gontext.Base.{arith, ltb, leb, Bool-cases, Option-cases, length, drop, All, length-drop}
use gontext.Base.Dict.{get, log_of}
use gontext.Base.Count.{Every, Every-put, Every-get}
use gontext.Ports.{ChangeEvent}
use gontext.Ledger.{or_limit}
use gontext.Delivery.{
  Subscription, DeliveryAttempt, Deliveries, Stamp, Response, failed, answered, max_delivery_log,
  trim_deliveries, append_delivery, delivery_of, duplicate_of, failed_attempt_count,
  next_attempt_at, has_successful_delivery, is_waiting, posted, push_one,
}

-- At most 1000 attempts, none with a number above the limit.
abbrev pub IsBounded : ℕ → List DeliveryAttempt → Type 0
IsBounded max ds = (length ds ≤ max_delivery_log) × All (λ d. d.attempt ≤ max) ds

All-drop :
    (P : DeliveryAttempt → Type 0) (n : ℕ) (ds : List DeliveryAttempt)
    → All P ds
    → All P (drop n ds)
All-drop P zero ds a = a
All-drop P (suc n) [] a = tt
All-drop P (suc n) (d ∷ ds) a = All-drop P n ds a.1

All-snoc :
    (P : DeliveryAttempt → Type 0) (ds : List DeliveryAttempt) (d : DeliveryAttempt)
    → All P ds
    → P d
    → All P (ds ++ d ∷ [])
All-snoc P [] d a p = (p, tt)
All-snoc P (x ∷ ds) d a p = (a.0, All-snoc P ds d a.1 p)

trim-IsBounded :
    (max : ℕ) (ds : List DeliveryAttempt)
    → All (λ d. d.attempt ≤ max) ds
    → IsBounded max (trim_deliveries ds)
unfolding trim_deliveries
trim-IsBounded max ds a = elim (Bool-cases (ltb max_delivery_log (length ds))) [
  | inl y ↦ rw (y) (
    omega (arith, length-drop (length ds - max_delivery_log) ds),
    All-drop (λ d. d.attempt ≤ max) (length ds - max_delivery_log) ds a,
  )
  | inr n ↦ rw (n) (ground arith, a)
]

log_of-Every :
    (max : ℕ) (log : Deliveries) (org : String)
    → Every (IsBounded max) log
    → All (λ d. d.attempt ≤ max) (log_of log org)
unfolding log_of
log_of-Every max log org e = elim (Option-cases (get log org)) [
  | inl h ↦ rw (h, log_of) tt
  | inr (ds, h) ↦ rw (h, log_of) ((Every-get (IsBounded max) log org ds e h).1)
]

append-Every :
    (max : ℕ) (d : DeliveryAttempt) (log : Deliveries)
    → d.attempt ≤ max
    → Every (IsBounded max) log
    → Every (IsBounded max) (append_delivery d log)
unfolding append_delivery
append-Every max d log p e =
    Every-put (IsBounded max) log d.org_id _
      (trim-IsBounded max _ (
        All-snoc (λ d. d.attempt ≤ max) (log_of log d.org_id) d (log_of-Every max log d.org_id e)
          p))
      e

posted-Every :
    (r : Response) (max : ℕ) (sub : Subscription) (ev : ChangeEvent) (attempt : ℕ) (stamp : Stamp)
    (log : Deliveries)
    → attempt ≤ max
    → Every (IsBounded max) log
    → Every (IsBounded max) (posted r max sub ev attempt stamp log).2
unfolding posted delivery_of
posted-Every (failed message) max sub ev attempt stamp log p e = append-Every max _ log p e
posted-Every (answered code) max sub ev attempt stamp log p e =
    elim (Bool-cases (leb 200 code && ltb code 300)) [
      | inl y ↦ rw (y, posted) (append-Every max _ log p e)
      | inr n ↦ rw (n, posted) (append-Every max _ log p e)
    ]

module _ (send : Subscription → ChangeEvent → Response) (max_attempts : ℕ) where
  push_one-Every :
      (sub : Subscription) (ev : ChangeEvent) (stamp : Stamp) (log : Deliveries)
      → Every (IsBounded (or_limit max_attempts 8)) log
      → Every (IsBounded (or_limit max_attempts 8)) (push_one send max_attempts sub ev stamp log).2
  unfolding push_one duplicate_of
  push_one-Every sub ev stamp log e =
      let mine = log_of log sub.org_id in
      let max = or_limit max_attempts 8 in
      let attempt = failed_attempt_count sub.id ev.event_id mine + 1 in
      elim (Bool-cases (has_successful_delivery sub.id ev.event_id mine)) [
        | inl y ↦ rw (y, push_one) (append-Every max _ log (omega arith) e)
        | inr n ↦
            elim (Bool-cases (is_waiting (next_attempt_at sub.id ev.event_id mine) stamp.now)) [
              | inl y ↦ rw (n, y, push_one) e
              | inr m ↦ elim (Bool-cases (ltb max attempt)) [
                | inl y ↦ rw (n, m, y, push_one) e
                | inr k ↦
                    rw (n, m, k, push_one)
                      (posted-Every (send sub ev) max sub ev attempt stamp log (ground arith) e)
              ]
            ]
      ]

  unfoldable pub pushes : List (Subscription × ChangeEvent × Stamp) → Deliveries → Deliveries
  pushes [] log = log
  pushes ((sub, ev, stamp) ∷ ps) log = pushes ps (push_one send max_attempts sub ev stamp log).2

  pushes-Every :
      (ps : List (Subscription × ChangeEvent × Stamp)) (log : Deliveries)
      → Every (IsBounded (or_limit max_attempts 8)) log
      → Every (IsBounded (or_limit max_attempts 8)) (pushes ps log)
  unfolding pushes
  pushes-Every [] log e = e
  pushes-Every ((sub, ev, stamp) ∷ ps) log e =
      pushes-Every ps (push_one send max_attempts sub ev stamp log).2
        (push_one-Every sub ev stamp log e)

  -- Whatever is pushed and whatever the receivers answer, every organization's log keeps at most 1000
  -- attempts, and no attempt has a number above the limit of the service (8 where it sets none).
  pub pushes-IsBounded :
      (ps : List (Subscription × ChangeEvent × Stamp))
      → Every (IsBounded (or_limit max_attempts 8)) (pushes ps [])
  pushes-IsBounded ps = pushes-Every ps [] tt
