-- ===== src/Delivery/Once.antt =====
-- A push that succeeded, and the next push of the same change to the same subscription.
use gontext.Base.{ℕ, zero, suc, ◌+◌, ◌-◌, ◌≤◌}
use gontext.Base.{eq_iff}
use gontext.Base.{◌≡◌, refl, inl, inr}
use gontext.Base.{Bool, true, false, ◌&&◌, List, [], ◌∷◌, ◌++◌}
use gontext.Base.{arith, ltb, leb, Bool-cases, length, drop, any, length-append}
use gontext.Base.Dict.{log_of, log_of-put}
use gontext.Ports.{ChangeEvent}
use gontext.Platform.{ok}
use gontext.Ledger.{or_limit}
use gontext.Delivery.{
  Subscription, DeliveryAttempt, Deliveries, Stamp, Response, failed, answered, max_delivery_log,
  trim_deliveries, append_delivery, delivery_of, duplicate_of, is_of, failed_attempt_count,
  next_attempt_at, has_successful_delivery, is_waiting, posted, push_one,
}

any-drop_last :
    (test : DeliveryAttempt → Bool) (d : DeliveryAttempt) (n : ℕ) (ds : List DeliveryAttempt)
    → test d ≡ true
    → n ≤ length ds
    → any test (drop n (ds ++ d ∷ [])) ≡ true
any-drop_last test d zero [] t h = ground arith
any-drop_last test d zero (x ∷ ds) t h =
    ground (arith, any-drop_last test d zero ds t (omega arith))
any-drop_last test d (suc n) [] t h = absurd (omega arith)
any-drop_last test d (suc n) (x ∷ ds) t h = any-drop_last test d n ds t (omega arith)

any-trim :
    (test : DeliveryAttempt → Bool) (d : DeliveryAttempt) (ds : List DeliveryAttempt)
    → test d ≡ true
    → any test (trim_deliveries (ds ++ d ∷ [])) ≡ true
unfolding trim_deliveries
any-trim test d ds t =
    let size = length-append ds (d ∷ []) in
    elim (Bool-cases (ltb max_delivery_log (length (ds ++ d ∷ [])))) [
      | inl y ↦ rw (y) (
          any-drop_last test d (length (ds ++ d ∷ []) - max_delivery_log) ds t
            (omega (arith, size)))
      | inr n ↦ rw (n) (any-drop_last test d zero ds t (omega arith))
    ]

-- A successful attempt that is appended is found, whatever the log has forgotten.
append-has :
    (d : DeliveryAttempt) (log : Deliveries)
    → d.success ≡ true
    → has_successful_delivery d.subscription_id d.event_id (log_of (append_delivery d log) d.org_id)
      ≡ true
unfolding append_delivery has_successful_delivery is_of
append-has d log won =
    let all = trim_deliveries (log_of log d.org_id ++ d ∷ []) in
    rw (log_of-put log d.org_id d.org_id all, (eq_iff d.org_id d.org_id).1 refl)
      (any-trim _ d (log_of log d.org_id) (
        ground
          (arith, won, eq_iff d.subscription_id d.subscription_id, eq_iff d.event_id d.event_id)))

posted-has :
    (r : Response) (max : ℕ) (sub : Subscription) (ev : ChangeEvent) (attempt : ℕ) (stamp : Stamp)
    (log : Deliveries)
    → (posted r max sub ev attempt stamp log).1 ≡ ok tt
    → has_successful_delivery sub.id ev.event_id
        (log_of (posted r max sub ev attempt stamp log).2 sub.org_id)
      ≡ true
unfolding posted delivery_of
posted-has (failed message) max sub ev attempt stamp log h = absurd (ground arith)
posted-has (answered code) max sub ev attempt stamp log h =
    elim (Bool-cases (leb 200 code && ltb code 300)) [
      | inl y ↦
          rw (y, posted) (append-has (delivery_of max sub ev attempt code true "" stamp) log refl)
      | inr n ↦ absurd (ground arith)
    ]

module _ (send : Subscription → ChangeEvent → Response) (max_attempts : ℕ) where
  push_one-has :
      (sub : Subscription) (ev : ChangeEvent) (stamp : Stamp) (log : Deliveries)
      → (push_one send max_attempts sub ev stamp log).1 ≡ ok tt
      → has_successful_delivery sub.id ev.event_id
          (log_of (push_one send max_attempts sub ev stamp log).2 sub.org_id)
        ≡ true
  unfolding push_one duplicate_of
  push_one-has sub ev stamp log h =
      let mine = log_of log sub.org_id in
      let max = or_limit max_attempts 8 in
      let attempt = failed_attempt_count sub.id ev.event_id mine + 1 in
      elim (Bool-cases (has_successful_delivery sub.id ev.event_id mine)) [
        | inl y ↦ rw (y, push_one) (append-has (duplicate_of sub ev stamp) log refl)
        | inr n ↦
            elim (Bool-cases (is_waiting (next_attempt_at sub.id ev.event_id mine) stamp.now)) [
              | inl y ↦ absurd (ground arith)
              | inr m ↦ elim (Bool-cases (ltb max attempt)) [
                | inl y ↦ absurd (ground arith)
                | inr k ↦
                    rw (n, m, k, push_one)
                      (posted-has (send sub ev) max sub ev attempt stamp log
                        (rw (n, m, k, push_one) at h))
              ]
            ]
      ]

  skips :
      (sub : Subscription) (ev : ChangeEvent) (stamp : Stamp) (log : Deliveries)
      → has_successful_delivery sub.id ev.event_id (log_of log sub.org_id) ≡ true
      → ((push_one send max_attempts sub ev stamp log).0 ≡ false)
        × ((push_one send max_attempts sub ev stamp log).1 ≡ ok tt)
  unfolding push_one
  skips sub ev stamp log y = rw (y, push_one) (refl, refl)

  -- When a push of a change to a subscription has succeeded, the push of the same change to the same
  -- subscription that follows on the log it leaves succeeds without a request.
  pub push_one-push_one :
      (sub : Subscription) (ev : ChangeEvent) (stamp later : Stamp) (log : Deliveries)
      → (push_one send max_attempts sub ev stamp log).1 ≡ ok tt
      → ((push_one send max_attempts sub ev later (push_one send max_attempts sub ev stamp log).2).0
          ≡ false)
        × ((push_one send max_attempts sub ev later
              (push_one send max_attempts sub ev stamp log).2).1
            ≡ ok tt)
  push_one-push_one sub ev stamp later log h =
      skips sub ev later (push_one send max_attempts sub ev stamp log).2
        (push_one-has sub ev stamp log h)
