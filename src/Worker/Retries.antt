-- ===== src/Worker/Retries.antt =====
-- How often the worker tries a relationship write that fails.
use gontext.Base.{ℕ, zero, suc, ◌+◌, ◌*◌, ◌^◌, ◌≤◌, ◌<◌, min}
use gontext.Base.{String}
use gontext.Base.{◌≡◌, subst}
use gontext.Base.{List, [], ◌∷◌}
use gontext.Base.{arith, ltb, leb, if◌then◌else◌, length}
use gontext.Ports.{AuthzTupleOp}
use gontext.Ledger.Tuples.{pending, dead, as_failed}
use gontext.Worker.{second, backoff}

-- What the worker's pass makes of an operation that fails, at a time, with a text.
unfoldable pub failed_once : ℕ → String → ℕ → AuthzTupleOp → AuthzTupleOp
failed_once max_attempts message now op =
    let attempts = op.attempts + 1 in
    as_failed attempts (now + backoff attempts) message (leb max_attempts attempts) now op

-- The operation after a failure at each of the times.
unfoldable pub failed_at : ℕ → String → List ℕ → AuthzTupleOp → AuthzTupleOp
failed_at max_attempts message [] op = op
failed_at max_attempts message (now ∷ times) op =
    failed_at max_attempts message times (failed_once max_attempts message now op)

sum : (a n : ℕ) → a + 1 + n ≡ a + suc n
sum a n = omega arith

failed_once-settles :
    (max_attempts : ℕ) (message : String) (now : ℕ) (op : AuthzTupleOp)
    → op.status ≡ (if ltb op.attempts max_attempts then pending else dead)
    → (failed_once max_attempts message now op).status
      ≡ (if ltb (op.attempts + 1) max_attempts then pending else dead)
unfolding failed_once as_failed
failed_once-settles max_attempts message now op st = ground arith

failed_at-settles :
    (max_attempts : ℕ) (message : String) (times : List ℕ) (op : AuthzTupleOp)
    → op.status ≡ (if ltb op.attempts max_attempts then pending else dead)
    → (failed_at max_attempts message times op).status
      ≡ (if ltb (op.attempts + length times) max_attempts then pending else dead)
unfolding failed_at failed_once as_failed
failed_at-settles max_attempts message [] op st = ground arith
failed_at-settles max_attempts message (now ∷ times) op st =
    let rest =
      failed_at-settles max_attempts message times (failed_once max_attempts message now op)
        (failed_once-settles max_attempts message now op st) in
    subst
      (λ n.
        (failed_at max_attempts message times (failed_once max_attempts message now op)).status
        ≡ (if ltb n max_attempts then pending else dead))
      (sum op.attempts (length times)) rest

power_between : (n : ℕ) → n ≤ 6 → (1 ≤ 2 ^ n) × (2 ^ n ≤ 64)
power_between zero h = (omega arith, omega arith)
power_between (suc zero) h = (omega arith, omega arith)
power_between (suc (suc zero)) h = (omega arith, omega arith)
power_between (suc (suc (suc zero))) h = (omega arith, omega arith)
power_between (suc (suc (suc (suc zero)))) h = (omega arith, omega arith)
power_between (suc (suc (suc (suc (suc zero))))) h = (omega arith, omega arith)
power_between (suc (suc (suc (suc (suc (suc zero)))))) h = (omega arith, omega arith)
power_between (suc (suc (suc (suc (suc (suc (suc n))))))) h = absurd (omega arith)

-- A new operation that fails each time it is tried is pending as long as it has failed fewer times
-- than the limit, so that it is tried again, and dead from the limit on.
failed_at-status :
    (max_attempts : ℕ) (message : String) (times : List ℕ) (op : AuthzTupleOp)
    → op.status ≡ pending
    → op.attempts ≡ 0
    → 0 < max_attempts
    → (failed_at max_attempts message times op).status
      ≡ (if ltb (length times) max_attempts then pending else dead)
failed_at-status max_attempts message times op st new pos =
    let start : op.status ≡ (if ltb op.attempts max_attempts then pending else dead) =
      ground arith in
    ground (arith, failed_at-settles max_attempts message times op start)

-- After a failure the operation waits between 1 second and 64 seconds.
pub failed_once-waits :
    (max_attempts : ℕ) (message : String) (now : ℕ) (op : AuthzTupleOp)
    → (now + second ≤ (failed_once max_attempts message now op).next_attempt)
      × ((failed_once max_attempts message now op).next_attempt ≤ now + 64 * second)
unfolding failed_once as_failed backoff
failed_once-waits max_attempts message now op =
    let (low, high) = power_between (min (op.attempts + 1) 6) (omega arith) in
    (omega arith, omega arith)
