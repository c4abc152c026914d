-- ===== src/Gateway/TimeService/Clock.antt =====
-- crates/time-service: the Rust service behind `NextStamps`, as an implementation of the contract
-- that the gateway relies on.
use iron_book.Common.{ℕ, ◌+◌, ◌-◌, ◌%◌, ◌≤◌, ◌<◌, ◌≡◌, arith, ltb, if◌then◌else◌}
use iron_book.Common.Int.{two64}
use iron_book.Common.Result.{Result, ok}
use iron_book.Gateway.Proto.{NextStampsResponse}
use iron_book.Gateway.TimeService.{TimeService, Issues}

-- `next_seq` is kept without its wrap at 2^64; `reserve` reads it through the wrap. `elapsed` is
-- the reading of `start_instant` that the next call makes.
pub record Clock : Type 0 where
  pub next_seq : ℕ
  pub boot_ts_ns : ℕ
  pub elapsed : ℕ

abbrev saturating_add : ℕ → ℕ → ℕ
saturating_add a b = if ltb (a + b) two64 then a + b else two64 - 1

-- `Clock::reserve`.
unfoldable pub reserve : ℕ → Clock → (ℕ × ℕ) × Clock
reserve n c = (
  (c.next_seq % two64, saturating_add c.boot_ts_ns c.elapsed),
  record c { next_seq = c.next_seq + n },
)

abbrev clamp : ℕ → ℕ
clamp n = if ltb n 1 then 1 else if ltb 65535 n then 65535 else n

-- `TimeServer::next_stamps`, for which no call fails.
unfoldable pub next_stamps : ℕ → Clock → Result NextStampsResponse × Clock
unfolding reserve
next_stamps batch_size c =
    let n = clamp batch_size in
    let ((first_seq, first_ts), c') = reserve n c in
    (
      ok (record { first_seq = first_seq; first_ts_ns = first_ts; step_ns = 100; batch_size = n }),
      c',
    )

abbrev pub clock_service : TimeService
clock_service = record { World = Clock; next_stamps = next_stamps }

pub clock_fresh :
    (n : ℕ) (c : Clock) (r : NextStampsResponse)
    → (next_stamps n c).0 ≡ ok r
    → (next_stamps n c).1.next_seq < two64
    → (c.next_seq ≤ r.first_seq)
      × (0 < r.batch_size)
      × (r.first_seq + r.batch_size ≤ (next_stamps n c).1.next_seq)
unfolding next_stamps
clock_fresh n c r e b = ground arith

pub clock_grows : (n : ℕ) (c : Clock) → c.next_seq ≤ (next_stamps n c).1.next_seq
unfolding next_stamps
clock_grows n c = ground arith

-- The time-service keeps the contract: every block lies at or above all that were issued before,
-- is not empty, and raises what is issued above itself, until the counter reaches 2^64.
abbrev pub clock-Issues : Issues clock_service
clock-Issues = record { issued = λ c. c.next_seq; fresh = clock_fresh; grows = clock_grows }
