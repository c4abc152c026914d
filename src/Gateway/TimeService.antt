-- ===== src/Gateway/TimeService.antt =====
-- The time-service as its client sees it: `pb.TimeServiceClient.NextStamps` is one remote call,
-- which changes the state of the service. What the gateway relies on is `Issues`.
pub mod Clock
use iron_book.Common.{ℕ, ◌+◌, ◌≤◌, ◌<◌, ◌≡◌}
use iron_book.Common.Int.{two64}
use iron_book.Common.Result.{Result, ok, err}
use iron_book.Gateway.Proto.{NextStampsResponse}

pub record TimeService : Type 1 where
  pub World : Type 0
  -- The argument is `BatchSize` of the request.
  pub next_stamps : ℕ → World → Result NextStampsResponse × World

-- The documented contract of NextStamps: blocks of sequence numbers are handed out once and in
-- increasing order. `issued w` bounds all numbers handed out before `w`.
pub record Issues (t : TimeService) : Type 0 where
  pub issued : t.World → ℕ
  pub fresh :
      (n : ℕ) (w : t.World) (r : NextStampsResponse)
      → (t.next_stamps n w).0 ≡ ok r
      → issued (t.next_stamps n w).1 < two64
      → (issued w ≤ r.first_seq)
        × (0 < r.batch_size)
        × (r.first_seq + r.batch_size ≤ issued (t.next_stamps n w).1)
  pub grows : (n : ℕ) (w : t.World) → issued w ≤ issued (t.next_stamps n w).1
