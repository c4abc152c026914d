-- ===== src/Gateway/Stamper.antt =====
-- apps/fairness-gateway/gateway/stamper.go: sequence numbers and timestamps from blocks that the
-- time-service hands out. A call of `Next` takes the two readings of the monotonic clock that it
-- makes, `fetched` after a refill and `now` for `time.Since`.
pub mod Order
pub mod Batch
use iron_book.Common.{ℕ, ◌+◌, ◌-◌, ◌%◌, Bool, List, [], ◌∷◌, Option, leb, ◌==◌, if◌then◌else◌}
use iron_book.Common.Int.{two63, two64}
use iron_book.Common.Result.{Result, ok, err}
use iron_book.Gateway.Proto.{NextStampsResponse}
use iron_book.Gateway.TimeService.{TimeService}

pub record Stamper : Type 0 where
  pub batch_size : ℕ
  pub next_seq : ℕ
  pub end_seq : ℕ
  pub origin_ts : ℕ
  pub origin_at : ℕ

unfoldable pub new_stamper : ℕ → Stamper
new_stamper batch_size = record {
  batch_size = if batch_size == 0 then 10000 else batch_size;
  next_seq = 0;
  end_seq = 0;
  origin_ts = 0;
  origin_at = 0;
}

-- `uint64(time.Since(at).Nanoseconds())`: an int64 that saturates, read as a uint64.
unfoldable pub since_ns : ℕ → ℕ → ℕ
since_ns at now =
    if leb at now
    then (if leb two63 (now - at) then two63 - 1 else now - at)
    else (if leb two63 (at - now) then two63 else two64 - (at - now))

-- The refill: the window that the response describes.
unfoldable pub refill : Stamper → NextStampsResponse → ℕ → Stamper
refill s r fetched = record s {
  next_seq = r.first_seq;
  end_seq = (r.first_seq + r.batch_size) % two64;
  origin_ts = r.first_ts_ns;
  origin_at = fetched;
}

-- The part of `Next` after the refill: take the next number of the window.
unfoldable pub reserve : Stamper → ℕ → (ℕ × ℕ) × Stamper
unfolding since_ns
reserve s now = (
  (s.next_seq, (s.origin_ts + since_ns s.origin_at now) % two64),
  record s { next_seq = (s.next_seq + 1) % two64 },
)

module _ (t : TimeService) where
  -- What one call of `Next` gives: the stamp or an error, the stamper, the time-service.
  pub record Called : Type 0 where
    pub stamp : Result (ℕ × ℕ)
    pub stamper : Stamper
    pub service : t.World

  refilled : Stamper → ℕ → ℕ → Result NextStampsResponse × t.World → Called
  unfolding refill reserve
  refilled s fetched now (ok r, w) =
      let (stamp, s') = reserve (refill s r fetched) now in
      record { stamp = ok stamp; stamper = s'; service = w }
  refilled s fetched now (err e, w) = record { stamp = err e; stamper = s; service = w }

  unfoldable pub next : Stamper → ℕ → ℕ → t.World → Called
  unfolding refilled reserve
  next s fetched now w =
      if leb s.end_seq s.next_seq
      then refilled s fetched now (t.next_stamps s.batch_size w)
      else (let (stamp, s') = reserve s now in
          record { stamp = ok stamp; stamper = s'; service = w })

  -- Calls one after the other, each with its two clock readings.
  pub record Ran : Type 0 where
    pub stamps : List (Result (ℕ × ℕ))
    pub stamper : Stamper
    pub service : t.World

  unfoldable pub run : List (ℕ × ℕ) → Stamper → t.World → Ran
  run [] s w = record { stamps = []; stamper = s; service = w }
  run ((fetched, now) ∷ rs) s w =
      let c = next s fetched now w in
      let rest = run rs c.stamper c.service in
      record { stamps = c.stamp ∷ rest.stamps; stamper = rest.stamper; service = rest.service }
