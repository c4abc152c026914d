-- ===== src/Coordinator/Schedule.antt =====
-- apps/bot-coordinator/coordinator/schedule.go: the compiled schedule and its hash.
pub mod Offsets
pub mod Encoding
use iron_book.Common.{
  ℕ, zero, suc, ◌+◌, ◌*◌, ◌%◌, ◌<◌, ◌≤◌, String, List, [], ◌∷◌, ◌++◌, ltb, if◌then◌else◌,
}
use iron_book.Common.Int.{ℤ, pos, two63, two64, to_uint64}
use iron_book.Common.Text.{bytes}
use iron_book.Common.Bytes.{put_uint64_le, hex}

pub record OrderSpec : Type 0 where
  pub side : String
  pub order_type : String
  pub tif : String
  pub qty : ℕ
  pub price : ℤ

pub record Event : Type 0 where
  pub offset_ns : ℕ
  pub bot_id : ℕ
  pub order : OrderSpec

-- `math/rand`: a source made from a seed, and `Intn`.
pub record Rand : Type 1 where
  pub Source : Type 0
  pub new_source : ℤ → Source
  pub intn : ℕ → Source → ℕ × Source

-- What `Intn` documents: a number below its argument.
pub record IsBounded (r : Rand) : Type 0 where
  pub below : (n : ℕ) (s : r.Source) → 0 < n → (r.intn n s).0 < n

-- `sides[i]`, for an index below 2.
abbrev pub side_of : ℕ → String
side_of zero = "bid"
side_of (suc _) = "ask"

-- `durationSec * 1000` as an int of 64 bits, or 0 where that is negative.
unfoldable pub total_events : ℤ → ℕ
total_events duration_sec =
    let total = to_uint64 duration_sec * 1000 % two64 in if ltb total two63 then total else 0

module _ (r : Rand) where
  -- The turn `i` of the loop. The fields of the literal are evaluated in their order.
  unfoldable pub next_event : ℕ → r.Source → Event × r.Source
  next_event i s =
      let (bot, s₁) = r.intn 8 s in
      let (side, s₂) = r.intn 2 s₁ in
      let (qty, s₃) = r.intn 20 s₂ in
      let (price, s₄) = r.intn 20 s₃ in
      (
        record {
          offset_ns = i * 1000000 % two64;
          bot_id = bot + 1;
          order = record {
            side = side_of side;
            order_type = "limit";
            tif = "gtc";
            qty = 1 + qty;
            price = pos (90 + price);
          };
        },
        s₄,
      )

  -- The `n` turns of the loop from `i` on.
  unfoldable pub events_from : ℕ → ℕ → r.Source → List Event
  unfolding next_event
  events_from i zero s = []
  events_from i (suc n) s = let (e, s') = next_event i s in e ∷ events_from (suc i) n s'

  unfoldable pub compile : String → ℤ → ℤ → List Event
  unfolding events_from total_events
  compile yaml_spec seed duration_sec =
      events_from 0 (total_events duration_sec) (r.new_source seed)

-- What `ScheduleHash` writes for one event.
unfoldable pub event_bytes : Event → List ℕ
event_bytes e =
    put_uint64_le e.offset_ns
    ++ put_uint64_le e.bot_id
    ++ put_uint64_le e.order.qty
    ++ put_uint64_le (to_uint64 e.order.price)
    ++ bytes e.order.side
    ++ bytes e.order.order_type
    ++ bytes e.order.tif

unfoldable pub schedule_bytes : List Event → List ℕ
unfolding event_bytes
schedule_bytes [] = []
schedule_bytes (e ∷ events) = event_bytes e ++ schedule_bytes events

unfoldable pub schedule_hash : (List ℕ → List ℕ) → List Event → String
unfolding schedule_bytes
schedule_hash sha256 events = hex (sha256 (schedule_bytes events))
