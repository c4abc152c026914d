-- ===== src/Coordinator/Schedule/Offsets.antt =====
-- The shape of a compiled schedule (apps/bot-coordinator/coordinator/schedule.go).
use iron_book.Common.{
  ℕ, zero, suc, ◌+◌, ◌*◌, ◌<◌, ◌≤◌, ◌≡◌, ◌⊎◌, inl, inr, refl, ap, ◌∙◌, String, List, [], ◌∷◌, All,
  length, arith,
}
use iron_book.Common.Int.{ℤ, pos, two64, to_uint64}
use iron_book.Coordinator.Schedule.{
  Event, Rand, IsBounded, side_of, total_events, next_event, events_from, compile,
}

-- The orders that the coordinator sends.
pub record IsOrdinary (e : Event) : Type 0 where
  pub offset : e.offset_ns < two64
  pub bot : (1 ≤ e.bot_id) × (e.bot_id ≤ 8)
  pub side : (e.order.side ≡ "bid") ⊎ (e.order.side ≡ "ask")
  pub order_type : e.order.order_type ≡ "limit"
  pub tif : e.order.tif ≡ "gtc"
  pub qty : (1 ≤ e.order.qty) × (e.order.qty ≤ 20)
  pub price : ℕ
  pub priced : e.order.price ≡ pos price
  pub in_range : (90 ≤ price) × (price < 110)

side_of-cases : (n : ℕ) → (side_of n ≡ "bid") ⊎ (side_of n ≡ "ask")
side_of-cases zero = inl refl
side_of-cases (suc n) = inr refl

-- Event `k` of the list is due `i + k` milliseconds after the start.
abbrev pub OneEachMs : ℕ → List Event → Type 0
OneEachMs i [] = Unit
OneEachMs i (e ∷ events) = (e.offset_ns ≡ i * 1000000) × OneEachMs (suc i) events

module _ (r : Rand) where
  next_event-IsOrdinary : IsBounded r → (i : ℕ) (s : r.Source) → IsOrdinary (next_event r i s).0
  unfolding next_event
  next_event-IsOrdinary law i s =
      let (bot, s₁) = r.intn 8 s in
      let (side, s₂) = r.intn 2 s₁ in
      let (qty, s₃) = r.intn 20 s₂ in
      let (price, s₄) = r.intn 20 s₃ in
      let bot_below : bot < 8 = law.below 8 s (omega arith) in
      let qty_below : qty < 20 = law.below 20 s₂ (omega arith) in
      let price_below : price < 20 = law.below 20 s₃ (omega arith) in
      record {
        offset = omega arith;
        bot = (omega arith, omega (arith, bot_below));
        side = side_of-cases side;
        order_type = refl;
        tif = refl;
        qty = (omega arith, omega (arith, qty_below));
        price = 90 + price;
        priced = refl;
        in_range = (omega arith, omega (arith, price_below));
      }

  events_from-IsOrdinary :
      IsBounded r → (i n : ℕ) (s : r.Source) → All IsOrdinary (events_from r i n s)
  unfolding events_from
  events_from-IsOrdinary law i zero s = tt
  events_from-IsOrdinary law i (suc n) s =
      (next_event-IsOrdinary law i s, events_from-IsOrdinary law (suc i) n _)

  -- Every event of a compiled schedule is a limit order of a known shape: bots 1 to 8, quantities 1
  -- to 20, prices 90 to 109, good till cancelled. This is for a generator that keeps its bounds.
  pub compile-IsOrdinary :
      IsBounded r
      → (yaml_spec : String) (seed duration_sec : ℤ)
      → All IsOrdinary (compile r yaml_spec seed duration_sec)
  unfolding compile
  compile-IsOrdinary law yaml_spec seed duration_sec = events_from-IsOrdinary law 0 _ _

  events_from-OneEachMs :
      (i n : ℕ) (s : r.Source) → (i + n) * 1000000 < two64 → OneEachMs i (events_from r i n s)
  unfolding events_from next_event
  events_from-OneEachMs i zero s h = tt
  events_from-OneEachMs i (suc n) s h =
      (omega arith, events_from-OneEachMs (suc i) n _ (omega arith))

  length-events_from : (i n : ℕ) (s : r.Source) → length (events_from r i n s) ≡ n
  unfolding events_from
  length-events_from i zero s = refl
  length-events_from i (suc n) s = ap suc (length-events_from (suc i) n _)

  total_events-small : (d : ℕ) → d ≤ 18446744073 → total_events (pos d) ≡ d * 1000
  unfolding total_events to_uint64
  total_events-small d h = ground arith

  -- A schedule for `d` seconds, up to about 584 years: one event per millisecond, `d * 1000` in
  -- all, at the offsets 0, 1 ms, 2 ms and so on, which do not wrap.
  pub compile-OneEachMs :
      (yaml_spec : String) (seed : ℤ) (d : ℕ)
      → d ≤ 18446744073
      → (length (compile r yaml_spec seed (pos d)) ≡ d * 1000)
        × OneEachMs 0 (compile r yaml_spec seed (pos d))
  unfolding compile
  compile-OneEachMs yaml_spec seed d h = (
    length-events_from 0 _ _ ∙ total_events-small d h,
    events_from-OneEachMs 0 _ _ (rw (total_events-small d h) (omega arith)),
  )
