-- ===== src/Coordinator/Dispatcher.antt =====
-- apps/bot-coordinator/coordinator/dispatcher.go: the events are posted to the gateway, each at
-- its offset from the start. The clock, the timer, the context and the HTTP client are parameters.
pub mod Posts
pub mod Orders
use iron_book.Common.{
  ℕ, ◌+◌, ◌-◌, ◌<◌, String, Bool, true, false, ◌&&◌, List, [], ◌∷◌, Option, none, some, str_eq, ltb,
  if◌then◌else◌,
}
use iron_book.Common.Int.{two63, two64}
use iron_book.Gateway.Server.{RestOrder}
use iron_book.Coordinator.Schedule.{Event, OrderSpec}

pub data DispatchError : Type 0 where
  gateway_url_required context_done : DispatchError

-- What the loop takes from outside: `time.Now()` in nanoseconds, the `select` between the timer
-- and the context (whether it was the timer), `d.HTTP.Do` with a request for an order (whether
-- it failed), and whether the context is done.
pub record Outside : Type 1 where
  pub World : Type 0
  pub now : World → ℕ
  pub wait : ℕ → World → Bool × World
  pub send : RestOrder → World → Bool × World
  pub done : World → Bool

-- The body of the request that `post` sends.
unfoldable pub order_of : Event → RestOrder
order_of e = record {
  bot_id = e.bot_id;
  local_seq = e.offset_ns;
  side = e.order.side;
  qty = e.order.qty;
  price = e.order.price;
  order_type = e.order.order_type;
  tif = e.order.tif;
}

-- `time.Until(start.Add(time.Duration(offset)))`, or 0 where that is not positive. An offset from
-- 2^63 on is a negative duration.
unfoldable pub time_until : ℕ → ℕ → ℕ → ℕ
time_until start offset now =
    if ltb offset two63 then start + offset - now else start - (two64 - offset) - now

module _ (o : Outside) where
  -- The wait before an event: whether the loop goes on.
  unfoldable pub pause : ℕ → o.World → Bool × o.World
  pause dt w = if ltb 0 dt then o.wait dt w else (true, w)

  -- The turns of the loop, with the error of `Run`.
  unfoldable pub run_events : ℕ → List Event → o.World → Option DispatchError × o.World
  unfolding pause order_of time_until
  run_events start [] w = (none, w)
  run_events start (e ∷ events) w =
      let (woke, w₁) = pause (time_until start e.offset_ns (o.now w)) w in
      let (failed, w₂) = o.send (order_of e) w₁ in
      let rest = run_events start events w₂ in
      if woke
      then if failed && o.done w₂ then (some context_done, w₂) else rest
      else (some context_done, w₁)

  unfoldable pub run : String → List Event → o.World → Option DispatchError × o.World
  unfolding run_events
  run gateway_url events w =
      if str_eq gateway_url ""
      then (some gateway_url_required, w)
      else run_events (o.now w) events w
