-- ===== src/Gateway/Server/Parallel.antt =====
-- apps/fairness-gateway/gateway/server.go under net/http, which runs each request in a goroutine of
-- its own: the handlers interleave, between them only the stamper's lock and the sink's mutex.
pub mod Ends
pub mod Orders
pub mod Turns
pub mod Calls
pub mod Stamps
pub mod Stream
pub mod Examples
use iron_book.Common.{
  ℕ, zero, suc, List, [], ◌∷◌, ◌++◌, map, Option, none, some, str_eq, if◌then◌else◌, length,
}
use iron_book.Common.Text.{concat}
use iron_book.Common.Result.{Result, ok, err}
use iron_book.Gateway.Proto.{NormalizedOrder}
use iron_book.Gateway.TimeService.{TimeService}
use iron_book.Gateway.Stamper.{Stamper, next}
use iron_book.Gateway.Fork.{
  Intakes, Source, submission, oracle, on_in, record_in, Thread, calling, called, done, answer,
  outcome, move, ForkState,
}
use iron_book.Gateway.Server.{
  RestOrder, Request, Handled, replied, failed, answered, normalize, Server,
}

-- A handler: before the stamper, before `OnIn`, with its two goroutines, and at its end, with the
-- order that it has handled, if any.
pub data Handling : Type 0 where
  arrived : RestOrder → Handling
  stamped : NormalizedOrder → Handling
  forked : NormalizedOrder → Thread → Thread → Handling
  refused : Handled → Handling
  served : NormalizedOrder → Handled → Handling

-- A turn: the handler itself goes on, with the clock readings of its stamper, or one of its two
-- goroutines does.
pub data Turn : Type 0 where
  handler : ℕ → ℕ → Turn
  goroutine : Source → Turn

-- What `wg.Wait()` lets through: nothing until both goroutines are done.
pub waited : NormalizedOrder → Thread → Thread → Handling
waited o calling b = forked o calling b
waited o (called x) b = forked o (called x) b
waited o (done x) calling = forked o (done x) calling
waited o (done x) (called y) = forked o (done x) (called y)
waited o (done x) (done y) = served o (answered (outcome x y))

abbrev pub arrived_with : Result RestOrder → Handling
arrived_with (ok ro) = arrived ro
arrived_with (err e) = refused (failed 400 (concat "bad json: " e))

-- A handler after the checks of `HandleOrder` and the decoding of the body, which share no state.
unfoldable pub arrive : {B : Type 0} → (B → Result RestOrder) → Request B → Handling
arrive decode r =
    if str_eq r.method "POST"
    then arrived_with (decode r.body)
    else refused (failed 405 "method not allowed")

-- The turns that bring any handler to its end: the stamp, and what follows it.
abbrev pub from_stamp : List Turn
from_stamp =
    handler 0 0
    ∷ goroutine submission
    ∷ goroutine submission
    ∷ goroutine oracle
    ∷ goroutine oracle
    ∷ handler 0 0
    ∷ []

abbrev pub to_the_end : List Turn
to_the_end = handler 0 0 ∷ from_stamp

-- A schedule names a handler at each turn.
abbrev pub Schedule : Type 0
Schedule = List (ℕ × Turn)

abbrev pub at_first : Turn → ℕ × Turn
at_first turn = (0, turn)

abbrev pub behind : ℕ × Turn → ℕ × Turn
behind (i, turn) = (suc i, turn)

-- Each of the handlers is brought to its end.
pub drain : ℕ → Schedule
drain zero = []
drain (suc n) = map at_first to_the_end ++ map behind (drain n)

module _ (sha256 : List ℕ → List ℕ) (run_secret : List ℕ) (t : TimeService) (f : Intakes) where
  abbrev Shared : Type 0
  Shared = Server sha256 run_secret t f

  -- The stamp, or the error, that the stamper gave.
  pub with_stamp : RestOrder → Result (ℕ × ℕ) → Handling
  with_stamp ro (err e) = refused (failed 502 e)
  with_stamp ro (ok stamp) = stamped (normalize sha256 run_secret stamp ro)

  -- One turn of one handler on the state that all share.
  pub advance : Turn → Handling → Shared → Handling × Shared
  unfolding with_stamp waited move
  advance (handler fetched now) (arrived ro) s =
      let c = next t s.stamper fetched now s.time in
      (with_stamp ro c.stamp, record s { stamper = c.stamper; time = c.service })
  advance (handler fetched now) (stamped o) s =
      (forked o calling calling, record s { sink = record_in (on_in o) s.sink })
  advance (handler fetched now) (forked o a b) s = (waited o a b, s)
  advance (handler fetched now) (refused h) s = (refused h, s)
  advance (handler fetched now) (served o h) s = (served o h, s)
  advance (goroutine who) (forked o a b) s =
      let g : ForkState f =
        move f o who (record { sub = a; orc = b; sink = s.sink; world = s.intakes }) in
      (forked o g.sub g.orc, record s { sink = g.sink; intakes = g.world })
  advance (goroutine who) (arrived ro) s = (arrived ro, s)
  advance (goroutine who) (stamped o) s = (stamped o, s)
  advance (goroutine who) (refused h) s = (refused h, s)
  advance (goroutine who) (served o h) s = (served o h, s)

  -- One turn of the handler at an index; an index that names none does nothing.
  pub advance_at : ℕ → Turn → List Handling → Shared → List Handling × Shared
  unfolding advance
  advance_at i turn [] s = ([], s)
  advance_at zero turn (h ∷ hs) s = let (h', s') = advance turn h s in (h' ∷ hs, s')
  advance_at (suc i) turn (h ∷ hs) s = let (hs', s') = advance_at i turn hs s in (h ∷ hs', s')

  pub interleave : Schedule → List Handling → Shared → List Handling × Shared
  unfolding advance_at
  interleave [] hs s = (hs, s)
  interleave ((i, turn) ∷ schedule) hs s =
      let (hs', s') = advance_at i turn hs s in interleave schedule hs' s'

  -- All requests of a gateway, in any interleaving, until each handler has ended. A request that
  -- arrives later is one whose handler is not named before. The readings of the clock are those of
  -- the turns; a handler that the schedule leaves before the stamper reads 0.
  unfoldable pub serve_all :
      {B : Type 0}
      → (B → Result RestOrder)
      → Schedule
      → List (Request B)
      → Shared
      → List Handling × Shared
  unfolding interleave arrive drain
  serve_all decode schedule rs s =
      let (hs, s') = interleave schedule (map (arrive decode) rs) s in
      interleave (drain (length rs)) hs s'
