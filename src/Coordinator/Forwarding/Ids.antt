-- ===== src/Coordinator/Forwarding/Ids.antt =====
-- A compiled schedule that is run against the gateway
-- (apps/bot-coordinator/coordinator/schedule.go, dispatcher.go;
-- apps/fairness-gateway/gateway/server.go).
use iron_book.Common.{
  ℕ, ◌*◌, ◌≤◌, ◌≡◌, ◌≢◌, refl, arith, String, List, [], ◌∷◌, All, length, none, some,
}
use iron_book.Common.Int.{ℤ, pos}
use iron_book.Gateway.Proto.{NormalizedOrder}
use iron_book.Gateway.TimeService.{TimeService}
use iron_book.Gateway.Stamper.{Stamper}
use iron_book.Gateway.Fork.{Intakes}
use iron_book.Gateway.Server.{RestOrder, Timing, Server, normalize}
use iron_book.Gateway.Server.Parallel.Orders.{recording, sink_orders}
use iron_book.Coordinator.Schedule.{Event, Rand, IsBounded, compile}
use iron_book.Coordinator.Schedule.Offsets.{compile-OneEachMs}
use iron_book.Coordinator.Dispatcher.{Outside, order_of, run}
use iron_book.Coordinator.Dispatcher.Posts.{IsQuiet}
use iron_book.Coordinator.Dispatcher.Orders.{DifferentIds, AllDifferent, compile-AllDifferent}
use iron_book.Coordinator.Forwarding.{
  IsAnswered, Json, through_gateway, Stream, end, stamped, unstamped, Forwarded, run-Forwarded,
}

abbrev pub OtherId : NormalizedOrder → NormalizedOrder → Type 0
OtherId x y = x.client_order_id ≢ y.client_order_id

-- Every two of the orders have different client order ids.
abbrev pub OwnIds : List NormalizedOrder → Type 0
OwnIds [] = Unit
OwnIds (x ∷ orders) = All (OtherId x) orders × OwnIds orders

module _ (sha256 : List ℕ → List ℕ) (run_secret : List ℕ) (t : TimeService) (f : Intakes) where
  Stream-OtherId :
      {events : List Event} {orders : List NormalizedOrder} (e : Event) (stamp : ℕ × ℕ)
      → Stream sha256 run_secret t f events orders
      → All (DifferentIds sha256 run_secret e) events
      → All (OtherId (normalize sha256 run_secret stamp (order_of e))) orders
  Stream-OtherId e stamp end h = tt
  Stream-OtherId e stamp (stamped stamp' s) h =
      (h.0.differ stamp stamp', Stream-OtherId e stamp s h.1)
  Stream-OtherId e stamp (unstamped n w m refused s) h = Stream-OtherId e stamp s h.1

  Stream-OwnIds :
      {events : List Event} {orders : List NormalizedOrder}
      → Stream sha256 run_secret t f events orders
      → AllDifferent sha256 run_secret events
      → OwnIds orders
  Stream-OwnIds end h = tt
  Stream-OwnIds (stamped {e} stamp s) h = (Stream-OtherId e stamp s h.0, Stream-OwnIds s h.1)
  Stream-OwnIds (unstamped n w m refused s) h = Stream-OwnIds s h.1

  Stream-length :
      {events : List Event} {orders : List NormalizedOrder}
      → Stream sha256 run_secret t f events orders
      → length orders ≤ length events
  Stream-length end = omega arith
  Stream-length (stamped stamp s) = omega (arith, Stream-length s)
  Stream-length (unstamped n w m refused s) = omega (arith, Stream-length s)

  -- The calls of a gateway that started with none: the same orders to all three, with ids of their
  -- own, and at most `n`.
  pub record AllOwn (n : ℕ) (s : Server sha256 run_secret t (recording f)) : Type 0 where
    pub oracle_same : s.intakes.1 ≡ s.intakes.0
    pub sink_same : sink_orders s.sink ≡ s.intakes.0
    pub own : OwnIds s.intakes.0
    pub at_most : length s.intakes.0 ≤ n

  Forwarded-AllOwn :
      (n : ℕ) (events : List Event) (stamper : Stamper) (time : t.World) (v : f.World)
      (s : Server sha256 run_secret t (recording f))
      → length events ≡ n
      → AllDifferent sha256 run_secret events
      → Forwarded sha256 run_secret t f
          (record { stamper = stamper; sink = some []; time = time; intakes = ([], [], v) })
          s
          events
      → AllOwn n s
  Forwarded-AllOwn n events stamper time v s count ids d =
      let small = Stream-length d.stream in
      record {
        oracle_same = rw (d.called.oracle, d.called.submission) refl;
        sink_same = rw (d.called.sink, d.called.submission) refl;
        own = rw d.called.submission (Stream-OwnIds d.stream ids);
        at_most = rw d.called.submission (omega (arith, small, count));
      }

-- A schedule compiled for d seconds, run through a gateway that starts with an empty sink, in a
-- context that is never done and with every post answered: the gateway calls the submission, the
-- oracle and the sink with the same orders in the same order, at most one thousand for each second,
-- and every two of them have different client order ids. The generator keeps its bounds, d is at most
-- about 584 years in seconds, and the gateway's address is given.
pub compiled_run-AllOwn :
    (sha256 : List ℕ → List ℕ) (run_secret : List ℕ) (t : TimeService) (f : Intakes)
    → {B : Type 0} (json : Json B) (o : Outside) (q : IsQuiet o) (answered : IsAnswered o)
      (timing : o.World → Timing)
      (unanswered : RestOrder
        → o.World
        → Server sha256 run_secret t (recording f)
        → Server sha256 run_secret t (recording f))
    → (gateway_url : String) (rand : Rand) (law : IsBounded rand) (yaml_spec : String) (seed : ℤ)
      (d : ℕ) (w : o.World) (stamper : Stamper) (time : t.World) (v : f.World)
    → gateway_url ≢ ""
    → d ≤ 18446744073
    → let s : Server sha256 run_secret t (recording f) = record {
      stamper = stamper;
      sink = some [];
      time = time;
      intakes = ([], [], v);
    } in
      let r =
        run
          (through_gateway sha256 run_secret t f json o timing unanswered)
          gateway_url
          (compile rand yaml_spec seed (pos d))
          (w, s) in
      (r.0 ≡ none) × AllOwn sha256 run_secret t f (d * 1000) r.1.1
compiled_run-AllOwn sha256 run_secret t f json o q answered timing unanswered gateway_url rand law
      yaml_spec seed d w stamper time v ne small =
    let r =
      run-Forwarded sha256 run_secret t f json o q answered timing unanswered gateway_url
        (compile rand yaml_spec seed (pos d)) w
        (record { stamper = stamper; sink = some []; time = time; intakes = ([], [], v) }) ne tt in
    (
      r.0,
      Forwarded-AllOwn sha256 run_secret t f (d * 1000) (compile rand yaml_spec seed (pos d))
          stamper time v _ (compile-OneEachMs rand yaml_spec seed d small).0
          (compile-AllDifferent sha256 run_secret rand law yaml_spec seed d small) r.1,
    )
