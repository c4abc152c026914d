-- ===== src/Gateway/Server/Parallel/Turns.antt =====
-- One turn of a handler, seen by the two services and by the sink
-- (apps/fairness-gateway/gateway/server.go, fork.go).
use iron_book.Common.{ℕ, ◌≡◌, refl, ap, List, [], ◌∷◌}
use iron_book.Common.Result.{Result, ok, err}
use iron_book.Gateway.Proto.{NormalizedOrder}
use iron_book.Gateway.TimeService.{TimeService}
use iron_book.Gateway.Fork.{
  Intakes, submission, oracle, on_in, Thread, calling, called, done, move, move_sub, move_orc,
}
use iron_book.Gateway.Server.{RestOrder, Server}
use iron_book.Gateway.Server.Parallel.{
  Handling, arrived, stamped, forked, refused, served, Turn, handler, goroutine, waited, with_stamp,
  advance,
}
use iron_book.Gateway.Server.Parallel.Orders.{
  recording, sink_orders, HasSink, to_submission, to_oracle, to_sink, Adds, nothing,
  sink_orders-record_in, sink_orders-tee, record_in-HasSink, tee-HasSink,
}

module _ (sha256 : List ℕ → List ℕ) (run_secret : List ℕ) (t : TimeService) (f : Intakes) where
  abbrev pub Shared : Type 0
  Shared = Server sha256 run_secret t (recording f)

  -- One turn, seen by the two services and by the sink.
  pub record Turned (h h' : Handling) (s s' : Shared) : Type 0 where
    pub sub : Adds to_submission s.intakes.0 s'.intakes.0 h h'
    pub orc : Adds to_oracle s.intakes.1 s'.intakes.1 h h'
    pub seen : Adds to_sink (sink_orders s.sink) (sink_orders s'.sink) h h'
    pub has : HasSink s'.sink

  silent :
      (h h' : Handling) (s s' : Shared)
      → s'.intakes ≡ s.intakes
      → s'.sink ≡ s.sink
      → HasSink s.sink
      → to_submission h' ≡ to_submission h
      → to_oracle h' ≡ to_oracle h
      → to_sink h' ≡ to_sink h
      → Turned h h' s s'
  silent h h' s s' w k has a b c = record {
    sub = nothing to_submission h h' (ap (λ v. v.0) w) a;
    orc = nothing to_oracle h h' (ap (λ v. v.1) w) b;
    seen = nothing to_sink h h' (ap sink_orders k) c;
    has = rw k has;
  }

  with_stamp-Turned :
      (ro : RestOrder) (x : Result (ℕ × ℕ)) (s s' : Shared)
      → s'.intakes ≡ s.intakes
      → s'.sink ≡ s.sink
      → HasSink s.sink
      → Turned (arrived ro) (with_stamp sha256 run_secret t (recording f) ro x) s s'
  unfolding with_stamp
  with_stamp-Turned ro (ok stamp) s s' w k has = silent _ _ s s' w k has refl refl refl
  with_stamp-Turned ro (err e) s s' w k has = silent _ _ s s' w k has refl refl refl

  waited-Turned :
      (o : NormalizedOrder) (a b : Thread) (s : Shared)
      → HasSink s.sink
      → Turned (forked o a b) (waited o a b) s s
  unfolding waited
  waited-Turned o calling b s has = silent _ _ s s refl refl has refl refl refl
  waited-Turned o (called x) b s has = silent _ _ s s refl refl has refl refl refl
  waited-Turned o (done x) calling s has = silent _ _ s s refl refl has refl refl refl
  waited-Turned o (done x) (called y) s has = silent _ _ s s refl refl has refl refl refl
  waited-Turned o (done x) (done y) s has = silent _ _ s s refl refl has refl refl refl

  sub-Turned :
      (o : NormalizedOrder) (a b : Thread) (s : Shared)
      → HasSink s.sink
      → let (h', s') =
          advance sha256 run_secret t (recording f) (goroutine submission) (forked o a b) s in
        Turned (forked o a b) h' s s'
  unfolding advance move move_sub
  sub-Turned o calling b s has = record {
    sub = record { added = o ∷ []; log = refl; part = refl };
    orc = nothing to_oracle _ _ refl refl;
    seen = nothing to_sink _ _ refl refl;
    has = has;
  }
  sub-Turned o (called x) b s has = record {
    sub = nothing to_submission _ _ refl refl;
    orc = nothing to_oracle _ _ refl refl;
    seen = nothing to_sink _ _ (sink_orders-tee o submission x s.sink) refl;
    has = tee-HasSink o submission x s.sink has;
  }
  sub-Turned o (done x) b s has = silent _ _ s s refl refl has refl refl refl

  orc-Turned :
      (o : NormalizedOrder) (a b : Thread) (s : Shared)
      → HasSink s.sink
      → let (h', s') =
          advance sha256 run_secret t (recording f) (goroutine oracle) (forked o a b) s in
        Turned (forked o a b) h' s s'
  unfolding advance move move_orc
  orc-Turned o a calling s has = record {
    sub = nothing to_submission _ _ refl refl;
    orc = record { added = o ∷ []; log = refl; part = refl };
    seen = nothing to_sink _ _ refl refl;
    has = has;
  }
  orc-Turned o a (called x) s has = record {
    sub = nothing to_submission _ _ refl refl;
    orc = nothing to_oracle _ _ refl refl;
    seen = nothing to_sink _ _ (sink_orders-tee o oracle x s.sink) refl;
    has = tee-HasSink o oracle x s.sink has;
  }
  orc-Turned o a (done x) s has = silent _ _ s s refl refl has refl refl refl

  pub advance-Turned :
      (turn : Turn) (h : Handling) (s : Shared)
      → HasSink s.sink
      → let (h', s') = advance sha256 run_secret t (recording f) turn h s in Turned h h' s s'
  unfolding advance
  advance-Turned (handler fetched now) (arrived ro) s has = with_stamp-Turned ro _ s _ refl refl has
  advance-Turned (handler fetched now) (stamped o) s has = record {
    sub = nothing to_submission _ _ refl refl;
    orc = nothing to_oracle _ _ refl refl;
    seen = record { added = o ∷ []; log = sink_orders-record_in o s.sink has; part = refl };
    has = record_in-HasSink (on_in o) s.sink has;
  }
  advance-Turned (handler fetched now) (forked o a b) s has = waited-Turned o a b s has
  advance-Turned (handler fetched now) (refused h) s has =
      silent _ _ s s refl refl has refl refl refl
  advance-Turned (handler fetched now) (served o h) s has =
      silent _ _ s s refl refl has refl refl refl
  advance-Turned (goroutine submission) (forked o a b) s has = sub-Turned o a b s has
  advance-Turned (goroutine oracle) (forked o a b) s has = orc-Turned o a b s has
  advance-Turned (goroutine who) (arrived ro) s has = silent _ _ s s refl refl has refl refl refl
  advance-Turned (goroutine who) (stamped o) s has = silent _ _ s s refl refl has refl refl refl
  advance-Turned (goroutine who) (refused h) s has = silent _ _ s s refl refl has refl refl refl
  advance-Turned (goroutine who) (served o h) s has = silent _ _ s s refl refl has refl refl refl
