-- ===== src/Gateway/Server/Recorded.antt =====
-- What one request leaves with the services and the sink
-- (apps/fairness-gateway/gateway/server.go, fork.go).
use mathlib.Core.List.{append-nil, append_assoc}
use iron_book.Common.{ℕ, String, ◌≡◌, refl, sym, ap, ◌∙◌, ◌⊎◌, inl, inr, List, [], ◌∷◌, ◌++◌}
use iron_book.Common.Result.{Result, ok, err}
use iron_book.Gateway.Proto.{NormalizedOrder, Reply}
use iron_book.Gateway.TimeService.{TimeService}
use iron_book.Gateway.Stamper.{Stamper}
use iron_book.Gateway.Stamper.Batch.{next_error}
use iron_book.Gateway.Fork.{
  Intakes, Source, submission, oracle, on_in, record_in, tee, Sink, process, Processed,
}
use iron_book.Gateway.Fork.Serial.{process-serial}
use iron_book.Gateway.Server.{
  RestOrder, Timing, Request, Server, normalize, fan_out, handle, decoded, handle_order,
}
use iron_book.Gateway.Server.Parallel.Orders.{
  recording, sink_orders, HasSink, sink_orders-record_in, sink_orders-tee, record_in-HasSink,
  tee-HasSink,
}

module _ (sha256 : List ℕ → List ℕ) (run_secret : List ℕ) (t : TimeService) (f : Intakes) where
  abbrev Gateway : Type 0
  Gateway = Server sha256 run_secret t (recording f)

  -- The submission, the oracle and the sink were each called with these orders, in this order,
  -- behind those of before; a call that fails counts as a call.
  pub record Called (s s' : Gateway) (orders : List NormalizedOrder) : Type 0 where
    pub submission : s'.intakes.0 ≡ s.intakes.0 ++ orders
    pub oracle : s'.intakes.1 ≡ s.intakes.1 ++ orders
    pub sink : sink_orders s'.sink ≡ sink_orders s.sink ++ orders
    pub has : HasSink s'.sink

  pub Called-none :
      (s : Gateway) (stamper : Stamper) (time : t.World)
      → HasSink s.sink
      → Called s (record s { stamper = stamper; time = time }) []
  Called-none s stamper time has = record {
    submission = sym (append-nil s.intakes.0);
    oracle = sym (append-nil s.intakes.1);
    sink = sym (append-nil (sink_orders s.sink));
    has = has;
  }

  pub Called-append :
      {s s' s'' : Gateway} {orders orders' : List NormalizedOrder}
      → Called s s' orders
      → Called s' s'' orders'
      → Called s s'' (orders ++ orders')
  Called-append {s} {orders} {orders'} a b = record {
    submission = rw (b.submission, a.submission) (append_assoc s.intakes.0 orders orders');
    oracle = rw (b.oracle, a.oracle) (append_assoc s.intakes.1 orders orders');
    sink = rw (b.sink, a.sink) (append_assoc (sink_orders s.sink) orders orders');
    has = b.has;
  }

  -- The sink after `OnIn` and both `OnReply`s.
  teed :
      (o : NormalizedOrder) (a b : Source) (x y : Result Reply) (k k' : Sink)
      → HasSink k
      → k' ≡ tee o b y (tee o a x (record_in (on_in o) k))
      → (sink_orders k' ≡ sink_orders k ++ o ∷ []) × HasSink k'
  teed o a b x y k k' has e = (
    rw e (sink_orders-tee o b y _ ∙ sink_orders-tee o a x _ ∙ sink_orders-record_in o k has),
    rw e (tee-HasSink o b y _ (tee-HasSink o a x _ (record_in-HasSink (on_in o) k has))),
  )

  -- The same for what a serial execution says of the sink.
  sink_after :
      (o : NormalizedOrder) (x y : Result Reply) (k k' : Sink)
      → HasSink k
      → (k' ≡ tee o oracle y (tee o submission x (record_in (on_in o) k)))
        ⊎ (k' ≡ tee o submission x (tee o oracle y (record_in (on_in o) k)))
      → (sink_orders k' ≡ sink_orders k ++ o ∷ []) × HasSink k'
  sink_after o x y k k' has (inl e) = teed _ submission oracle _ _ _ _ has e
  sink_after o x y k k' has (inr e) = teed _ oracle submission _ _ _ _ has e

  process-Called :
      (o : NormalizedOrder) (schedule : List Source) (s : Gateway) (stamper : Stamper)
      (time : t.World)
      → HasSink s.sink
      → let p : Processed (recording f) = process (recording f) o schedule s.sink s.intakes in
        Called s
          (record { stamper = stamper; sink = p.sink; time = time; intakes = p.world })
          (o ∷ [])
  process-Called o schedule s stamper time has =
      elim (process-serial (recording f) o schedule s.sink s.intakes) [
        | inl e ↦
            let (log, still) = sink_after o _ _ s.sink _ has e.recorded in
            record {
              submission = ap (λ v. v.0) e.reached;
              oracle = ap (λ v. v.1) e.reached;
              sink = log;
              has = still;
            }
        | inr e ↦
            let (log, still) = sink_after o _ _ s.sink _ has e.recorded in
            record {
              submission = ap (λ v. v.0) e.reached;
              oracle = ap (λ v. v.1) e.reached;
              sink = log;
              has = still;
            }
      ]

  -- What becomes of one order: both services are called with it and a stamp, or the time-service
  -- has refused a block and neither is called.
  pub data Fate (ro : RestOrder) (s s' : Gateway) : Type 0 where
    forwarded :
        (stamp : ℕ × ℕ) → Called s s' (normalize sha256 run_secret stamp ro ∷ []) → Fate ro s s'
    dropped :
        (n : ℕ) (w : t.World) (m : String)
        → (t.next_stamps n w).0 ≡ err m
        → Called s s' []
        → Fate ro s s'

  fan_out-Fate :
      (ro : RestOrder) (timing : Timing) (s : Gateway) (stamp : Result (ℕ × ℕ)) (stamper : Stamper)
      (time : t.World)
      → HasSink s.sink
      → ((m : String) → stamp ≡ err m → (n : ℕ) × (w : t.World) × (t.next_stamps n w).0 ≡ err m)
      → Fate ro s (fan_out sha256 run_secret t (recording f) ro timing s stamp stamper time).1
  unfolding fan_out
  fan_out-Fate ro timing s (err m) stamper time has why =
      let (n, w, refused) = why m refl in dropped n w m refused (Called-none s stamper time has)
  fan_out-Fate ro timing s (ok stamp) stamper time has why =
      forwarded stamp (process-Called _ timing.schedule s stamper time has)

  pub handle_order-Fate :
      {B : Type 0} (decode : B → Result RestOrder) (r : Request B) (ro : RestOrder) (s : Gateway)
      → r.method ≡ "POST"
      → decode r.body ≡ ok ro
      → HasSink s.sink
      → Fate ro s (handle_order sha256 run_secret t (recording f) decode r s).1
  unfolding handle_order decoded handle
  handle_order-Fate decode r ro s post reads has =
      rw (post, reads)
        (fan_out-Fate ro r.timing s _ _ _ has (λ m e. (
          s.stamper.batch_size,
          s.time,
          (next_error t s.stamper r.timing.fetched r.timing.now s.time m e).2,
        )))
