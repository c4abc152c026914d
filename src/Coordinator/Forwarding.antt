-- ===== src/Coordinator/Forwarding.antt =====
-- The dispatcher with the gateway behind it: `post` of apps/bot-coordinator/coordinator/dispatcher.go
-- sends each order to `HandleOrder` of apps/fairness-gateway/gateway/server.go.
pub mod Examples
pub mod Ids
use iron_book.Common.{
  Bool, false, if◌then◌else◌, ℕ, String, ◌≡◌, ◌≢◌, refl, sym, ap, ◌∙◌, subst, inl, inr, Bool-cases,
  List, [], ◌∷◌, ◌++◌, none, str_eq, eq_iff, ltb,
}
use mathlib.Core.List.{append-nil}
use iron_book.Common.Result.{Result, ok, err}
use iron_book.Gateway.Proto.{NormalizedOrder}
use iron_book.Gateway.TimeService.{TimeService}
use iron_book.Gateway.Fork.{Intakes}
use iron_book.Gateway.Server.{RestOrder, Timing, Request, Server, normalize, handle_order}
use iron_book.Gateway.Server.Parallel.Orders.{recording, HasSink}
use iron_book.Gateway.Server.Recorded.{
  Called, Called-none, Called-append, Fate, forwarded, dropped, handle_order-Fate,
}
use iron_book.Coordinator.Schedule.{Event}
use iron_book.Coordinator.Dispatcher.{
  DispatchError, Outside, order_of, time_until, pause, run_events, run,
}
use iron_book.Coordinator.Dispatcher.Posts.{IsQuiet, run_events-turn, run_events-quiet}

-- Every post is answered: none returns an error.
pub record IsAnswered (o : Outside) : Type 0 where
  pub no_error : (ro : RestOrder) (w : o.World) → (o.send ro w).0 ≡ false

-- The JSON that `post` marshals and that the gateway's decoder reads: `encoding/json` reads back what
-- it wrote.
pub record Json (B : Type 0) : Type 0 where
  pub encode : RestOrder → B
  pub decode : B → Result RestOrder
  pub agrees : (ro : RestOrder) → decode (encode ro) ≡ ok ro

module _ (sha256 : List ℕ → List ℕ) (run_secret : List ℕ) (t : TimeService) (f : Intakes) where
  abbrev Gateway : Type 0
  Gateway = Server sha256 run_secret t (recording f)

  -- The orders of the events, each with the stamp that it got; an event is left out only where the
  -- time-service has refused a block.
  pub data Stream : List Event → List NormalizedOrder → Type 0 where
    end : Stream [] []
    stamped :
        {e : Event} {events : List Event} {orders : List NormalizedOrder} (stamp : ℕ × ℕ)
        → Stream events orders
        → Stream (e ∷ events) (normalize sha256 run_secret stamp (order_of e) ∷ orders)
    unstamped :
        {e : Event} {events : List Event} {orders : List NormalizedOrder} (n : ℕ) (w : t.World)
        (m : String)
        → (t.next_stamps n w).0 ≡ err m
        → Stream events orders
        → Stream (e ∷ events) orders

  -- The gateway has called the services and the sink with the orders of `Stream`.
  pub record Forwarded (s s' : Gateway) (events : List Event) : Type 0 where
    pub orders : List NormalizedOrder
    pub stream : Stream events orders
    pub called : Called sha256 run_secret t f s s' orders

  Forwarded-turn :
      (e : Event) (events : List Event) (s s' s'' : Gateway)
      → Fate sha256 run_secret t f (order_of e) s s'
      → Forwarded s' s'' events
      → Forwarded s s'' (e ∷ events)
  Forwarded-turn e events s s' s'' (forwarded stamp r) d = record {
    orders = normalize sha256 run_secret stamp (order_of e) ∷ d.orders;
    stream = stamped stamp d.stream;
    called = Called-append sha256 run_secret t f r d.called;
  }
  Forwarded-turn e events s s' s'' (dropped n w m refused r) d = record {
    orders = d.orders;
    stream = unstamped n w m refused d.stream;
    called = Called-append sha256 run_secret t f r d.called;
  }

  Fate-HasSink :
      (ro : RestOrder) (s s' : Gateway) → Fate sha256 run_secret t f ro s s' → HasSink s'.sink
  Fate-HasSink ro s s' (forwarded stamp r) = r.has
  Fate-HasSink ro s s' (dropped n w m refused r) = r.has

  module _ {B : Type 0} (json : Json B) where
    -- The request that `post` makes.
    abbrev pub posted : RestOrder → Timing → Request B
    posted ro timing = record { method = "POST"; body = json.encode ro; timing = timing }

    -- A post that returns no error was answered, so the gateway has handled it before the next. Of a
    -- post that fails, on its way, in the connection or by the time limit of the client, the gateway
    -- may have got nothing or something and may still be at work: `unanswered` stands for what it
    -- has done. `timing` is what the handler takes from outside.
    abbrev pub through_gateway :
        (o : Outside) → (o.World → Timing) → (RestOrder → o.World → Gateway → Gateway) → Outside
    through_gateway o timing unanswered = record {
      World = o.World × Gateway;
      now = λ w. o.now w.0;
      wait = λ dt w. let (woke, w') = o.wait dt w.0 in (woke, (w', w.1));
      send = λ ro w.
          let handled =
            handle_order sha256 run_secret t (recording f) json.decode (posted ro (timing w.0))
              w.1 in
          let sent = o.send ro w.0 in
          (sent.0, (sent.1, if sent.0 then unanswered ro w.0 w.1 else handled.1));
      done = λ w. o.done w.0;
    }

    module _ (o : Outside) (q : IsQuiet o) (answered : IsAnswered o) (timing : o.World → Timing)
        (unanswered : RestOrder → o.World → Gateway → Gateway) where
      gateway-IsQuiet : IsQuiet (through_gateway o timing unanswered)
      gateway-IsQuiet = record {
        timer_first = λ dt w. q.timer_first dt w.0;
        not_done = λ w. q.not_done w.0;
      }

      pause-gateway :
          (dt : ℕ) (w : o.World × Gateway)
          → (pause (through_gateway o timing unanswered) dt w).1.1 ≡ w.1
      unfolding pause
      pause-gateway dt w = elim (Bool-cases (ltb 0 dt)) [ inl e ↦ rw e refl | inr e ↦ rw e refl ]

      run_events-Forwarded :
          (start : ℕ) (events : List Event) (w : o.World × Gateway)
          → HasSink w.1.sink
          → Forwarded w.1
              (run_events (through_gateway o timing unanswered) start events w).1.1
              events
      unfolding run_events
      run_events-Forwarded start [] w has = record {
        orders = [];
        stream = end;
        called = Called-none sha256 run_secret t f w.1 w.1.stamper w.1.time has;
      }
      run_events-Forwarded start (e ∷ events) w has =
          let g = through_gateway o timing unanswered in
          let w₁ = (pause g (time_until start e.offset_ns (g.now w)) w).1 in
          let w₂ = (g.send (order_of e) w₁).1 in
          let same = pause-gateway (time_until start e.offset_ns (g.now w)) w in
          let handled =
            handle_order sha256 run_secret t (recording f) json.decode
              (posted (order_of e) (timing w₁.0)) w₁.1 in
          let fate =
            subst
              (λ (b : Bool).
                Fate sha256 run_secret t f (order_of e) w₁.1
                  (if b then unanswered (order_of e) w₁.0 w₁.1 else handled.1))
              (sym (answered.no_error (order_of e) w₁.0))
              (handle_order-Fate sha256 run_secret t f json.decode
                (posted (order_of e) (timing w₁.0)) (order_of e) w₁.1 refl
                (json.agrees (order_of e)) (subst (λ s. HasSink s.sink) (sym same) has)) in
          let rest =
            run_events-Forwarded start events w₂ (Fate-HasSink (order_of e) w₁.1 w₂.1 fate) in
          let all = Forwarded-turn e events w₁.1 w₂.1 _ fate rest in
          rw (run_events-turn g gateway-IsQuiet start e events w)
            (subst (λ s. Forwarded s (run_events g start events w₂).1.1 (e ∷ events)) same all)

pub run-Forwarded :
    (sha256 : List ℕ → List ℕ) (run_secret : List ℕ) (t : TimeService) (f : Intakes)
    → {B : Type 0} (json : Json B) (o : Outside) (q : IsQuiet o) (answered : IsAnswered o)
      (timing : o.World → Timing)
      (unanswered : RestOrder
        → o.World
        → Server sha256 run_secret t (recording f)
        → Server sha256 run_secret t (recording f))
    → (gateway_url : String) (events : List Event) (w : o.World)
      (s : Server sha256 run_secret t (recording f))
    → gateway_url ≢ ""
    → HasSink s.sink
    → let r =
        run
          (through_gateway sha256 run_secret t f json o timing unanswered)
          gateway_url
          events
          (w, s) in
      (r.0 ≡ none) × Forwarded sha256 run_secret t f s r.1.1 events
unfolding run
run-Forwarded sha256 run_secret t f json o q answered timing unanswered gateway_url events w s ne
      has =
    elim (Bool-cases (str_eq gateway_url "")) [
      | inl e ↦ absurd (ne ((eq_iff gateway_url "").0 e))
      | inr e ↦ rw e (
        run_events-quiet (through_gateway sha256 run_secret t f json o timing unanswered)
            (gateway-IsQuiet sha256 run_secret t f json o q answered timing unanswered) (o.now w)
            events (w, s),
        run_events-Forwarded sha256 run_secret t f json o q answered timing unanswered (o.now w)
            events (w, s) has,
      )
    ]
