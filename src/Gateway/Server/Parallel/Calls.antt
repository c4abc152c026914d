-- ===== src/Gateway/Server/Parallel/Calls.antt =====
-- With which orders a gateway with concurrent handlers calls the two services and the sink
-- (apps/fairness-gateway/gateway/server.go, fork.go).
use mathlib.Core.List.{append-nil, Perm}
use mathlib.Core.List.Perm
use iron_book.Common.{
  ℕ, zero, suc, ◌≡◌, refl, sym, ap, ◌∙◌, List, [], ◌∷◌, map, some, length, All, length-map,
}
use iron_book.Common.Result.{Result}
use iron_book.Gateway.Proto.{NormalizedOrder}
use iron_book.Gateway.TimeService.{TimeService}
use iron_book.Gateway.Stamper.{Stamper}
use iron_book.Gateway.Fork.{Intakes}
use iron_book.Gateway.Server.{RestOrder, Request, Server}
use iron_book.Gateway.Server.Parallel.{
  Handling, Turn, arrive, Schedule, drain, advance_at, interleave, serve_all,
}
use iron_book.Gateway.Server.Parallel.Ends.{IsEnded, drain-IsEnded}
use iron_book.Gateway.Server.Parallel.Orders.{
  recording, sink_orders, HasSink, to_submission, to_oracle, to_sink, of_all, AddsAll, Adds-head,
  AddsAll-tail, AddsAll-Perm, served_order, of_all-served, of_all-arrive, IsEnded-to_submission,
  IsEnded-to_oracle, IsEnded-to_sink,
}
use iron_book.Gateway.Server.Parallel.Turns.{advance-Turned}

module _ (sha256 : List ℕ → List ℕ) (run_secret : List ℕ) (t : TimeService) (f : Intakes) where
  abbrev Shared : Type 0
  Shared = Server sha256 run_secret t (recording f)

  record TurnedAll (hs hs' : List Handling) (s s' : Shared) : Type 0 where
    sub : AddsAll to_submission s.intakes.0 s'.intakes.0 hs hs'
    orc : AddsAll to_oracle s.intakes.1 s'.intakes.1 hs hs'
    seen : AddsAll to_sink (sink_orders s.sink) (sink_orders s'.sink) hs hs'
    has : HasSink s'.sink

  idle : (c : Handling → List NormalizedOrder) (x : List NormalizedOrder) → AddsAll c x x [] []
  idle c x = record { added = []; log = sym (append-nil x); part = Perm.refl [] }

  advance_at-TurnedAll :
      (i : ℕ) (turn : Turn) (hs : List Handling) (s : Shared)
      → HasSink s.sink
      → let (hs', s') = advance_at sha256 run_secret t (recording f) i turn hs s in
        TurnedAll hs hs' s s'
  unfolding advance_at
  advance_at-TurnedAll i turn [] s has = record {
    sub = idle to_submission s.intakes.0;
    orc = idle to_oracle s.intakes.1;
    seen = idle to_sink (sink_orders s.sink);
    has = has;
  }
  advance_at-TurnedAll zero turn (h ∷ hs) s has =
      let r = advance-Turned sha256 run_secret t f turn h s has in
      record {
        sub = Adds-head to_submission hs r.sub;
        orc = Adds-head to_oracle hs r.orc;
        seen = Adds-head to_sink hs r.seen;
        has = r.has;
      }
  advance_at-TurnedAll (suc i) turn (h ∷ hs) s has =
      let r = advance_at-TurnedAll i turn hs s has in
      record {
        sub = AddsAll-tail to_submission h r.sub;
        orc = AddsAll-tail to_oracle h r.orc;
        seen = AddsAll-tail to_sink h r.seen;
        has = r.has;
      }

  -- What each was called with is what the handlers have sent to it.
  record IsSent (hs : List Handling) (s : Shared) : Type 0 where
    sub : Perm s.intakes.0 (of_all to_submission hs)
    orc : Perm s.intakes.1 (of_all to_oracle hs)
    seen : Perm (sink_orders s.sink) (of_all to_sink hs)
    has : HasSink s.sink

  interleave-IsSent :
      (schedule : Schedule) (hs : List Handling) (s : Shared)
      → IsSent hs s
      → let (hs', s') = interleave sha256 run_secret t (recording f) schedule hs s in IsSent hs' s'
  unfolding interleave
  interleave-IsSent [] hs s v = v
  interleave-IsSent ((i, turn) ∷ schedule) hs s v =
      let r = advance_at-TurnedAll i turn hs s v.has in
      interleave-IsSent schedule _ _ (record {
        sub = AddsAll-Perm to_submission r.sub v.sub;
        orc = AddsAll-Perm to_oracle r.orc v.orc;
        seen = AddsAll-Perm to_sink r.seen v.seen;
        has = r.has;
      })

  advance_at-length :
      (i : ℕ) (turn : Turn) (hs : List Handling) (s : Shared)
      → length (advance_at sha256 run_secret t (recording f) i turn hs s).0 ≡ length hs
  unfolding advance_at
  advance_at-length i turn [] s = refl
  advance_at-length zero turn (h ∷ hs) s = refl
  advance_at-length (suc i) turn (h ∷ hs) s = ap suc (advance_at-length i turn hs s)

  interleave-length :
      (schedule : Schedule) (hs : List Handling) (s : Shared)
      → length (interleave sha256 run_secret t (recording f) schedule hs s).0 ≡ length hs
  unfolding interleave
  interleave-length [] hs s = refl
  interleave-length ((i, turn) ∷ schedule) hs s =
      interleave-length schedule _ _ ∙ advance_at-length i turn hs s

  -- Where every handler has ended: one for each request, and what each of the three was called with.
  pub record AllCalled (requests : ℕ) (hs : List Handling) (s : Shared) : Type 0 where
    pub each : length hs ≡ requests
    pub ended : All IsEnded hs
    pub submission : Perm s.intakes.0 (of_all served_order hs)
    pub oracle : Perm s.intakes.1 (of_all served_order hs)
    pub sink : Perm (sink_orders s.sink) (of_all served_order hs)

  ended-AllCalled :
      (n : ℕ) (hs : List Handling) (s : Shared)
      → length hs ≡ n
      → All IsEnded hs
      → IsSent hs s
      → AllCalled n hs s
  ended-AllCalled n hs s e ended v = record {
    each = e;
    ended = ended;
    submission = rw (← of_all-served to_submission IsEnded-to_submission hs ended) v.sub;
    oracle = rw (← of_all-served to_oracle IsEnded-to_oracle hs ended) v.orc;
    sink = rw (← of_all-served to_sink IsEnded-to_sink hs ended) v.seen;
  }

  -- Whatever requests a gateway with an empty sink serves at once, and however their handlers and
  -- goroutines interleave: once each handler has been let go on, all have ended, one for each
  -- request, and the submission, the oracle and the sink have each been called with exactly the
  -- orders of the handlers that were not refused, once each, in an order of its own. A call that
  -- fails counts as a call.
  pub serve_all-AllCalled :
      {B : Type 0} (decode : B → Result RestOrder) (schedule : Schedule) (rs : List (Request B))
      (stamper : Stamper) (time : t.World) (w : f.World)
      → let s : Shared = record {
        stamper = stamper;
        sink = some [];
        time = time;
        intakes = ([], [], w);
      } in
        let (hs, s') = serve_all sha256 run_secret t (recording f) decode schedule rs s in
        AllCalled (length rs) hs s'
  unfolding serve_all
  serve_all-AllCalled decode schedule rs stamper time w =
      let s : Shared = record {
        stamper = stamper;
        sink = some [];
        time = time;
        intakes = ([], [], w);
      } in
      let (hs, s') =
        interleave sha256 run_secret t (recording f) schedule (map (arrive decode) rs) s in
      let count : length hs ≡ length rs =
        interleave-length schedule (map (arrive decode) rs) s ∙ length-map (arrive decode) rs in
      let start : IsSent (map (arrive decode) rs) s = record {
        sub = rw (of_all-arrive to_submission (λ ro. refl) (λ h. refl) decode rs) (Perm.refl []);
        orc = rw (of_all-arrive to_oracle (λ ro. refl) (λ h. refl) decode rs) (Perm.refl []);
        seen = rw (of_all-arrive to_sink (λ ro. refl) (λ h. refl) decode rs) (Perm.refl []);
        has = tt;
      } in
      ended-AllCalled (length rs) _ _ (interleave-length (drain (length rs)) hs s' ∙ count)
        (rw count at (drain-IsEnded sha256 run_secret t (recording f) hs s'))
        (interleave-IsSent (drain (length rs)) hs s' (interleave-IsSent schedule _ s start))
