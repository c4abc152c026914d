-- ===== src/Gateway/Server/Parallel/Stream.antt =====
-- The orders that a gateway with concurrent handlers has handed on
-- (apps/fairness-gateway/gateway/server.go, fork.go, stamper.go).
use mathlib.Core.List.{Perm}
use mathlib.Core.List.Perm
use iron_book.Common.{ℕ, ◌<◌, refl, arith, List, [], map, some, length}
use iron_book.Common.Int.{two64}
use iron_book.Common.Result.{Result}
use iron_book.Gateway.Proto.{NormalizedOrder}
use iron_book.Gateway.TimeService.{TimeService, Issues}
use iron_book.Gateway.Stamper.{new_stamper}
use iron_book.Gateway.Fork.{Intakes}
use iron_book.Gateway.Server.{RestOrder, Request, Server}
use iron_book.Gateway.Server.Session.{Rising}
use iron_book.Gateway.Server.Parallel.{Handling, arrive, Schedule, drain, interleave, serve_all}
use iron_book.Gateway.Server.Parallel.Orders.{
  recording, sink_orders, of_all, served_order, of_all-served, of_all-arrive,
}
use iron_book.Gateway.Server.Parallel.Calls.{AllCalled, serve_all-AllCalled}
use iron_book.Gateway.Server.Parallel.Stamps.{
  stamped_order, IsEnded-stamped_order, seqs, IsStamped, interleave-grows, interleave-IsStamped,
}

module _ (sha256 : List ℕ → List ℕ) (run_secret : List ℕ) (t : TimeService) (f : Intakes)
    (i : Issues t) where
  abbrev Recorded : Type 0
  Recorded = Server sha256 run_secret t (recording f)

  -- The three were called with one list of orders, whose numbers increase strictly.
  pub record OneStream (s : Recorded) : Type 0 where
    pub orders : List NormalizedOrder
    pub rising : Rising 0 (seqs orders) s.stamper.next_seq
    pub sink : Perm (sink_orders s.sink) orders
    pub submission : Perm s.intakes.0 orders
    pub oracle : Perm s.intakes.1 orders

  ended-OneStream :
      (n : ℕ) (hs : List Handling) (s : Recorded)
      → AllCalled sha256 run_secret t f n hs s
      → IsStamped sha256 run_secret t (recording f) i hs s
      → OneStream s
  ended-OneStream n hs s d v =
      let e = of_all-served stamped_order IsEnded-stamped_order hs d.ended in
      let back : Perm (of_all served_order hs) v.orders = Perm.symm (rw e at v.stamped) in
      record {
        orders = v.orders;
        rising = v.rises;
        sink = Perm.trans d.sink back;
        submission = Perm.trans d.submission back;
        oracle = Perm.trans d.oracle back;
      }

  -- However the handlers of a gateway with a new stamper and an empty sink interleave, and
  -- whichever of the calls fail, the orders that the sink, the submission and the oracle were each
  -- called with when all handlers have ended are, up to their order, one list whose platform
  -- sequence numbers increase strictly; a call that fails counts as a call. This holds while the time-service keeps its contract and its numbers
  -- stay below 2^64.
  pub serve_all-OneStream :
      {B : Type 0} (decode : B → Result RestOrder) (schedule : Schedule) (rs : List (Request B))
      (batch_size : ℕ) (time : t.World) (w : f.World)
      → let s : Recorded = record {
        stamper = new_stamper batch_size;
        sink = some [];
        time = time;
        intakes = ([], [], w);
      } in
        let s' = (serve_all sha256 run_secret t (recording f) decode schedule rs s).1 in
        i.issued s'.time < two64 → OneStream s'
  unfolding serve_all new_stamper
  serve_all-OneStream decode schedule rs batch_size time w bound =
      let s : Recorded = record {
        stamper = new_stamper batch_size;
        sink = some [];
        time = time;
        intakes = ([], [], w);
      } in
      let (hs, s') =
        interleave sha256 run_secret t (recording f) schedule (map (arrive decode) rs) s in
      let start : IsStamped sha256 run_secret t (recording f) i (map (arrive decode) rs) s =
        record {
          window = record { ordered = omega arith; covered = omega arith };
          orders = [];
          rises = omega arith;
          stamped =
              rw (of_all-arrive stamped_order (λ ro. refl) (λ h. refl) decode rs) (Perm.refl []);
        } in
      let before = interleave-grows sha256 run_secret t (recording f) i (drain (length rs)) hs s' in
      ended-OneStream (length rs) _ _
        (serve_all-AllCalled sha256 run_secret t f decode schedule rs (new_stamper batch_size) time
          w)
        (interleave-IsStamped sha256 run_secret t (recording f) i (drain (length rs)) hs s'
          (interleave-IsStamped sha256 run_secret t (recording f) i schedule _ s start
            (omega (arith, before)))
          bound)
