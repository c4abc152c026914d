-- ===== src/Gateway/Server/Parallel/Examples.antt =====
-- Two handlers at once, with services that count their calls and the time-service of
-- crates/time-service.
use iron_book.Common.{◌+◌, String, ℕ, ◌≡◌, refl, arith, List, [], ◌∷◌, Option, none, some, length}
use iron_book.Common.Int.{pos}
use iron_book.Common.Result.{Result, ok, err}
use iron_book.Gateway.TimeService.Clock.{Clock, clock_service, clock-Issues, next_stamps}
use iron_book.Gateway.Stamper.{new_stamper, next}
use iron_book.Gateway.Fork.{Intakes, submission, oracle}
use iron_book.Gateway.Server.{RestOrder, Request, Server, normalize}
use iron_book.Gateway.Server.Parallel.{Handling, handler, goroutine, Schedule, serve_all}
use iron_book.Gateway.Server.Parallel.Orders.{recording, sink_orders}
use iron_book.Gateway.Server.Parallel.Calls.{AllCalled, serve_all-AllCalled}
use iron_book.Gateway.Server.Parallel.Stamps.{seqs}
use iron_book.Gateway.Server.Parallel.Stream.{OneStream, serve_all-OneStream}

abbrev counting : Intakes
counting = record {
  World = ℕ;
  submission = λ o w. (ok (record { ack = none; fills = [] }), w + 1);
  oracle = λ o w. (err "down", w + 10);
}

abbrev constant : List ℕ → List ℕ
constant text = 1 ∷ 2 ∷ 3 ∷ []

abbrev boot : Clock
boot = record { next_seq = 1; boot_ts_ns = 1000; elapsed = 5 }

abbrev decode : Option RestOrder → Result RestOrder
decode none = err "EOF"
decode (some ro) = ok ro

abbrev order_from : ℕ → RestOrder
order_from bot = record {
  bot_id = bot;
  local_seq = 7;
  side = "bid";
  qty = 5;
  price = pos 100;
  order_type = "limit";
  tif = "gtc";
}

abbrev request : String → Option RestOrder → Request (Option RestOrder)
request method body = record {
  method = method;
  body = body;
  timing = record { fetched = 10; now = 20; schedule = [] };
}

abbrev requests : List (Request (Option RestOrder))
requests =
    request "POST" (some (order_from 3))
    ∷ request "GET" none
    ∷ request "POST" (some (order_from 4))
    ∷ []

-- The last handler overtakes the first at the sink and at the oracle, not at the submission.
abbrev overtaking : Schedule
overtaking =
    (0, handler 10 20)
    ∷ (2, handler 10 30)
    ∷ (2, handler 0 0)
    ∷ (0, handler 0 0)
    ∷ (2, goroutine oracle)
    ∷ (0, goroutine submission)
    ∷ (2, goroutine submission)
    ∷ []

abbrev started : Server constant (4 ∷ []) clock_service (recording counting)
started = record { stamper = new_stamper 2; sink = some []; time = boot; intakes = ([], [], 0) }

abbrev after : List Handling × Server constant (4 ∷ []) clock_service (recording counting)
after =
    serve_all constant (4 ∷ []) clock_service (recording counting) decode overtaking requests
      started

-- The two services were called with the orders in opposite orders.
overtaken :
    (seqs after.1.intakes.0 ≡ 1 ∷ 2 ∷ [])
    × (seqs after.1.intakes.1 ≡ 2 ∷ 1 ∷ [])
    × (seqs (sink_orders after.1.sink) ≡ 2 ∷ 1 ∷ [])
unfolding serve_all next new_stamper next_stamps normalize
overtaken = (refl, refl, refl)

serve_all-AllCalled_example :
    AllCalled constant (4 ∷ []) clock_service counting (length requests) after.0 after.1
serve_all-AllCalled_example =
    serve_all-AllCalled constant (4 ∷ []) clock_service counting decode overtaking requests
      (new_stamper 2) boot 0

serve_all-OneStream_example :
    OneStream constant (4 ∷ []) clock_service counting clock-Issues after.1
unfolding serve_all next new_stamper next_stamps
serve_all-OneStream_example =
    serve_all-OneStream constant (4 ∷ []) clock_service counting clock-Issues decode overtaking
      requests 2 boot 0 (omega arith)
