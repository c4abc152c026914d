-- ===== src/Gateway/Examples.antt =====
-- The gateway at concrete inputs: services that count their calls, the time-service of
-- crates/time-service, and a hash that gives every text the same digest.
use iron_book.Common.{
  ℕ, suc, ◌+◌, ◌≡◌, ◌≢◌, ◌⊎◌, refl, arith, List, [], ◌∷◌, ◌++◌, map, take, Option, none, some,
}
use iron_book.Common.Int.{pos}
use iron_book.Common.Result.{Result, ok, err}
use iron_book.Gateway.Proto.{NormalizedOrder, side_bid, order_type_limit, tif_gtc}
use iron_book.Gateway.TimeService.{TimeService}
use iron_book.Gateway.TimeService.Clock.{Clock, clock_service, clock-Issues, next_stamps}
use iron_book.Gateway.Stamper.{Stamper, new_stamper, run, next}
use iron_book.Gateway.Stamper.Order.{Ascending, run-Ascending}
use iron_book.Gateway.Stamper.Batch.{numbers, consecutive, run_one_refill}
use iron_book.Gateway.Identity.{put_uint64_be, session_token_for, session_token_for-collision}
use iron_book.Gateway.Fork.{Intakes, Source, submission, oracle, Sink, process}
use iron_book.Gateway.Fork.Serial.{Explains, sub_first, orc_first, process-serial}
use iron_book.Gateway.Server.{RestOrder, Request, Server, Timing, handle_order, serve, normalize}
use iron_book.Gateway.Server.Orders.{Accepted, Outcome, handle_order-200, handle_order-Outcome}
use iron_book.Gateway.Server.Session.{Rising, sink_seqs}
use iron_book.Gateway.Server.Ws.{
  Frame, message_text, message_binary, ws_handler, frame_of, posts, ws_handler-serve,
  ws_handler-Rising,
}

abbrev counting : Intakes
counting = record {
  World = ℕ;
  submission = λ o w. (
    ok (record {
      ack =
          some (record { platform_seq = o.platform_seq; ack_ts_ns = w; status = 1; message = "" });
      fills = [];
    }),
    suc w,
  );
  oracle = λ o w. (ok (record { ack = none; fills = [] }), w + 10);
}

abbrev boot : Clock
boot = record { next_seq = 1; boot_ts_ns = 1000; elapsed = 5 }

abbrev constant : List ℕ → List ℕ
constant text = 1 ∷ 2 ∷ 3 ∷ []

abbrev rest_order : RestOrder
rest_order = record {
  bot_id = 3;
  local_seq = 7;
  side = "bid";
  qty = 5;
  price = pos 100;
  order_type = "limit";
  tif = "gtc";
}

abbrev stamped_order : NormalizedOrder
stamped_order = record {
  platform_seq = 1;
  platform_ts_ns = 1005;
  client_order_id = [];
  session_token = [];
  side = side_bid;
  qty = 5;
  price = pos 100;
  order_type = order_type_limit;
  tif = tif_gtc;
}

abbrev oracle_ahead : List Source
oracle_ahead = oracle ∷ submission ∷ oracle ∷ []

process-serial_example :
    Explains counting stamped_order
      (some [])
      0
      (sub_first counting stamped_order (some []) 0)
      (process counting stamped_order oracle_ahead (some []) 0)
    ⊎ Explains counting stamped_order
        (some [])
        0
        (orc_first counting stamped_order (some []) 0)
        (process counting stamped_order oracle_ahead (some []) 0)
process-serial_example = process-serial counting stamped_order oracle_ahead (some []) 0

abbrev readings : List (ℕ × ℕ)
readings = (10, 20) ∷ (10, 30) ∷ (50, 60) ∷ []

run-Ascending_example : Ascending 0 (run clock_service readings (new_stamper 2) boot).stamps
unfolding run next new_stamper next_stamps
run-Ascending_example = run-Ascending clock_service clock-Issues 2 readings boot (omega arith)

abbrev spent : Stamper
spent = record { batch_size = 4; next_seq = 9; end_seq = 9; origin_ts = 0; origin_at = 0 }

run_one_refill_example :
    let ran = run clock_service ((10, 20) ∷ (10, 30) ∷ (10, 40) ∷ []) spent boot in
    (numbers ran.stamps ≡ consecutive 3 1) × (ran.service ≡ (next_stamps 4 boot).1)
unfolding next_stamps
run_one_refill_example =
    run_one_refill clock_service ((10, 30) ∷ (10, 40) ∷ []) spent 10 20 boot
      (record { first_seq = 1; first_ts_ns = 1005; step_ns = 100; batch_size = 4 }) (omega arith)
      refl (omega arith) (omega arith)

abbrev refusing : TimeService
refusing = record { World = ℕ; next_stamps = λ n w. (err "down", suc w) }

abbrev fresh : Stamper
fresh = record { batch_size = 4; next_seq = 1; end_seq = 5; origin_ts = 1000; origin_at = 10 }

abbrev session_of : ℕ → List ℕ
session_of bot = put_uint64_be bot ++ 4 ∷ []

session_token_for-collision_example :
    (session_of 1 ≢ session_of 2)
    × (take 32 (constant (session_of 1)) ≡ take 32 (constant (session_of 2)))
unfolding session_token_for
session_token_for-collision_example =
    session_token_for-collision constant 1 2 (4 ∷ []) (4 ∷ []) (omega arith) (omega arith)
      (λ e. omega (arith, e)) refl

-- The decoder of the examples: a body is the order itself, or no JSON.
abbrev decode : Option RestOrder → Result RestOrder
decode none = err "EOF"
decode (some ro) = ok ro

abbrev timing : Timing
timing = record { fetched = 10; now = 20; schedule = oracle_ahead }

abbrev post_request : Request (Option RestOrder)
post_request = record { method = "POST"; body = some rest_order; timing = timing }

abbrev bad_request : Request (Option RestOrder)
bad_request = record { method = "POST"; body = none; timing = timing }

abbrev starting : Server constant [] clock_service counting
starting = record { stamper = new_stamper 0; sink = some []; time = boot; intakes = 0 }

handle_order-200_example :
    (post_request.method ≡ "POST")
    × (ro : RestOrder) × (decode (some rest_order) ≡ ok ro)
    × Accepted constant [] clock_service counting ro starting
        (next clock_service (new_stamper 0) 10 20 boot).stamp
        (handle_order constant [] clock_service counting decode post_request starting).0.body
unfolding handle_order iron_book.Gateway.Server.handle next new_stamper next_stamps process
    iron_book.Gateway.Fork.outcome
handle_order-200_example =
    handle_order-200 constant [] clock_service counting decode post_request starting refl

handle_order-Outcome_example :
    let out = handle_order constant [] clock_service counting decode bad_request starting in
    ((bad_request.method ≢ "POST") × (out.0.status ≡ 405) × (out.1 ≡ starting))
    ⊎ ((bad_request.method ≡ "POST")
        × Outcome constant [] clock_service counting (err "EOF") starting out)
handle_order-Outcome_example =
    handle_order-Outcome constant [] clock_service counting decode bad_request starting

abbrev requests : List (Request (Option RestOrder))
requests = post_request ∷ bad_request ∷ post_request ∷ []

abbrev frames : List (Frame (Option RestOrder))
frames = message_text (some rest_order) timing ∷ message_binary ∷ message_text none timing ∷ []

ws_handler-serve_example :
    let (responses, s') =
      serve constant [] clock_service counting decode
        (posts constant [] clock_service counting decode frames)
        starting in
    ((ws_handler constant [] clock_service counting decode frames starting).0
      ≡ map frame_of responses)
    × ((ws_handler constant [] clock_service counting decode frames starting).1 ≡ s')
ws_handler-serve_example =
    ws_handler-serve constant [] clock_service counting decode decode frames starting
      (refl, (tt, (refl, tt)))

abbrev two_orders : List (Frame (Option RestOrder))
two_orders =
    message_text (some rest_order) timing
    ∷ message_text (some rest_order) timing
    ∷ message_binary
    ∷ []

ws_handler-Rising_example :
    let out = (ws_handler constant [] clock_service counting decode two_orders starting).1 in
    Rising 0 (sink_seqs out.sink) out.stamper.next_seq
unfolding ws_handler iron_book.Gateway.Server.handle next new_stamper next_stamps
ws_handler-Rising_example =
    ws_handler-Rising constant [] clock_service counting decode clock-Issues 0 two_orders boot 0
      (omega arith)
