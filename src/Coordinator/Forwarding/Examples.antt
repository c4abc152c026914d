-- ===== src/Coordinator/Forwarding/Examples.antt =====
-- Two events through a gateway with the time-service of crates/time-service, a submission that
-- refuses every order, and posts that are all answered
-- (apps/bot-coordinator/coordinator/dispatcher.go).
use iron_book.Common.{ℕ, ◌+◌, ◌*◌, ◌≡◌, refl, arith, true, false, List, [], ◌∷◌, Option, none, some}
use iron_book.Common.Int.{pos}
use iron_book.Common.Result.{ok, err}
use iron_book.Gateway.TimeService.Clock.{clock_service, next_stamps}
use iron_book.Gateway.Stamper.{new_stamper, next}
use iron_book.Gateway.Fork.{Intakes, oracle, process}
use iron_book.Gateway.Server.{RestOrder, Timing, Server, handle, handle_order, normalize}
use iron_book.Gateway.Server.Parallel.Orders.{recording, sink_orders}
use iron_book.Gateway.Server.Parallel.Stamps.{seqs}
use iron_book.Coordinator.Schedule.{Event, Rand, IsBounded, compile}
use iron_book.Coordinator.Dispatcher.{Outside, DispatchError, run}
use iron_book.Coordinator.Dispatcher.Posts.{IsQuiet}
use iron_book.Coordinator.Forwarding.{IsAnswered, Json, through_gateway}
use iron_book.Coordinator.Forwarding.Ids.{AllOwn, compiled_run-AllOwn}

abbrev counting : Intakes
counting = record {
  World = ℕ;
  submission = λ o w. (err "down", w + 1);
  oracle = λ o w. (ok (record { ack = none; fills = [] }), w + 10);
}

abbrev constant : List ℕ → List ℕ
constant text = 1 ∷ 2 ∷ 3 ∷ []

-- Bodies that are the orders themselves.
abbrev plain : Json RestOrder
plain = record { encode = λ ro. ro; decode = ok; agrees = λ ro. refl }

abbrev prompt : Outside
prompt = record {
  World = ℕ;
  now = λ w. w;
  wait = λ dt w. (true, w + dt);
  send = λ o w. (false, w + 3);
  done = λ w. false;
}

prompt-IsQuiet : IsQuiet prompt
prompt-IsQuiet = record { timer_first = λ dt w. refl; not_done = λ w. refl }

prompt-IsAnswered : IsAnswered prompt
prompt-IsAnswered = record { no_error = λ ro w. refl }

abbrev oracle_first : ℕ → Timing
oracle_first w = record { fetched = w; now = w + 1; schedule = oracle ∷ oracle ∷ [] }

abbrev event_at : ℕ → Event
event_at offset = record {
  offset_ns = offset;
  bot_id = 3;
  order = record { side = "ask"; qty = 5; price = pos 100; order_type = "limit"; tif = "gtc" };
}

abbrev events : List Event
events = event_at 0 ∷ event_at 1000000 ∷ []

abbrev started : Server constant (4 ∷ []) clock_service (recording counting)
started = record {
  stamper = new_stamper 2;
  sink = some [];
  time = record { next_seq = 1; boot_ts_ns = 1000; elapsed = 5 };
  intakes = ([], [], 0);
}

-- A post that fails has no effect.
abbrev same :
    RestOrder
    → ℕ
    → Server constant (4 ∷ []) clock_service (recording counting)
    → Server constant (4 ∷ []) clock_service (recording counting)
same ro w s = s

abbrev after :
    Option DispatchError × (ℕ × Server constant (4 ∷ []) clock_service (recording counting))
after =
    run (through_gateway constant (4 ∷ []) clock_service counting plain prompt oracle_first same)
      "http://gateway" events (5, started)

after_both :
    (seqs after.1.1.intakes.0 ≡ 1 ∷ 2 ∷ []) × (seqs (sink_orders after.1.1.sink) ≡ 1 ∷ 2 ∷ [])
unfolding run handle_order handle process next new_stamper next_stamps normalize
after_both = (refl, refl)

abbrev zeros : Rand
zeros = record { Source = ℕ; new_source = λ seed. 0; intn = λ n s. (0, s + 1) }

zeros-IsBounded : IsBounded zeros
zeros-IsBounded = record { below = λ n s h. h }

abbrev whole :
    Option DispatchError × (ℕ × Server constant (4 ∷ []) clock_service (recording counting))
whole =
    run (through_gateway constant (4 ∷ []) clock_service counting plain prompt oracle_first same)
      "http://gateway" (compile zeros "" (pos 42) (pos 1)) (5, started)

compiled_run-AllOwn_example :
    (whole.0 ≡ none) × AllOwn constant (4 ∷ []) clock_service counting (1 * 1000) whole.1.1
compiled_run-AllOwn_example =
    compiled_run-AllOwn constant (4 ∷ []) clock_service counting plain prompt prompt-IsQuiet
      prompt-IsAnswered oracle_first same "http://gateway" zeros zeros-IsBounded "" (pos 42) 1 5
      started.stamper started.time 0 (λ e. cc) (omega arith)
