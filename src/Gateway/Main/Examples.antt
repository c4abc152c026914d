-- ===== src/Gateway/Main/Examples.antt =====
-- The start of a gateway, and its sink, at concrete inputs: the world is the file.
use iron_book.Common.{
  ℕ, String, ◌≡◌, refl, arith, List, [], ◌∷◌, ◌++◌, Option, none, some, false, ◌==◌, str_eq,
  if◌then◌else◌,
}
use iron_book.Common.Int.{pos}
use iron_book.Common.Result.{ok}
use iron_book.Common.Steps.{relabelled, outcome}
use iron_book.Envconfig.Plain.{plain, plain-IsDocumented, listed}
use iron_book.Operator.Types.{BenchmarkRun}
use iron_book.Gateway.Proto.{NormalizedOrder, side_bid, order_type_limit, tif_gtc}
use iron_book.Gateway.Fork.{oracle, Event, on_in, on_reply}
use iron_book.Gateway.Stamper.{new_stamper}
use iron_book.Gateway.FileSink.{Disk, EventRow, row_of, on_events}
use iron_book.Gateway.FileSink.Lines.{IsReliable, read_events, on_events-read_events}
use iron_book.Gateway.Main.{Outside, route, main}
use iron_book.Gateway.Main.Handover.{main-gateway_env}

abbrev disk : Disk
disk = record {
  World = List ℕ;
  File = Unit {0};
  make_parent = λ path w. (none, w);
  open_append = λ path w. (ok tt, w);
  write_bytes = λ f bytes w. (none, w ++ bytes);
  close = λ f w. (none, w);
}

abbrev reliable : IsReliable disk tt
reliable = record { contents = λ w. w; appends = λ bytes w. refl }

abbrev order : NormalizedOrder
order = record {
  platform_seq = 1;
  platform_ts_ns = 1005;
  client_order_id = [];
  session_token = [];
  side = side_bid;
  qty = 5;
  price = pos 100;
  order_type = order_type_limit;
  tif = tif_gtc;
}

abbrev first : Event
first = on_in order

abbrev second : Event
second = on_reply order oracle (record { ack = none; fills = [] })

-- A coder of two rows.
abbrev encode : EventRow → Option (List ℕ)
encode row = if str_eq row.kind "in" then some (1 ∷ []) else some (2 ∷ [])

abbrev decode : List ℕ → Option EventRow
decode [] = none
decode (b ∷ bytes) = some (if b == 1 then row_of first else row_of second)

on_events-read_events_example :
    read_events decode (on_events disk encode tt (first ∷ second ∷ []) [])
    ≡ some first ∷ some second ∷ []
unfolding row_of
on_events-read_events_example =
    on_events-read_events disk tt reliable encode decode (first ∷ second ∷ []) [] (λ rest. refl)
      (
        record { line = 1 ∷ []; encodes = refl; decodes = refl; one_line = (omega arith, tt) },
        (
          record { line = 2 ∷ []; encodes = refl; decodes = refl; one_line = (omega arith, tt) },
          tt,
        ),
      )

abbrev running : BenchmarkRun
running = record {
  meta = record {
    name = "run";
    namespace = "ironbook";
    labels = [];
    finalizers = [];
    deleting = false;
    owner = none;
  };
  spec = record { submission_ref = "s"; scenario_ref = "c"; bot_swarm_ref = "b"; seed = pos 42 };
  status = record {
    phase = "FORKING";
    started_at = none;
    ended_at = none;
    submission_endpoint = "run-submission:7777";
    oracle_endpoint = "run-oracle:7777";
    gateway_endpoint = "run-gateway:8080";
    conditions = [];
  };
}

-- A connection is its address.
abbrev outside : Outside
outside = record {
  disk = disk;
  Conn = String;
  rand_read = λ n w. (ok (171 ∷ 205 ∷ []), w);
  dial = λ addr w. (ok addr, w);
  listen = λ addr handlers srv w. (some "closed", w);
}

abbrev variables : List (String × String)
variables =
    ("IRONBOOK_HTTP_ADDR", ":8080")
    ∷ ("IRONBOOK_TIME_SERVICE", "time-service.ironbook.svc.cluster.local:7070")
    ∷ ("IRONBOOK_SUBMISSION_ENDPOINT", "run-submission:7777")
    ∷ ("IRONBOOK_ORACLE_ENDPOINT", "run-oracle:7777")
    ∷ ("IRONBOOK_EVENT_LOG_PATH", "/var/log/ironbook/events.jsonl")
    ∷ []

main-gateway_env_example :
    main outside plain (listed variables) []
    ≡ relabelled "serve: " (
        outcome (
          outside.listen ":8080" route
            (record {
              time_service = "time-service.ironbook.svc.cluster.local:7070";
              submission = "run-submission:7777";
              oracle = "run-oracle:7777";
              stamper = new_stamper 10000;
              sink = tt;
              run_secret = 171 ∷ 205 ∷ [];
            })
            []))
unfolding iron_book.Gateway.FileSink.new_file_sink
main-gateway_env_example =
    main-gateway_env outside plain plain-IsDocumented (listed variables) running (171 ∷ 205 ∷ [])
      "time-service.ironbook.svc.cluster.local:7070" "run-submission:7777" "run-oracle:7777" tt []
      [] [] [] [] [] (refl, (refl, (refl, (refl, (refl, tt))))) (refl, refl) (refl, refl) refl
      (omega arith, (omega arith, tt)) refl refl refl refl
