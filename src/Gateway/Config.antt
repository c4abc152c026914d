-- ===== src/Gateway/Config.antt =====
-- apps/fairness-gateway/config/config.go. The system's source of random bytes is a parameter.
use iron_book.Common.{ℕ, String, List, str_eq, if◌then◌else◌}
use iron_book.Common.Bytes.{hex}
use iron_book.Common.Result.{Result, ok, ◌>>=◌}
use iron_book.Common.Steps.{followed, relabelled}
use iron_book.Envconfig.{Envconfig, Environment, required_field, default_field}

pub record Config : Type 0 where
  pub http_addr : String
  pub time_service : String
  pub submission_end : String
  pub oracle_end : String
  pub stamp_batch_size : ℕ
  pub event_log_path : String
  pub run_secret : String

-- `envconfig.Process`.
unfoldable pub process : Envconfig → Environment → Result Config
process e env = do
  http_addr ← e.text (default_field "HTTP_ADDR" ":8080") env
  time_service ←
      e.text (default_field "TIME_SERVICE" "time-service.ironbook.svc.cluster.local:7070") env
  submission_end ← e.text (required_field "SUBMISSION_ENDPOINT") env
  oracle_end ← e.text (required_field "ORACLE_ENDPOINT") env
  stamp_batch_size ← e.uint32 (default_field "STAMP_BATCH_SIZE" "10000") env
  event_log_path ← e.text (default_field "EVENT_LOG_PATH" "/var/log/ironbook/events.jsonl") env
  run_secret ← e.text (default_field "RUN_SECRET" "") env
  ok (record {
    http_addr = http_addr;
    time_service = time_service;
    submission_end = submission_end;
    oracle_end = oracle_end;
    stamp_batch_size = stamp_batch_size;
    event_log_path = event_log_path;
    run_secret = run_secret;
  })

module _ {W : Type 0} (rand_read : ℕ → W → Result (List ℕ) × W) where
  -- A run secret of 32 random bytes, where none is set.
  unfoldable pub with_secret : Config → W → Result Config × W
  with_secret c w =
      if str_eq c.run_secret ""
      then followed (relabelled "generate run secret: " (rand_read 32 w))
          (λ buf w₁. (ok (record c { run_secret = hex buf }), w₁))
      else (ok c, w)

  unfoldable pub load : Envconfig → Environment → W → Result Config × W
  unfolding process with_secret
  load e env w = followed (process e env, w) with_secret
