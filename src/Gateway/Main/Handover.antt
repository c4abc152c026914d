-- ===== src/Gateway/Main/Handover.antt =====
-- From the operator's pod template to the fairness-gateway that runs in the pod
-- (apps/benchmark-operator/internal/controller/benchmarkrun_controller.go, apps/fairness-gateway/main.go).
use iron_book.Common.{ℕ, ◌≡◌, ◌<◌, refl, arith, List, All, some}
use iron_book.Common.Decimal.{fmt_int}
use iron_book.Common.Bytes.Hex.{decode_hex-hex}
use iron_book.Common.Result.{ok}
use iron_book.Common.Steps.{relabelled, outcome}
use iron_book.Envconfig.{
  Envconfig, Environment, IsDocumented, IsUnset, required_field, default_field,
}
use iron_book.Kube.{EnvVar}
use iron_book.Operator.Types.{BenchmarkRun}
use iron_book.Operator.Pods.{gateway_env}
use iron_book.Gateway.Config.{Config, process, with_secret, load}
use iron_book.Gateway.Stamper.{new_stamper}
use iron_book.Gateway.FileSink.{new_file_sink}
use iron_book.Gateway.Main.{Outside, route, must_dial, prepare, main}

-- The process finds each variable of the template, with its value unchanged.
abbrev pub Gives : Environment → List EnvVar → Type 0
Gives env vars = All (λ (v : EnvVar). env v.name ≡ some v.value) vars

-- The configuration of the gateway of a run, before there is a secret.
abbrev pub pod_config : BenchmarkRun → Config
pod_config br = record {
  http_addr = ":8080";
  time_service = "time-service.ironbook.svc.cluster.local:7070";
  submission_end = br.status.submission_endpoint;
  oracle_end = br.status.oracle_endpoint;
  stamp_batch_size = 10000;
  event_log_path = "/var/log/ironbook/events.jsonl";
  run_secret = "";
}

module _ (e : Envconfig) (d : IsDocumented e) (env : Environment) where
  process-gateway_env :
      (br : BenchmarkRun)
      → Gives env (gateway_env br)
      → IsUnset env (default_field "RUN_SECRET" "")
      → IsUnset env (default_field "STAMP_BATCH_SIZE" "10000")
      → process e env ≡ ok (pod_config br)
  unfolding process fmt_int
  process-gateway_env br (addr, (time, (sub, (orc, (path, _))))) secret batch =
      rw
        (
          d.set_text (default_field "HTTP_ADDR" ":8080") env _ addr,
          d.set_text (default_field "TIME_SERVICE" "time-service.ironbook.svc.cluster.local:7070")
              env _ time,
          d.set_text (required_field "SUBMISSION_ENDPOINT") env _ sub,
          d.set_text (required_field "ORACLE_ENDPOINT") env _ orc,
          d.default_uint32 (default_field "STAMP_BATCH_SIZE" "10000") env 10000 batch refl refl
              (omega arith),
          d.set_text (default_field "EVENT_LOG_PATH" "/var/log/ironbook/events.jsonl") env _ path,
          d.default_text (default_field "RUN_SECRET" "") env secret refl,
        )
        refl

-- In the pod that the operator makes for a run, the gateway listens on port 8080 with the run's
-- submission and oracle, a stamper of blocks of 10000, and the random bytes that it asked for as
-- its secret, which it reads back from their hexadecimal text. It is so where no secret and no
-- block size are set, the source of random bytes answers, the services are dialled and the sink
-- is opened.
pub main-gateway_env :
    (o : Outside) (e : Envconfig) (d : IsDocumented e) (env : Environment) (br : BenchmarkRun)
    (buf : List ℕ) (time sub orc : o.Conn) (f : o.disk.File) (w w₁ w₂ w₃ w₄ w₅ : o.disk.World)
    → Gives env (gateway_env br)
    → IsUnset env (default_field "RUN_SECRET" "")
    → IsUnset env (default_field "STAMP_BATCH_SIZE" "10000")
    → o.rand_read 32 w ≡ (ok buf, w₁)
    → All (λ b. b < 256) buf
    → o.dial "time-service.ironbook.svc.cluster.local:7070" w₁ ≡ (ok time, w₂)
    → o.dial br.status.submission_endpoint w₂ ≡ (ok sub, w₃)
    → o.dial br.status.oracle_endpoint w₃ ≡ (ok orc, w₄)
    → new_file_sink o.disk "/var/log/ironbook/events.jsonl" w₄ ≡ (ok f, w₅)
    → main o e env w
      ≡ relabelled "serve: " (
          outcome (
            o.listen ":8080" route
              (record {
                time_service = time;
                submission = sub;
                oracle = orc;
                stamper = new_stamper 10000;
                sink = f;
                run_secret = buf;
              })
              w₅))
unfolding main load with_secret prepare must_dial
main-gateway_env o e d env br buf time sub orc f w w₁ w₂ w₃ w₄ w₅ given secret batch random bytes h₁
      h₂ h₃ h₄ =
    rw
      (
        process-gateway_env e d env br given secret batch,
        random,
        h₁,
        h₂,
        h₃,
        h₄,
        decode_hex-hex buf bytes,
      )
      refl
