-- ===== src/Gateway/Main.antt =====
-- apps/fairness-gateway/main.go: the configuration is loaded, the services are dialled, the sink is
-- opened, and the server listens. gRPC, net/http and the operating system are parameters.
pub mod Handover
pub mod Examples
use iron_book.Common.{ℕ, String, List, Option, none, some, str_eq, if◌then◌else◌}
use iron_book.Common.Text.{concat}
use iron_book.Common.Result.{Result, ok, err}
use iron_book.Common.Steps.{Step, ◌>>=◌, pure, fail, labelled, attempt}
use iron_book.Common.Bytes.Hex.{decode_hex}
use iron_book.Envconfig.{Envconfig, Environment}
use iron_book.Gateway.Config.{Config, load}
use iron_book.Gateway.Stamper.{Stamper, new_stamper}
use iron_book.Gateway.FileSink.{Disk, EventRow, new_file_sink}

-- What the server works with: `srv` with its parts.
pub record Serving (Conn File : Type 0) : Type 0 where
  pub time_service : Conn
  pub submission : Conn
  pub oracle : Conn
  pub stamper : Stamper
  pub sink : File
  pub run_secret : List ℕ

-- The handlers that `main` registers.
pub data Handler : Type 0 where
  handle_order ws_handler healthz not_found : Handler

-- The handler of a path, as `ServeMux` has cleaned it.
unfoldable pub route : String → Handler
route path =
    if str_eq path "/v1/order"
    then handle_order
    else if str_eq path "/v1/order/ws"
    then ws_handler
    else if str_eq path "/healthz"
    then healthz
    else not_found

pub record Outside : Type 1 where
  pub disk : Disk
  pub Conn : Type 0
  pub rand_read : ℕ → disk.World → Result (List ℕ) × disk.World
  pub dial : String → disk.World → Result Conn × disk.World
  -- `ListenAndServe`, with the address, the handlers and the server.
  pub listen :
      String → (String → Handler) → Serving Conn disk.File → disk.World → Option String × disk.World

module _ (o : Outside) where
  abbrev pub Starting : Type 0 → Type 0
  Starting A = Step o.disk.World A

  unfoldable pub must_dial : String → Starting o.Conn
  must_dial addr = labelled (concat "dial " (concat addr ": ")) (o.dial addr)

  -- The text of the decoder's own error is left out.
  abbrev pub decoded : Option (List ℕ) → Starting (List ℕ)
  decoded none = fail "decode run secret: "
  decoded (some secret) = pure secret

  -- From the configuration to the server.
  unfoldable pub prepare : Config → Starting (Serving o.Conn o.disk.File)
  unfolding must_dial
  prepare cfg = do
    time_conn ← must_dial cfg.time_service
    sub_conn ← must_dial cfg.submission_end
    or_conn ← must_dial cfg.oracle_end
    sink ← labelled "file sink: " (new_file_sink o.disk cfg.event_log_path)
    secret ← decoded (decode_hex cfg.run_secret)
    pure (record {
      time_service = time_conn;
      submission = sub_conn;
      oracle = or_conn;
      stamper = new_stamper cfg.stamp_batch_size;
      sink = sink;
      run_secret = secret;
    })

  -- `main`; an error is what `log.Fatalf` names.
  unfoldable pub main : Envconfig → Environment → Starting (Unit {0})
  unfolding prepare route
  main e env = do
    cfg ← labelled "config: " (load o.rand_read e env)
    srv ← prepare cfg
    labelled "serve: " (attempt (o.listen cfg.http_addr route srv))
