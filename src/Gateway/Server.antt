-- ===== src/Gateway/Server.antt =====
-- apps/fairness-gateway/gateway/server.go: the REST order of a bot is normalised, stamped, and
-- handed to the fork. The JSON decoder of the request body is a parameter.
pub mod Orders
pub mod Parallel
pub mod Recorded
pub mod Session
pub mod Ws
use iron_book.Common.{
  ℕ, String, Bool, List, [], ◌∷◌, map, Option, none, some, str_eq, if◌then◌else◌,
}
use iron_book.Common.Int.{ℤ}
use iron_book.Common.Text.{concat}
use iron_book.Common.Result.{Result, ok, err}
use iron_book.Gateway.Proto.{
  NormalizedOrder, Reply, Ack, Fill, Side, side_bid, side_ask, OrderType, order_type_limit,
  order_type_market, TimeInForce, tif_gtc, tif_ioc, tif_fok,
}
use iron_book.Gateway.TimeService.{TimeService}
use iron_book.Gateway.Stamper.{Stamper, next, Called}
use iron_book.Gateway.Identity.{pack_client_order_id, session_token_for}
use iron_book.Gateway.Fork.{Intakes, Source, Sink, process, Processed}

pub record RestOrder : Type 0 where
  pub bot_id : ℕ
  pub local_seq : ℕ
  pub side : String
  pub qty : ℕ
  pub price : ℤ
  pub order_type : String
  pub tif : String

pub record RestFill : Type 0 where
  pub trade_id : ℕ
  pub platform_seq_maker : ℕ
  pub price : ℤ
  pub qty : ℕ
  pub ts_ns : ℕ

pub record RestReply : Type 0 where
  pub platform_seq : ℕ
  pub ack_ts_ns : ℕ
  pub status : ℕ
  pub message : String
  pub fills : List RestFill

unfoldable pub side_from_string : String → Side
side_from_string s = if str_eq s "ask" then side_ask else side_bid

unfoldable pub order_type_from_string : String → OrderType
order_type_from_string s = if str_eq s "market" then order_type_market else order_type_limit

unfoldable pub tif_from_string : String → TimeInForce
tif_from_string s = if str_eq s "ioc" then tif_ioc else if str_eq s "fok" then tif_fok else tif_gtc

unfoldable pub to_rest_fill : Fill → RestFill
to_rest_fill f = record {
  trade_id = f.trade_id;
  platform_seq_maker = f.platform_seq_maker;
  price = f.price;
  qty = f.qty;
  ts_ns = f.ts_ns;
}

-- The fields of a nil acknowledgement keep their zero values.
abbrev with_ack : Option Ack → List RestFill → RestReply
with_ack none fills = record {
  platform_seq = 0;
  ack_ts_ns = 0;
  status = 0;
  message = "";
  fills = fills;
}
with_ack (some a) fills = record {
  platform_seq = a.platform_seq;
  ack_ts_ns = a.ack_ts_ns;
  status = a.status;
  message = a.message;
  fills = fills;
}

unfoldable pub to_rest_reply : Reply → RestReply
unfolding to_rest_fill
to_rest_reply r = with_ack r.ack (map to_rest_fill r.fills)

-- The order that `Handle` builds from a stamp (seq, ts).
unfoldable pub normalize : (List ℕ → List ℕ) → List ℕ → ℕ × ℕ → RestOrder → NormalizedOrder
unfolding side_from_string order_type_from_string tif_from_string
normalize sha256 run_secret (seq, ts) ro = record {
  platform_seq = seq;
  platform_ts_ns = ts;
  client_order_id = pack_client_order_id ro.bot_id ro.local_seq;
  session_token = session_token_for sha256 ro.bot_id run_secret;
  side = side_from_string ro.side;
  qty = ro.qty;
  price = ro.price;
  order_type = order_type_from_string ro.order_type;
  tif = tif_from_string ro.tif;
}

-- What a handler writes: `http.Error` with a text, or a JSON reply.
pub data Body : Type 0 where
  text : String → Body
  json : RestReply → Body

pub record Response : Type 0 where
  pub status : ℕ
  pub body : Body

-- What the run of one request takes from outside: the two clock readings of the stamper and the
-- interleaving of the two goroutines.
pub record Timing : Type 0 where
  pub fetched : ℕ
  pub now : ℕ
  pub schedule : List Source

pub record Request (B : Type 0) : Type 0 where
  pub method : String
  pub body : B
  pub timing : Timing

-- `Handle` gives a reply with its status, or an error with its status.
pub data Handled : Type 0 where
  replied : RestReply → Handled
  failed : ℕ → String → Handled

unfoldable pub answered : Result Reply → Handled
answered (ok r) = replied (to_rest_reply r)
answered (err e) = failed 502 e

abbrev respond : Handled → Response
respond (replied r) = record { status = 200; body = json r }
respond (failed status e) = record { status = status; body = text e }

module _ (sha256 : List ℕ → List ℕ) (run_secret : List ℕ) (t : TimeService) (f : Intakes) where
  -- The state that the handlers share, with the services that they call.
  pub record Server : Type 0 where
    pub stamper : Stamper
    pub sink : Sink
    pub time : t.World
    pub intakes : f.World

  -- `Handle` from the stamp on; `stamper` and `time` are what the stamper has left behind.
  fan_out : RestOrder → Timing → Server → Result (ℕ × ℕ) → Stamper → t.World → Handled × Server
  unfolding answered
  fan_out ro timing s (err e) stamper time =
      (failed 502 e, record s { stamper = stamper; time = time })
  fan_out ro timing s (ok stamp) stamper time =
      let p : Processed f =
        process f (normalize sha256 run_secret stamp ro) timing.schedule s.sink s.intakes in
      (
        answered p.reply,
        record { stamper = stamper; sink = p.sink; time = time; intakes = p.world },
      )

  unfoldable pub handle : RestOrder → Timing → Server → Handled × Server
  unfolding fan_out
  handle ro timing s =
      let c = next t s.stamper timing.fetched timing.now s.time in
      fan_out ro timing s c.stamp c.stamper c.service

  -- `HandleOrder` from the decoded body on.
  decoded : Result RestOrder → Timing → Server → Response × Server
  decoded (err e) timing s = (record { status = 400; body = text (concat "bad json: " e) }, s)
  decoded (ok ro) timing s = let (h, s') = handle ro timing s in (respond h, s')

  -- `HandleOrder`, over a decoder of bodies.
  unfoldable pub handle_order :
      {B : Type 0} → (B → Result RestOrder) → Request B → Server → Response × Server
  unfolding decoded
  handle_order decode r s =
      if str_eq r.method "POST"
      then decoded (decode r.body) r.timing s
      else (record { status = 405; body = text "method not allowed" }, s)

  -- Requests to `HandleOrder`, one after the other: what a connection of `ws.go` is compared with.
  -- The program has no such loop, net/http runs the handlers at once, as in Parallel.
  unfoldable pub serve :
      {B : Type 0} → (B → Result RestOrder) → List (Request B) → Server → List Response × Server
  serve decode [] s = ([], s)
  serve decode (r ∷ rs) s =
      let (response, s') = handle_order decode r s in
      let (responses, s'') = serve decode rs s' in (response ∷ responses, s'')
