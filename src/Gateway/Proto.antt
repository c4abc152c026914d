-- ===== src/Gateway/Proto.antt =====
-- The messages of pkg/proto/ironbook/v1 that the gateway builds and reads (orders.pb.go,
-- order_intake.pb.go, time.pb.go). A pointer field that may be nil is an `Option`; bytes are
-- numbers below 256; uint64 fields are numbers, int64 fields are integers.
use iron_book.Common.{ℕ, String, List, Option}
use iron_book.Common.Int.{ℤ}

pub data Side : Type 0 where
  side_unspecified side_bid side_ask : Side

pub data OrderType : Type 0 where
  order_type_unspecified order_type_limit order_type_market : OrderType

pub data TimeInForce : Type 0 where
  tif_unspecified tif_gtc tif_ioc tif_fok : TimeInForce

pub record NormalizedOrder : Type 0 where
  pub platform_seq : ℕ
  pub platform_ts_ns : ℕ
  pub client_order_id : List ℕ
  pub session_token : List ℕ
  pub side : Side
  pub qty : ℕ
  pub price : ℤ
  pub order_type : OrderType
  pub tif : TimeInForce

pub record Ack : Type 0 where
  pub platform_seq : ℕ
  pub ack_ts_ns : ℕ
  pub status : ℕ
  pub message : String

pub record Fill : Type 0 where
  pub trade_id : ℕ
  pub platform_seq_taker : ℕ
  pub platform_seq_maker : ℕ
  pub price : ℤ
  pub qty : ℕ
  pub ts_ns : ℕ

pub record Reply : Type 0 where
  pub ack : Option Ack
  pub fills : List Fill

pub record NextStampsResponse : Type 0 where
  pub first_seq : ℕ
  pub first_ts_ns : ℕ
  pub step_ns : ℕ
  pub batch_size : ℕ
