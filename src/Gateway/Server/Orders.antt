-- ===== src/Gateway/Server/Orders.antt =====
-- The normalised order, and the answers of the handlers (apps/fairness-gateway/gateway/server.go).
use iron_book.Common.{
  ℕ, ◌<◌, ◌≡◌, ◌≢◌, ◌⊎◌, refl, sym, ◌∙◌, inl, inr, List, Bool-cases, arith, str_eq, eq_iff,
}
use iron_book.Common.Int.{two64}
use iron_book.Common.Text.{ne_of_str_eq}
use iron_book.Common.Result.{Result, ok, err, Result-cases}
use iron_book.Gateway.Proto.{NormalizedOrder, Reply}
use iron_book.Gateway.TimeService.{TimeService}
use iron_book.Gateway.Stamper.{Stamper, next}
use iron_book.Gateway.Identity.{pack_client_order_id-inj}
use iron_book.Gateway.Fork.{Intakes, Source, outcome, process}
use iron_book.Gateway.Fork.Serial.{process-serial}
use iron_book.Gateway.Server.{
  Server, RestOrder, Timing, Request, Response, Body, normalize, fan_out, answered, respond,
  decoded, handle, handle_order, to_rest_reply, json,
}

-- Two REST orders of numbers below 2^64 that get the same client order id come from the same bot
-- with the same local sequence number, whatever their stamps and the rest of the orders.
pub normalize-client_order_id_inj :
    (sha256 : List ℕ → List ℕ) (secret : List ℕ) (st st' : ℕ × ℕ) (a b : RestOrder)
    → a.bot_id < two64
    → a.local_seq < two64
    → b.bot_id < two64
    → b.local_seq < two64
    → (normalize sha256 secret st a).client_order_id
      ≡ (normalize sha256 secret st' b).client_order_id
    → (a.bot_id ≡ b.bot_id) × (a.local_seq ≡ b.local_seq)
unfolding normalize
normalize-client_order_id_inj sha256 secret st st' a b h k l m e =
    pack_client_order_id-inj a.bot_id a.local_seq b.bot_id b.local_seq h k l m e

outcome-ok :
    (x y : Result Reply) (r : Reply) → outcome x y ≡ ok r → (x ≡ ok r) × ((q : Reply) × (y ≡ ok q))
unfolding outcome
outcome-ok (ok a) (ok b) r e = (e, (b, refl))
outcome-ok (ok a) (err b) r e = cc
outcome-ok (err a) (ok b) r e = cc
outcome-ok (err a) (err b) r e = cc

module _ (sha256 : List ℕ → List ℕ) (secret : List ℕ) (t : TimeService) (f : Intakes) where
  -- Both services have taken the order, and the reply `r` is the submission's.
  pub data Delivered (o : NormalizedOrder) (s : Server sha256 secret t f) (r : Reply) : Type 0 where
    submission_then_oracle :
        (q : Reply)
        → (f.submission o s.intakes).0 ≡ ok r
        → (f.oracle o (f.submission o s.intakes).1).0 ≡ ok q
        → Delivered o s r
    oracle_then_submission :
        (q : Reply)
        → (f.oracle o s.intakes).0 ≡ ok q
        → (f.submission o (f.oracle o s.intakes).1).0 ≡ ok r
        → Delivered o s r

  process-Delivered :
      (o : NormalizedOrder) (schedule : List Source) (s : Server sha256 secret t f) (r : Reply)
      → (process f o schedule s.sink s.intakes).reply ≡ ok r
      → Delivered o s r
  process-Delivered o schedule s r e = elim (process-serial f o schedule s.sink s.intakes) [
    | inl x ↦
        (let (sub_ok, (q, or_ok)) = outcome-ok _ _ r (sym x.replied ∙ e) in
          submission_then_oracle q sub_ok or_ok)
    | inr x ↦
        (let (sub_ok, (q, or_ok)) = outcome-ok _ _ r (sym x.replied ∙ e) in
          oracle_then_submission q or_ok sub_ok)
  ]

  -- A stamp was reserved, both services took the order that carries it, and `b` is the body.
  pub record Accepted (ro : RestOrder) (s : Server sha256 secret t f) (x : Result (ℕ × ℕ))
      (b : Body) : Type 0 where
    pub stamp : ℕ × ℕ
    pub reply : Reply
    pub stamped : x ≡ ok stamp
    pub delivered : Delivered (normalize sha256 secret stamp ro) s reply
    pub written : b ≡ json (to_rest_reply reply)

  answered_200 :
      (x : Result Reply)
      → (respond (answered x)).status ≡ 200
      → (r : Reply) × (x ≡ ok r) × ((respond (answered x)).body ≡ json (to_rest_reply r))
  unfolding answered
  answered_200 (ok r) h = (r, refl, refl)
  answered_200 (err e) h = absurd (omega arith)

  fan_out-200 :
      (ro : RestOrder) (timing : Timing) (s : Server sha256 secret t f) (x : Result (ℕ × ℕ))
      (stamper : Stamper) (time : t.World)
      → let response = respond (fan_out sha256 secret t f ro timing s x stamper time).0 in
        response.status ≡ 200 → Accepted ro s x response.body
  unfolding fan_out
  fan_out-200 ro timing s (err e) stamper time h = absurd (omega arith)
  fan_out-200 ro timing s (ok st) stamper time h =
      let o = normalize sha256 secret st ro in
      let (r, processed, body) =
        answered_200 (process f o timing.schedule s.sink s.intakes).reply h in
      record {
        stamp = st;
        reply = r;
        stamped = refl;
        delivered = process-Delivered o timing.schedule s r processed;
        written = body;
      }

  decoded_200 :
      (x : Result RestOrder) (timing : Timing) (s : Server sha256 secret t f)
      → let response = (decoded sha256 secret t f x timing s).0 in
        response.status ≡ 200
        → (ro : RestOrder) × (x ≡ ok ro)
          × Accepted ro s (next t s.stamper timing.fetched timing.now s.time).stamp response.body
  unfolding decoded handle
  decoded_200 (err e) timing s h = absurd (omega arith)
  decoded_200 (ok ro) timing s h =
      let c = next t s.stamper timing.fetched timing.now s.time in
      (ro, refl, fan_out-200 ro timing s c.stamp c.stamper c.service h)

  fan_out-status :
      (ro : RestOrder) (timing : Timing) (s : Server sha256 secret t f) (x : Result (ℕ × ℕ))
      (stamper : Stamper) (time : t.World)
      → let status = (respond (fan_out sha256 secret t f ro timing s x stamper time).0).status in
        (status ≡ 200) ⊎ (status ≡ 502)
  unfolding fan_out answered
  fan_out-status ro timing s (err e) stamper time = inr refl
  fan_out-status ro timing s (ok st) stamper time =
      elim (Result-cases
        (process f (normalize sha256 secret st ro) timing.schedule s.sink s.intakes).reply) [
          | inl (r, e) ↦ inl (rw (e, answered))
          | inr (m, e) ↦ inr (rw (e, answered))
        ]

  -- How a body is answered: 400 with nothing done, or 200 or 502.
  abbrev pub Outcome :
      Result RestOrder → Server sha256 secret t f → Response × Server sha256 secret t f → Type 0
  Outcome (err e) s out = (out.0.status ≡ 400) × (out.1 ≡ s)
  Outcome (ok ro) s out = (out.0.status ≡ 200) ⊎ (out.0.status ≡ 502)

  decoded-Outcome :
      (x : Result RestOrder) (timing : Timing) (s : Server sha256 secret t f)
      → Outcome x s (decoded sha256 secret t f x timing s)
  unfolding decoded handle
  decoded-Outcome (err e) timing s = (refl, refl)
  decoded-Outcome (ok ro) timing s =
      let c = next t s.stamper timing.fetched timing.now s.time in
      fan_out-status ro timing s c.stamp c.stamper c.service

  module _ {B : Type 0} (decode : B → Result RestOrder) where
    -- A request is answered 200 only if it is a POST whose body decodes to an order, a stamp was
    -- reserved for it, and both the submission and the oracle took the order; the body is then
    -- the submission's reply.
    pub handle_order-200 :
        (r : Request B) (s : Server sha256 secret t f)
        → (handle_order sha256 secret t f decode r s).0.status ≡ 200
        → (r.method ≡ "POST")
          × (ro : RestOrder) × (decode r.body ≡ ok ro)
          × Accepted ro s
              (next t s.stamper r.timing.fetched r.timing.now s.time).stamp
              (handle_order sha256 secret t f decode r s).0.body
    unfolding handle_order
    handle_order-200 r s h = elim (Bool-cases (str_eq r.method "POST")) [
      | inl post ↦
          (let (ro, decodes, accepted) = decoded_200 (decode r.body) r.timing s (rw post at h) in
            ((eq_iff r.method "POST").0 post, ro, decodes, rw post accepted))
      | inr other ↦ (let h' : ◌≡◌ {A = ℕ} 405 200 = rw other at h in absurd (omega arith))
    ]

    -- A request that is no POST is answered 405, and a body that does not decode 400; neither
    -- takes a stamp, nor reaches a service or the sink. All others are answered 200 or 502.
    pub handle_order-Outcome :
        (r : Request B) (s : Server sha256 secret t f)
        → let out = handle_order sha256 secret t f decode r s in
          ((r.method ≢ "POST") × (out.0.status ≡ 405) × (out.1 ≡ s))
          ⊎ ((r.method ≡ "POST") × Outcome (decode r.body) s out)
    unfolding handle_order
    handle_order-Outcome r s = elim (Bool-cases (str_eq r.method "POST")) [
      | inl post ↦
          inr
            ((eq_iff r.method "POST").0 post, rw post (decoded-Outcome (decode r.body) r.timing s))
      | inr other ↦ inl (ne_of_str_eq r.method "POST" other, rw other, rw other)
    ]
