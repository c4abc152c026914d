-- ===== src/Gateway/Server/Session.antt =====
-- Requests served one after the other, and the stamps of the orders that reach the sink
-- (apps/fairness-gateway/gateway/server.go).
use mathlib.Core.List.{append-nil}
use iron_book.Common.{
  ℕ, suc, ◌≤◌, ◌<◌, ◌≡◌, refl, ap, ◌∙◌, ◌⊎◌, inl, inr, List, [], ◌∷◌, ◌++◌, none, some, Bool-cases,
  arith, str_eq,
}
use iron_book.Common.Int.{two64}
use iron_book.Common.Result.{Result, ok, err}
use iron_book.Gateway.Proto.{NormalizedOrder, Reply}
use iron_book.Gateway.TimeService.{TimeService, Issues}
use iron_book.Gateway.Stamper.{Stamper, new_stamper, next}
use iron_book.Gateway.Stamper.Order.{Window, Advances, next-Advances, next-grows}
use iron_book.Gateway.Fork.{
  Intakes, Source, submission, oracle, Sink, Event, on_in, on_reply, record_in, tee, process,
}
use iron_book.Gateway.Fork.Serial.{sub_first, orc_first, process-serial}
use iron_book.Gateway.Server.{
  Server, RestOrder, Timing, Request, normalize, fan_out, handle, decoded, handle_order, serve,
}

-- The sequence numbers of the orders that the sink has seen, oldest first.
abbrev pub log_seqs : List Event → List ℕ
log_seqs [] = []
log_seqs (on_in o ∷ es) = o.platform_seq ∷ log_seqs es
log_seqs (on_reply o source r ∷ es) = log_seqs es

abbrev pub sink_seqs : Sink → List ℕ
sink_seqs none = []
sink_seqs (some log) = log_seqs log

-- The numbers increase strictly, from `low` on, and stay below `high`.
abbrev pub Rising : ℕ → List ℕ → ℕ → Type 0
Rising low [] high = low ≤ high
Rising low (x ∷ xs) high = (low ≤ x) × Rising (suc x) xs high

pub Rising-mono : (low : ℕ) (xs : List ℕ) (m n : ℕ) → m ≤ n → Rising low xs m → Rising low xs n
Rising-mono low [] m n h r = omega arith
Rising-mono low (x ∷ xs) m n h r = (r.0, Rising-mono (suc x) xs m n h r.1)

pub Rising-append :
    (low : ℕ) (xs : List ℕ) (high q : ℕ)
    → Rising low xs high
    → high ≤ q
    → Rising low (xs ++ q ∷ []) (suc q)
Rising-append low [] high q r h = (omega arith, omega arith)
Rising-append low (x ∷ xs) high q r h = (r.0, Rising-append (suc x) xs high q r.1 h)

log_seqs-append : (xs ys : List Event) → log_seqs (xs ++ ys) ≡ log_seqs xs ++ log_seqs ys
log_seqs-append [] ys = refl
log_seqs-append (on_in o ∷ xs) ys = ap (◌∷◌ o.platform_seq) (log_seqs-append xs ys)
log_seqs-append (on_reply o source r ∷ xs) ys = log_seqs-append xs ys

record_in-Rising :
    (o : NormalizedOrder) (k : Sink) (high : ℕ)
    → Rising 0 (sink_seqs k) high
    → high ≤ o.platform_seq
    → Rising 0 (sink_seqs (record_in (on_in o) k)) (suc o.platform_seq)
record_in-Rising o none high r h = omega arith
record_in-Rising o (some log) high r h =
    rw (log_seqs-append log (on_in o ∷ [])) (Rising-append 0 (log_seqs log) high o.platform_seq r h)

tee-seqs :
    (o : NormalizedOrder) (source : Source) (r : Result Reply) (k : Sink)
    → sink_seqs (tee o source r k) ≡ sink_seqs k
tee-seqs o source (ok r) none = refl
tee-seqs o source (ok r) (some log) =
    rw (log_seqs-append log (on_reply o source r ∷ [])) (append-nil (log_seqs log))
tee-seqs o source (err e) k = refl

tees-seqs :
    (o : NormalizedOrder) (a b : Source) (x y : Result Reply) (k : Sink)
    → sink_seqs (tee o a x (tee o b y k)) ≡ sink_seqs k
tees-seqs o a b x y k = tee-seqs o a x (tee o b y k) ∙ tee-seqs o b y k

recorded-seqs :
    (o : NormalizedOrder) (x y : Result Reply) (k k' : Sink)
    → (k ≡ tee o oracle y (tee o submission x k')) ⊎ (k ≡ tee o submission x (tee o oracle y k'))
    → sink_seqs k ≡ sink_seqs k'
recorded-seqs o x y k k' (inl e) = ap sink_seqs e ∙ tees-seqs o oracle submission y x k'
recorded-seqs o x y k k' (inr e) = ap sink_seqs e ∙ tees-seqs o submission oracle x y k'

process-seqs :
    (f : Intakes) (o : NormalizedOrder) (schedule : List Source) (k : Sink) (w : f.World)
    → sink_seqs (process f o schedule k w).sink ≡ sink_seqs (record_in (on_in o) k)
process-seqs f o schedule k w = elim (process-serial f o schedule k w) [
  | inl e ↦ recorded-seqs o (sub_first f o k w).0 (sub_first f o k w).1 _ _ e.recorded
  | inr e ↦ recorded-seqs o (orc_first f o k w).0 (orc_first f o k w).1 _ _ e.recorded
]

process-Rising :
    (f : Intakes) (o : NormalizedOrder) (schedule : List Source) (k : Sink) (w : f.World) (high : ℕ)
    → Rising 0 (sink_seqs k) high
    → high ≤ o.platform_seq
    → Rising 0 (sink_seqs (process f o schedule k w).sink) (suc o.platform_seq)
process-Rising f o schedule k w high r h =
    rw (process-seqs f o schedule k w) (record_in-Rising o k high r h)

module _ (sha256 : List ℕ → List ℕ) (run_secret : List ℕ) (t : TimeService) (f : Intakes)
    (i : Issues t) where
  record Inv (s : Server sha256 run_secret t f) : Type 0 where
    window : Window t i s.stamper s.time
    fresh : Rising 0 (sink_seqs s.sink) s.stamper.next_seq

  fan_out-Inv :
      (ro : RestOrder) (timing : Timing) (s : Server sha256 run_secret t f) (x : Result (ℕ × ℕ))
      (stamper : Stamper) (time : t.World)
      → Inv s
      → Advances t i s.stamper (record { stamp = x; stamper = stamper; service = time })
      → Inv (fan_out sha256 run_secret t f ro timing s x stamper time).1
  unfolding fan_out normalize
  fan_out-Inv ro timing s (err e) stamper time v a = record {
    window = a.window;
    fresh = Rising-mono 0 _ _ _ a.kept v.fresh;
  }
  fan_out-Inv ro timing s (ok (seq, ts)) stamper time v a =
      let (low, next') = a.above seq ts refl in
      record {
        window = a.window;
        fresh = rw next' (
            process-Rising f (normalize sha256 run_secret (seq, ts) ro) timing.schedule s.sink
              s.intakes s.stamper.next_seq v.fresh low);
      }

  fan_out-time :
      (ro : RestOrder) (timing : Timing) (s : Server sha256 run_secret t f) (x : Result (ℕ × ℕ))
      (stamper : Stamper) (time : t.World)
      → (fan_out sha256 run_secret t f ro timing s x stamper time).1.time ≡ time
  unfolding fan_out
  fan_out-time ro timing s (err e) stamper time = refl
  fan_out-time ro timing s (ok stamp) stamper time = refl

  handle-Inv :
      (ro : RestOrder) (timing : Timing) (s : Server sha256 run_secret t f)
      → Inv s
      → i.issued (handle sha256 run_secret t f ro timing s).1.time < two64
      → Inv (handle sha256 run_secret t f ro timing s).1
  unfolding handle
  handle-Inv ro timing s v bound =
      let c = next t s.stamper timing.fetched timing.now s.time in
      let small : i.issued c.service < two64 =
        rw (fan_out-time ro timing s c.stamp c.stamper c.service) at bound in
      fan_out-Inv ro timing s c.stamp c.stamper c.service v
        (next-Advances t i s.stamper timing.fetched timing.now s.time v.window small)

  handle-grows :
      (ro : RestOrder) (timing : Timing) (s : Server sha256 run_secret t f)
      → i.issued s.time ≤ i.issued (handle sha256 run_secret t f ro timing s).1.time
  unfolding handle
  handle-grows ro timing s =
      let c = next t s.stamper timing.fetched timing.now s.time in
      rw (fan_out-time ro timing s c.stamp c.stamper c.service)
        (next-grows t i s.stamper timing.fetched timing.now s.time)

  module _ {B : Type 0} (decode : B → Result RestOrder) where
    handle_order-keeps {ℓ} :
        (P : Server sha256 run_secret t f → Type ℓ) (r : Request B)
        (s : Server sha256 run_secret t f)
        → P s
        → ((ro : RestOrder) → P (handle sha256 run_secret t f ro r.timing s).1)
        → P (handle_order sha256 run_secret t f decode r s).1
    unfolding handle_order
    handle_order-keeps P r s same handled = elim (Bool-cases (str_eq r.method "POST")) [
      | inl post ↦ rw post (decoded_keeps (decode r.body))
      | inr other ↦ rw other same
    ]
      where
        decoded_keeps : (x : Result RestOrder) → P (decoded sha256 run_secret t f x r.timing s).1
        decoded_keeps (err e) = same
        decoded_keeps (ok ro) = handled ro

    handle_order-grows :
        (r : Request B) (s : Server sha256 run_secret t f)
        → i.issued s.time ≤ i.issued (handle_order sha256 run_secret t f decode r s).1.time
    handle_order-grows r s =
        handle_order-keeps (λ s'. i.issued s.time ≤ i.issued s'.time) r s (omega arith)
          (λ ro. handle-grows ro r.timing s)

    serve-grows :
        (rs : List (Request B)) (s : Server sha256 run_secret t f)
        → i.issued s.time ≤ i.issued (serve sha256 run_secret t f decode rs s).1.time
    unfolding serve
    serve-grows [] s = omega arith
    serve-grows (r ∷ rs) s = omega (
      arith,
      handle_order-grows r s,
      serve-grows rs (handle_order sha256 run_secret t f decode r s).1,
    )

    serve-Inv :
        (rs : List (Request B)) (s : Server sha256 run_secret t f)
        → Inv s
        → i.issued (serve sha256 run_secret t f decode rs s).1.time < two64
        → Inv (serve sha256 run_secret t f decode rs s).1
    unfolding serve
    serve-Inv [] s v bound = v
    serve-Inv (r ∷ rs) s v bound =
        let s' = (handle_order sha256 run_secret t f decode r s).1 in
        serve-Inv rs s'
          (handle_order-keeps (λ u. i.issued u.time < two64 → Inv u) r s (λ h. v)
            (λ ro h. handle-Inv ro r.timing s v h) (omega (arith, serve-grows rs s')))
          bound

    -- A gateway that starts with a new stamper and an empty sink, and serves requests one after the
    -- other, with any interleavings of the two calls of each, failures and clock readings, logs
    -- orders whose platform sequence numbers increase strictly: no two orders share one. This holds while the time-service keeps its
    -- contract and its numbers stay below 2^64.
    pub serve-Rising :
        (batch_size : ℕ) (rs : List (Request B)) (time : t.World) (intakes : f.World)
        → let s : Server sha256 run_secret t f = record {
          stamper = new_stamper batch_size;
          sink = some [];
          time = time;
          intakes = intakes;
        } in
          let out = (serve sha256 run_secret t f decode rs s).1 in
          i.issued out.time < two64 → Rising 0 (sink_seqs out.sink) out.stamper.next_seq
    unfolding new_stamper
    serve-Rising batch_size rs time intakes bound =
        (serve-Inv rs _
          (record {
            window = record { ordered = omega arith; covered = omega arith };
            fresh = omega arith;
          })
          bound).fresh
