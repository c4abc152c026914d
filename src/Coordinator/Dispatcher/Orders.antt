-- ===== src/Coordinator/Dispatcher/Orders.antt =====
-- The orders of a compiled schedule, as the gateway reads them.
use iron_book.Common.{ℕ, suc, ◌*◌, ◌<◌, ◌≤◌, ◌≡◌, ◌≢◌, arith, String, List, [], ◌∷◌, All}
use iron_book.Common.Int.{ℤ, pos}
use iron_book.Gateway.Server.{normalize}
use iron_book.Gateway.Server.Orders.{normalize-client_order_id_inj}
use iron_book.Coordinator.Schedule.{Event, Rand, IsBounded, compile}
use iron_book.Coordinator.Schedule.Offsets.{
  IsOrdinary, OneEachMs, compile-IsOrdinary, compile-OneEachMs,
}
use iron_book.Coordinator.Dispatcher.{order_of}

module _ (sha256 : List ℕ → List ℕ) (secret : List ℕ) where
  -- Whatever stamps the two orders get, their client order ids differ.
  pub record DifferentIds (e f : Event) : Type 0 where
    pub differ :
        (st st' : ℕ × ℕ)
        → (normalize sha256 secret st (order_of e)).client_order_id
          ≢ (normalize sha256 secret st' (order_of f)).client_order_id

  -- Every two events of the list have different ids.
  abbrev pub AllDifferent : List Event → Type 0
  AllDifferent [] = Unit
  AllDifferent (e ∷ events) = All (DifferentIds e) events × AllDifferent events

  later-Different :
      (e : Event) (i j : ℕ) (events : List Event)
      → IsOrdinary e
      → e.offset_ns ≡ i * 1000000
      → i < j
      → All IsOrdinary events
      → OneEachMs j events
      → All (DifferentIds e) events
  unfolding order_of
  later-Different e i j [] h at lt k ms = tt
  later-Different e i j (f ∷ events) h at lt k ms = (
    record {
      differ = λ st st' eq.
          let seqs =
            (normalize-client_order_id_inj sha256 secret st st' (order_of e) (order_of f)
              (omega (arith, h.bot.1)) h.offset (omega (arith, k.0.bot.1)) k.0.offset eq).1 in
          omega (arith, seqs, at, ms.0, lt);
    },
    later-Different e i (suc j) events h at (omega (arith, lt)) k.1 ms.1,
  )

  OneEachMs-Different :
      (i : ℕ) (events : List Event)
      → All IsOrdinary events
      → OneEachMs i events
      → AllDifferent events
  OneEachMs-Different i [] h ms = tt
  OneEachMs-Different i (e ∷ events) h ms = (
    later-Different e i (suc i) events h.0 ms.0 (omega arith) h.1 ms.1,
    OneEachMs-Different (suc i) events h.1 ms.1,
  )

  -- The orders that a bot coordinator sends for one compiled schedule get pairwise different
  -- client order ids from the gateway, whatever their stamps: for a generator that keeps its
  -- bounds and a schedule of at most about 584 years.
  pub compile-AllDifferent :
      (r : Rand)
      → IsBounded r
      → (yaml_spec : String) (seed : ℤ) (d : ℕ) → d ≤ 18446744073
      → AllDifferent (compile r yaml_spec seed (pos d))
  compile-AllDifferent r law yaml_spec seed d h =
      OneEachMs-Different 0 _ (compile-IsOrdinary r law yaml_spec seed (pos d))
        (compile-OneEachMs r yaml_spec seed d h).1
