-- ===== src/Gateway/Server/Parallel/Stamps.antt =====
-- The stamps of the orders of concurrent handlers
-- (apps/fairness-gateway/gateway/server.go, stamper.go).
use mathlib.Core.List.{append-nil, map-append, Perm}
use mathlib.Core.List.Perm
use iron_book.Common.{ℕ, zero, suc, ◌≤◌, ◌<◌, ◌≡◌, refl, sym, ◌∙◌, arith, List, [], ◌∷◌, ◌++◌, map}
use iron_book.Common.Int.{two64}
use iron_book.Common.Result.{Result, ok, err}
use iron_book.Gateway.Proto.{NormalizedOrder}
use iron_book.Gateway.TimeService.{TimeService, Issues}
use iron_book.Gateway.Stamper.{Stamper}
use iron_book.Gateway.Stamper.Order.{Window, Advances, next-Advances, next-grows}
use iron_book.Gateway.Fork.{Intakes, Thread, calling, called, done}
use iron_book.Gateway.Server.{RestOrder, Server, normalize}
use iron_book.Gateway.Server.Session.{Rising, Rising-mono, Rising-append}
use iron_book.Gateway.Server.Parallel.{
  Handling, arrived, stamped, forked, refused, served, Turn, handler, goroutine, waited, Schedule,
  with_stamp, advance, advance_at, interleave,
}
use iron_book.Gateway.Server.Parallel.Ends.{IsEnded}
use iron_book.Gateway.Server.Parallel.Orders.{
  of_all, served_order, Adds, AddsAll, Adds-head, AddsAll-tail, AddsAll-Perm,
}

-- The order of a handler that got its stamp.
abbrev pub stamped_order : Handling → List NormalizedOrder
stamped_order (arrived ro) = []
stamped_order (stamped o) = o ∷ []
stamped_order (forked o a b) = o ∷ []
stamped_order (refused h) = []
stamped_order (served o h) = o ∷ []

pub IsEnded-stamped_order : (h : Handling) → IsEnded h → stamped_order h ≡ served_order h
IsEnded-stamped_order (arrived ro) e = absurd e
IsEnded-stamped_order (stamped o) e = absurd e
IsEnded-stamped_order (forked o a b) e = absurd e
IsEnded-stamped_order (refused h) e = refl
IsEnded-stamped_order (served o h) e = refl

waited-stamped_order : (o : NormalizedOrder) (a b : Thread) → stamped_order (waited o a b) ≡ o ∷ []
unfolding waited
waited-stamped_order o calling b = refl
waited-stamped_order o (called x) b = refl
waited-stamped_order o (done x) calling = refl
waited-stamped_order o (done x) (called y) = refl
waited-stamped_order o (done x) (done y) = refl

abbrev pub seqs : List NormalizedOrder → List ℕ
seqs = map (λ (o : NormalizedOrder). o.platform_seq)

-- The orders that were stamped have numbers that rise up to `high`.
abbrev pub Rises : List NormalizedOrder → ℕ → Type 0
Rises xs high = Rising 0 (seqs xs) high

Rises-append :
    (xs : List NormalizedOrder) (o : NormalizedOrder) (high : ℕ)
    → Rises xs high
    → high ≤ o.platform_seq
    → Rises (xs ++ o ∷ []) (suc o.platform_seq)
Rises-append xs o high r h =
    rw (map-append (λ (o : NormalizedOrder). o.platform_seq) xs (o ∷ []))
      (Rising-append 0 (seqs xs) high o.platform_seq r h)

module _ (sha256 : List ℕ → List ℕ) (run_secret : List ℕ) (t : TimeService) (f : Intakes)
    (i : Issues t) where
  abbrev pub Shared : Type 0
  Shared = Server sha256 run_secret t f

  -- One turn: the stamper keeps its window, and a new stamp is above all that it gave.
  record Stamps (h h' : Handling) (s s' : Shared) (xs : List NormalizedOrder) : Type 0 where
    window : Window t i s'.stamper s'.time
    later : List NormalizedOrder
    adds : Adds stamped_order xs later h h'
    rises : Rises later s'.stamper.next_seq

  with_stamp-Stamps :
      (ro : RestOrder) (x : Result (ℕ × ℕ)) (stamper : Stamper) (time : t.World) (s : Shared)
      (xs : List NormalizedOrder)
      → Advances t i s.stamper (record { stamp = x; stamper = stamper; service = time })
      → Rises xs s.stamper.next_seq
      → Stamps
          (arrived ro)
          (with_stamp sha256 run_secret t f ro x)
          s
          (record s { stamper = stamper; time = time })
          xs
  unfolding with_stamp normalize
  with_stamp-Stamps ro (err e) stamper time s xs a r = record {
    window = a.window;
    later = xs;
    adds = record { added = []; log = sym (append-nil xs); part = refl };
    rises = Rising-mono 0 _ _ _ a.kept r;
  }
  with_stamp-Stamps ro (ok (seq, ts)) stamper time s xs a r =
      let (low, next') = a.above seq ts refl in
      let o = normalize sha256 run_secret (seq, ts) ro in
      record {
        window = a.window;
        later = xs ++ o ∷ [];
        adds = record { added = o ∷ []; log = refl; part = refl };
        rises = rw next' (Rises-append xs o s.stamper.next_seq r low);
      }

  quiet :
      (h h' : Handling) (s s' : Shared) (xs : List NormalizedOrder)
      → Window t i s'.stamper s'.time
      → Rises xs s'.stamper.next_seq
      → stamped_order h' ≡ stamped_order h
      → Stamps h h' s s' xs
  quiet h h' s s' xs v r e = record {
    window = v;
    later = xs;
    adds = record {
      added = [];
      log = sym (append-nil xs);
      part = e ∙ sym (append-nil (stamped_order h));
    };
    rises = r;
  }

  advance-Stamps :
      (turn : Turn) (h : Handling) (s : Shared) (xs : List NormalizedOrder)
      → Window t i s.stamper s.time
      → Rises xs s.stamper.next_seq
      → let (h', s') = advance sha256 run_secret t f turn h s in
        i.issued s'.time < two64 → Stamps h h' s s' xs
  unfolding advance
  advance-Stamps (handler fetched now) (arrived ro) s xs v r bound =
      with_stamp-Stamps ro _ _ _ s xs (next-Advances t i s.stamper fetched now s.time v bound) r
  advance-Stamps (handler fetched now) (stamped o) s xs v r bound = quiet _ _ s _ xs v r refl
  advance-Stamps (handler fetched now) (forked o a b) s xs v r bound =
      quiet (forked o a b) _ s _ xs v r (waited-stamped_order o a b)
  advance-Stamps (handler fetched now) (refused h) s xs v r bound = quiet _ _ s _ xs v r refl
  advance-Stamps (handler fetched now) (served o h) s xs v r bound = quiet _ _ s _ xs v r refl
  advance-Stamps (goroutine who) (forked o a b) s xs v r bound = quiet _ _ s _ xs v r refl
  advance-Stamps (goroutine who) (arrived ro) s xs v r bound = quiet _ _ s _ xs v r refl
  advance-Stamps (goroutine who) (stamped o) s xs v r bound = quiet _ _ s _ xs v r refl
  advance-Stamps (goroutine who) (refused h) s xs v r bound = quiet _ _ s _ xs v r refl
  advance-Stamps (goroutine who) (served o h) s xs v r bound = quiet _ _ s _ xs v r refl

  advance-grows :
      (turn : Turn) (h : Handling) (s : Shared)
      → i.issued s.time ≤ i.issued (advance sha256 run_secret t f turn h s).1.time
  unfolding advance
  advance-grows (handler fetched now) (arrived ro) s = next-grows t i s.stamper fetched now s.time
  advance-grows (handler fetched now) (stamped o) s = omega arith
  advance-grows (handler fetched now) (forked o a b) s = omega arith
  advance-grows (handler fetched now) (refused h) s = omega arith
  advance-grows (handler fetched now) (served o h) s = omega arith
  advance-grows (goroutine who) (forked o a b) s = omega arith
  advance-grows (goroutine who) (arrived ro) s = omega arith
  advance-grows (goroutine who) (stamped o) s = omega arith
  advance-grows (goroutine who) (refused h) s = omega arith
  advance-grows (goroutine who) (served o h) s = omega arith

  record StampsAll (hs hs' : List Handling) (s s' : Shared) (xs : List NormalizedOrder)
      : Type 0 where
    window : Window t i s'.stamper s'.time
    later : List NormalizedOrder
    adds : AddsAll stamped_order xs later hs hs'
    rises : Rises later s'.stamper.next_seq

  advance_at-StampsAll :
      (k : ℕ) (turn : Turn) (hs : List Handling) (s : Shared) (xs : List NormalizedOrder)
      → Window t i s.stamper s.time
      → Rises xs s.stamper.next_seq
      → let (hs', s') = advance_at sha256 run_secret t f k turn hs s in
        i.issued s'.time < two64 → StampsAll hs hs' s s' xs
  unfolding advance_at
  advance_at-StampsAll k turn [] s xs v r bound = record {
    window = v;
    later = xs;
    adds = record { added = []; log = sym (append-nil xs); part = Perm.refl [] };
    rises = r;
  }
  advance_at-StampsAll zero turn (h ∷ hs) s xs v r bound =
      let a = advance-Stamps turn h s xs v r bound in
      record {
        window = a.window;
        later = a.later;
        adds = Adds-head stamped_order hs a.adds;
        rises = a.rises;
      }
  advance_at-StampsAll (suc k) turn (h ∷ hs) s xs v r bound =
      let a = advance_at-StampsAll k turn hs s xs v r bound in
      record {
        window = a.window;
        later = a.later;
        adds = AddsAll-tail stamped_order h a.adds;
        rises = a.rises;
      }

  advance_at-grows :
      (k : ℕ) (turn : Turn) (hs : List Handling) (s : Shared)
      → i.issued s.time ≤ i.issued (advance_at sha256 run_secret t f k turn hs s).1.time
  unfolding advance_at
  advance_at-grows k turn [] s = omega arith
  advance_at-grows zero turn (h ∷ hs) s = advance-grows turn h s
  advance_at-grows (suc k) turn (h ∷ hs) s = advance_at-grows k turn hs s

  pub interleave-grows :
      (schedule : Schedule) (hs : List Handling) (s : Shared)
      → i.issued s.time ≤ i.issued (interleave sha256 run_secret t f schedule hs s).1.time
  unfolding interleave
  interleave-grows [] hs s = omega arith
  interleave-grows ((k, turn) ∷ schedule) hs s =
      let (hs', s') = advance_at sha256 run_secret t f k turn hs s in
      omega (arith, advance_at-grows k turn hs s, interleave-grows schedule hs' s')

  -- The orders that were stamped so far, in the order of their stamps.
  pub record IsStamped (hs : List Handling) (s : Shared) : Type 0 where
    pub window : Window t i s.stamper s.time
    pub orders : List NormalizedOrder
    pub rises : Rises orders s.stamper.next_seq
    pub stamped : Perm orders (of_all stamped_order hs)

  pub interleave-IsStamped :
      (schedule : Schedule) (hs : List Handling) (s : Shared)
      → IsStamped hs s
      → let (hs', s') = interleave sha256 run_secret t f schedule hs s in
        i.issued s'.time < two64 → IsStamped hs' s'
  unfolding interleave
  interleave-IsStamped [] hs s v bound = v
  interleave-IsStamped ((k, turn) ∷ schedule) hs s v bound =
      let (hs', s') = advance_at sha256 run_secret t f k turn hs s in
      let a =
        advance_at-StampsAll k turn hs s v.orders v.window v.rises
          (omega (arith, interleave-grows schedule hs' s')) in
      interleave-IsStamped schedule hs' s'
        (record {
          window = a.window;
          orders = a.later;
          rises = a.rises;
          stamped = AddsAll-Perm stamped_order a.adds v.stamped;
        })
        bound
