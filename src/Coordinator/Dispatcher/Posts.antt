-- ===== src/Coordinator/Dispatcher/Posts.antt =====
-- What the dispatcher posts, and when (apps/bot-coordinator/coordinator/dispatcher.go).
use iron_book.Common.{
  ℕ, ◌+◌, ◌<◌, ◌≤◌, ◌≡◌, ◌≢◌, refl, arith, String, Bool, true, false, ◌&&◌, List, [], ◌∷◌, All,
  Option, none, some, str_eq, ltb, if◌then◌else◌, eq_iff, subst, Bool-cases, inl, inr,
}
use iron_book.Common.Int.{two63}
use iron_book.Gateway.Server.{RestOrder}
use iron_book.Coordinator.Schedule.{Event}
use iron_book.Coordinator.Dispatcher.{
  DispatchError, context_done, Outside, order_of, time_until, pause, run_events, run,
}

-- An order that was sent, with the time at which it was.
pub record Post : Type 0 where
  pub at : ℕ
  pub order : RestOrder

-- The same surroundings, with the list of the orders sent so far, newest first.
abbrev pub posting : Outside → Outside
posting o = record {
  World = o.World × List Post;
  now = λ w. o.now w.0;
  wait = λ dt w. let (woke, w') = o.wait dt w.0 in (woke, (w', w.1));
  send = λ order w.
      let (failed, w') = o.send order w.0 in
      (failed, (w', record { at = o.now w.0; order = order } ∷ w.1));
  done = λ w. o.done w.0;
}

-- The posts, newest first, that are made for the events up to some point: each no sooner than its
-- offset from the start.
abbrev pub Due : ℕ → Event → Post → Type 0
Due start e p = (p.order ≡ order_of e) × (start + e.offset_ns ≤ p.at)

-- `log'` is `log` with posts for a first part of the events, in their order; `ended` says
-- whether all of them were posted.
pub data Posted (start : ℕ) : List Event → List Post → Bool → List Post → Type 0 where
  all_sent : {log : List Post} → Posted start [] log true log
  cut_short : {events : List Event} {log : List Post} → Posted start events log false log
  sent :
      {e : Event} {events : List Event} {log log' : List Post} {ended : Bool} (p : Post)
      → Due start e p
      → Posted start events (p ∷ log) ended log'
      → Posted start (e ∷ events) log ended log'

-- What the timer promises: where it is the timer that ends the wait, the time has passed.
pub record IsTimer (o : Outside) : Type 0 where
  pub waited :
      (dt : ℕ) (w : o.World) → (o.wait dt w).0 ≡ true → o.now w + dt ≤ o.now (o.wait dt w).1

-- Durations that do not wrap.
abbrev pub InRange : Event → Type 0
InRange e = e.offset_ns < two63

abbrev pub is_none {ℓ} : {A : Type ℓ} → Option A → Bool
is_none none = true
is_none (some a) = false

-- One turn of the loop, by what its two tests find.
turn-Posted :
    {W : Type 0} (start : ℕ) (e : Event) (events : List Event) (p : Post) (woke stop : Bool)
    (w₁ w₂ : W × List Post) (rest : Option DispatchError × (W × List Post))
    → w₂.1 ≡ p ∷ w₁.1
    → (woke ≡ true → Due start e p)
    → Posted start events w₂.1 (is_none rest.0) rest.1.1
    → let r =
        if woke then if stop then (some context_done, w₂) else rest else (some context_done, w₁) in
      Posted start (e ∷ events) w₁.1 (is_none r.0) r.1.1
turn-Posted start e events p false stop w₁ w₂ rest h due more = cut_short
turn-Posted start e events p true true w₁ w₂ rest h due more =
    sent p (due refl) (subst (λ log. Posted start events log false w₂.1) h cut_short)
turn-Posted start e events p true false w₁ w₂ rest h due more =
    sent p (due refl) (subst (λ log. Posted start events log (is_none rest.0) rest.1.1) h more)

module _ (o : Outside) where
  pause-log : (dt : ℕ) (w : o.World) (log : List Post) → (pause (posting o) dt (w, log)).1.1 ≡ log
  unfolding pause
  pause-log dt w log = elim (Bool-cases (ltb 0 dt)) [ inl e ↦ rw e refl | inr e ↦ rw e refl ]

  module _ (timer : IsTimer o) (start : ℕ) where
    waited_long :
        (dt : ℕ) (long : Bool) (w : o.World) (log : List Post)
        → ltb 0 dt ≡ long
        → let r = if long then (posting o).wait dt (w, log) else (true, (w, log)) in
          r.0 ≡ true → o.now w + dt ≤ o.now r.1.0
    waited_long dt true w log e woke = timer.waited dt w woke
    waited_long dt false w log e woke = ground arith

    pause-due :
        (e : Event) (w : o.World) (log : List Post)
        → InRange e
        → let r = pause (posting o) (time_until start e.offset_ns (o.now w)) (w, log) in
          r.0 ≡ true → start + e.offset_ns ≤ o.now r.1.0
    unfolding pause time_until
    pause-due e w log h woke =
        let late = waited_long (time_until start e.offset_ns (o.now w)) _ w log refl woke in
        ground (arith, late)

    run_events-Posted :
        (events : List Event) (w : o.World) (log : List Post)
        → All InRange events
        → let r = run_events (posting o) start events (w, log) in
          Posted start events log (is_none r.0) r.1.1
    unfolding run_events
    run_events-Posted [] w log h = all_sent
    run_events-Posted (e ∷ events) w log h =
        let w₁ = (pause (posting o) (time_until start e.offset_ns (o.now w)) (w, log)).1 in
        let w₂ = ((posting o).send (order_of e) w₁).1 in
        let rest = run_events (posting o) start events w₂ in
        let r = run_events (posting o) start (e ∷ events) (w, log) in
        subst (λ l. Posted start (e ∷ events) l (is_none r.0) r.1.1) (pause-log _ w log)
          (turn-Posted start e events _ _
            (((posting o).send (order_of e) w₁).0 && (posting o).done w₂) w₁ w₂ rest refl
            (λ woke. (refl, pause-due e w log h.0 woke)) (run_events-Posted events w₂.0 w₂.1 h.1))

-- Whatever the gateway answers, the dispatcher posts the orders of a first part of the schedule,
-- once each, in order, and none before its offset from the start of the run; where `Run` returns
-- no error, that part is the whole schedule. The gateway's address is given, the offsets are below
-- 2^63, and the timer does not end a wait early.
pub run-Posted :
    (o : Outside)
    → IsTimer o
    → (gateway_url : String) (events : List Event) (w : o.World) → gateway_url ≢ ""
    → All InRange events
    → let r = run (posting o) gateway_url events (w, []) in
      Posted (o.now w) events [] (is_none r.0) r.1.1
unfolding run
run-Posted o timer gateway_url events w ne h = elim (Bool-cases (str_eq gateway_url "")) [
  | inl e ↦ absurd (ne ((eq_iff gateway_url "").0 e))
  | inr e ↦ rw e (run_events-Posted o timer (o.now w) events w [] h)
]

-- A context that is never done.
pub record IsQuiet (o : Outside) : Type 0 where
  pub timer_first : (dt : ℕ) (w : o.World) → (o.wait dt w).0 ≡ true
  pub not_done : (w : o.World) → o.done w ≡ false

pause-woke : (o : Outside) → IsQuiet o → (dt : ℕ) (w : o.World) → (pause o dt w).0 ≡ true
unfolding pause
pause-woke o q dt w = elim (Bool-cases (ltb 0 dt)) [
  | inl e ↦ rw e (q.timer_first dt w)
  | inr e ↦ rw e refl
]

and_false : (b : Bool) → (b && false) ≡ false
and_false true = refl
and_false false = refl

-- A turn of the loop that is not stopped.
pub run_events-turn :
    (o : Outside)
    → IsQuiet o
    → (start : ℕ) (e : Event) (events : List Event) (w : o.World)
    → run_events o start (e ∷ events) w
      ≡ run_events o start events
          (o.send (order_of e) (pause o (time_until start e.offset_ns (o.now w)) w).1).1
unfolding run_events
run_events-turn o q start e events w = rw (pause-woke o q _ w, q.not_done _, and_false _) refl

pub run_events-quiet :
    (o : Outside)
    → IsQuiet o
    → (start : ℕ) (events : List Event) (w : o.World) → (run_events o start events w).0 ≡ none
unfolding run_events
run_events-quiet o q start [] w = refl
run_events-quiet o q start (e ∷ events) w =
    rw (pause-woke o q _ w, q.not_done _, and_false _, run_events-quiet o q start events _)

-- Where the context is never done, `Run` returns no error, even if every post fails.
run-none :
    (o : Outside)
    → IsQuiet o
    → (gateway_url : String) (events : List Event) (w : o.World) → gateway_url ≢ ""
    → (run o gateway_url events w).0 ≡ none
unfolding run
run-none o q gateway_url events w ne = elim (Bool-cases (str_eq gateway_url "")) [
  | inl e ↦ absurd (ne ((eq_iff gateway_url "").0 e))
  | inr e ↦ rw e (run_events-quiet o q (o.now w) events w)
]
