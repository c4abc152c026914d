-- ===== src/Coordinator/Examples.antt =====
-- The coordinator at concrete inputs: a generator that always answers 0, surroundings whose world
-- is the time, and a hash that gives every text the same digest.
use iron_book.Common.{
  ℕ, ◌+◌, ◌-◌, ◌<◌, ◌≤◌, ◌*◌, ◌≡◌, ◌≢◌, refl, arith, String, Bool, true, false, List, [], ◌∷◌, All,
  length, Option, none, some,
}
use iron_book.Common.Int.{ℤ, pos}
use iron_book.Coordinator.Schedule.{
  Event, Rand, IsBounded, compile, events_from, total_events, next_event, schedule_bytes,
  schedule_hash,
}
use iron_book.Coordinator.Schedule.Offsets.{OneEachMs, compile-OneEachMs}
use iron_book.Coordinator.Schedule.Encoding.{schedule_hash-collision}
use iron_book.Coordinator.Dispatcher.{Outside, run}
use iron_book.Coordinator.Dispatcher.Posts.{IsTimer, IsQuiet, posting, Posted, is_none, run-Posted}

abbrev zeros : Rand
zeros = record { Source = ℕ; new_source = λ seed. 0; intn = λ n s. (0, s + 1) }

zeros-IsBounded : IsBounded zeros
zeros-IsBounded = record { below = λ n s h. h }

abbrev same_digest : List ℕ → List ℕ
same_digest text = 1 ∷ 2 ∷ []

compile-OneEachMs_example :
    (length (compile zeros "" (pos 42) (pos 1)) ≡ 1 * 1000)
    × OneEachMs 0 (compile zeros "" (pos 42) (pos 1))
compile-OneEachMs_example = compile-OneEachMs zeros "" (pos 42) 1 (omega arith)

nonempty : compile zeros "" (pos 42) (pos 0) ≢ compile zeros "" (pos 42) (pos 1)
unfolding compile total_events events_from iron_book.Common.Int.to_uint64
nonempty e = cc

schedule_hash-collision_example :
    (schedule_bytes (compile zeros "" (pos 42) (pos 0))
      ≢ schedule_bytes (compile zeros "" (pos 42) (pos 1)))
    × (same_digest (schedule_bytes (compile zeros "" (pos 42) (pos 0)))
        ≡ same_digest (schedule_bytes (compile zeros "" (pos 42) (pos 1))))
unfolding schedule_hash
schedule_hash-collision_example =
    schedule_hash-collision zeros zeros-IsBounded same_digest
      (λ text. (omega arith, (omega arith, tt))) "" "" (pos 42) (pos 42) (pos 0) (pos 1) nonempty
      refl

-- The timer always wins, every post fails and takes 3 ns.
abbrev failing : Outside
failing = record {
  World = ℕ;
  now = λ w. w;
  wait = λ dt w. (true, w + dt);
  send = λ o w. (true, w + 3);
  done = λ w. false;
}

failing-IsTimer : IsTimer failing
failing-IsTimer = record { waited = λ dt w h. omega arith }

failing-IsQuiet : IsQuiet failing
failing-IsQuiet = record { timer_first = λ dt w. refl; not_done = λ w. refl }

abbrev two_events : List Event
two_events = (next_event zeros 0 0).0 ∷ (next_event zeros 2 0).0 ∷ []

run-Posted_example :
    let r = run (posting failing) "http://gateway" two_events (5, []) in
    Posted 5 two_events [] (is_none r.0) r.1.1
unfolding next_event
run-Posted_example =
    run-Posted failing failing-IsTimer "http://gateway" two_events 5 (λ e. cc)
      (omega arith, (omega arith, tt))
