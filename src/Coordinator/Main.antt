-- ===== src/Coordinator/Main.antt =====
-- apps/bot-coordinator/main.go. `os.Getenv` is a parameter: what the process finds in its
-- environment.
pub mod Handover
pub mod Examples
use iron_book.Common.{ℕ, String, Bool, List, Option, none, some, not, str_eq, if◌then◌else◌}
use iron_book.Common.Int.{ℤ}
use iron_book.Common.Decimal.{parse_int}
use iron_book.Coordinator.Schedule.{Event, Rand, compile}
use iron_book.Coordinator.Dispatcher.{DispatchError, Outside, run}

-- How the process ends: by `log.Fatalf`, with what the text names, or at its end.
pub data Exit : Type 0 where
  bad_seed bad_duration no_gateway_url : Exit
  dispatch_failed : DispatchError → Exit
  complete : Exit

module _ (r : Rand) (o : Outside) where
  -- The end of `main`: an error counts unless the context is done.
  unfoldable pub ended : Option DispatchError × o.World → Exit × o.World
  ended (none, w) = (complete, w)
  ended (some e, w) = (if o.done w then complete else dispatch_failed e, w)

  -- `main` from the parsed numbers on.
  unfoldable pub main_parsed : (String → String) → Option ℤ → Option ℤ → o.World → Exit × o.World
  unfolding ended
  main_parsed getenv none duration w = (bad_seed, w)
  main_parsed getenv (some seed) none w = (bad_duration, w)
  main_parsed getenv (some seed) (some duration) w =
      let url = getenv "IRONBOOK_GATEWAY_URL" in
      if str_eq url ""
      then (no_gateway_url, w)
      else ended (run o url (compile r (getenv "IRONBOOK_SCENARIO_YAML") seed duration) w)

  unfoldable pub main : (String → String) → o.World → Exit × o.World
  unfolding main_parsed
  main getenv w =
      main_parsed getenv (parse_int (getenv "IRONBOOK_SCENARIO_SEED"))
        (parse_int (getenv "IRONBOOK_DURATION_SECONDS")) w
