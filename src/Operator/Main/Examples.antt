-- ===== src/Operator/Main/Examples.antt =====
-- The start of the operator at a concrete input: the fourth call fails, and its number is the error.
use iron_book.Common.{ℕ, ◌+◌, ◌==◌, ◌≡◌, refl, [], ◌∷◌, none, some, if◌then◌else◌}
use iron_book.Common.Result.{err}
use iron_book.Operator.Main.{default_flags, TlsConfig, applied, manager_options, Manager, main}
use iron_book.Operator.Main.Starts.{recorded, all_calls, Made, main-Made}

abbrev fourth_fails : Manager
fourth_fails = record {
  World = ℕ;
  call = λ x w. (if w == 3 then some "already exists" else none, w + 1);
}

abbrev modern : TlsConfig
modern = record { next_protos = "h2" ∷ "http/1.1" ∷ [] }

main-Made_example :
    let r = main (recorded fourth_fails) default_flags (0, []) in
    let options = manager_options default_flags in
    Made (all_calls default_flags) r.0 r.1.1
    × ((applied options.webhook.tls_opts modern).next_protos ≡ "http/1.1" ∷ [])
    × ((applied options.metrics.tls_opts modern).next_protos ≡ "http/1.1" ∷ [])
    × (options.metrics.filtered ≡ options.metrics.secure_serving)
main-Made_example = main-Made fourth_fails default_flags 0 modern

-- The bot swarm's controller is not made, and nothing is called after it.
stops_at_fourth : (main (recorded fourth_fails) default_flags (0, [])).0 ≡ err "already exists"
unfolding main
stops_at_fourth = refl
