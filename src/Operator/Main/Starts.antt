-- ===== src/Operator/Main/Starts.antt =====
-- What stands before the start of the manager.
use mathlib.Core.List.{append_assoc}
use iron_book.Common.{
  String, ◌≡◌, refl, Bool, true, false, not, List, [], ◌∷◌, ◌++◌, Option, none, some, ◌∙◌, subst,
  sym, if◌then◌else◌,
}
use iron_book.Common.Result.{Result, ok, err}
use iron_book.Common.Steps.{Step, followed, outcome}
use iron_book.Operator.Main.{
  Flags, TlsConfig, disable_http2, applied, manager_options, tls_opts, Call, new_manager, complete,
  add_healthz, add_readyz, start, submission_setup, scenario_setup, bot_swarm_setup,
  benchmark_run_setup, Manager, main,
}

-- A manager that also keeps the list of its calls, oldest first.
abbrev pub recorded : Manager → Manager
recorded m = record {
  World = m.World × List Call;
  call = λ x w. let (e, w') = m.call x w.0 in (e, (w', w.1 ++ x ∷ []));
}

-- The calls of a start that succeeds.
abbrev pub all_calls : Flags → List Call
all_calls f =
    new_manager (manager_options f)
    ∷ complete submission_setup
    ∷ complete scenario_setup
    ∷ complete bot_swarm_setup
    ∷ complete benchmark_run_setup
    ∷ add_healthz "healthz"
    ∷ add_readyz "readyz"
    ∷ start
    ∷ []

-- Calls one after another, until one fails.
abbrev in_turn : (m : Manager) → Call → List Call → Step m.World (Unit {0})
in_turn m x [] w = outcome (m.call x w)
in_turn m x (y ∷ calls) w = followed (outcome (m.call x w)) (λ _. in_turn m y calls)

-- The calls that were made of some: all of them, none of which failed, or a first part, of which
-- the last failed.
pub data Made : List Call → Result (Unit {0}) → List Call → Type 0 where
  to_the_end : (x : Call) → Made (x ∷ []) (ok tt) (x ∷ [])
  failed : (x : Call) (calls : List Call) (e : String) → Made (x ∷ calls) (err e) (x ∷ [])
  one_more :
      (x : Call) {calls made : List Call} {r : Result (Unit {0})}
      → Made calls r made
      → Made (x ∷ calls) r (x ∷ made)

-- What was made from a log on.
abbrev MadeFrom :
    (m : Manager) → List Call → List Call → Result (Unit {0}) × (m.World × List Call) → Type 0
MadeFrom m log calls r = (made : List Call) × (r.1.1 ≡ log ++ made) × Made calls r.0 made

protos_case :
    (http2 : Bool) (c : TlsConfig)
    → (applied (if not http2 then disable_http2 ∷ [] else []) c).next_protos
      ≡ (if http2 then c.next_protos else "http/1.1" ∷ [])
protos_case true c = refl
protos_case false c = refl

module _ (m : Manager) where
  one_call :
      (x : Call) (log : List Call) (a : Option String × m.World)
      → MadeFrom m log (x ∷ []) (outcome (a.0, (a.1, log ++ x ∷ [])))
  one_call x log (none, w) = (x ∷ [], refl, to_the_end x)
  one_call x log (some e, w) = (x ∷ [], refl, failed x [] e)

  one_then :
      (x : Call) (log calls : List Call) (next : Step (m.World × List Call) (Unit {0}))
      (a : Option String × m.World)
      → MadeFrom m (log ++ x ∷ []) calls (next (a.1, log ++ x ∷ []))
      → MadeFrom m log (x ∷ calls) (followed (outcome (a.0, (a.1, log ++ x ∷ []))) (λ _. next))
  one_then x log calls next (none, w) (made, logged, made_so) =
      (x ∷ made, logged ∙ append_assoc log (x ∷ []) made, one_more x made_so)
  one_then x log calls next (some e, w) h = (x ∷ [], refl, failed x calls e)

  in_turn-Made :
      (x : Call) (calls : List Call) (w : m.World) (log : List Call)
      → MadeFrom m log (x ∷ calls) (in_turn (recorded m) x calls (w, log))
  in_turn-Made x [] w log = one_call x log (m.call x w)
  in_turn-Made x (y ∷ calls) w log =
      one_then x log (y ∷ calls) (in_turn (recorded m) y calls) (m.call x w)
        (in_turn-Made y calls (m.call x w).1 (log ++ x ∷ []))

  -- The operator's calls of the manager are those of a start in their order, the manager with its
  -- options first, the four controllers and the two checks next, and the start last: all of them
  -- where `main` ends without an error, and otherwise up to the one that failed. Both servers speak
  -- HTTP/1.1 only, unless HTTP/2 is enabled, and the metrics are filtered just where they are served
  -- by TLS.
  pub main-Made :
      (f : Flags) (w : m.World) (c : TlsConfig)
      → let r = main (recorded m) f (w, []) in
        let options = manager_options f in
        let protos = if f.enable_http2 then c.next_protos else "http/1.1" ∷ [] in
        Made (all_calls f) r.0 r.1.1
        × ((applied options.webhook.tls_opts c).next_protos ≡ protos)
        × ((applied options.metrics.tls_opts c).next_protos ≡ protos)
        × (options.metrics.filtered ≡ options.metrics.secure_serving)
  unfolding main manager_options tls_opts
  main-Made f w c =
      let (made, logged, made_so) = in_turn-Made (new_manager (manager_options f)) _ w [] in
      (
        subst (Made (all_calls f) _) (sym logged) made_so,
        protos_case f.enable_http2 c,
        protos_case f.enable_http2 c,
        refl,
      )
