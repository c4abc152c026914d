-- ===== src/Gateway/Server/Parallel/Ends.antt =====
-- Every handler of the gateway comes to its end once it is let
-- (apps/fairness-gateway/gateway/server.go, fork.go).
use iron_book.Common.{ℕ, suc, ◌≡◌, refl, sym, ap, subst, ◌∙◌, List, [], ◌∷◌, ◌++◌, map, All, length}
use iron_book.Common.Result.{Result, ok, err}
use iron_book.Gateway.TimeService.{TimeService}
use iron_book.Gateway.Fork.{Intakes, calling, called, done, move, move_sub, move_orc}
use iron_book.Gateway.Server.{RestOrder, Server}
use iron_book.Gateway.Server.Parallel.{
  Handling, arrived, stamped, forked, refused, served, Turn, waited, from_stamp, to_the_end,
  Schedule, at_first, behind, drain, with_stamp, advance, advance_at, interleave,
}

abbrev pub IsEnded : Handling → Type 0
IsEnded (arrived ro) = ⊥
IsEnded (stamped o) = ⊥
IsEnded (forked o a b) = ⊥
IsEnded (refused h) = Unit
IsEnded (served o h) = Unit

module _ (sha256 : List ℕ → List ℕ) (run_secret : List ℕ) (t : TimeService) (f : Intakes) where
  abbrev Shared : Type 0
  Shared = Server sha256 run_secret t f

  advances : List Turn → Handling → Shared → Handling × Shared
  advances [] h s = (h, s)
  advances (turn ∷ turns) h s =
      let (h', s') = advance sha256 run_secret t f turn h s in advances turns h' s'

  interleave-at_first :
      (turns : List Turn) (h : Handling) (hs : List Handling) (s : Shared)
      → interleave sha256 run_secret t f (map at_first turns) (h ∷ hs) s
        ≡ ((advances turns h s).0 ∷ hs, (advances turns h s).1)
  unfolding interleave advance_at advances
  interleave-at_first [] h hs s = refl
  interleave-at_first (turn ∷ turns) h hs s = interleave-at_first turns _ hs _

  interleave-behind :
      (schedule : Schedule) (h : Handling) (hs : List Handling) (s : Shared)
      → interleave sha256 run_secret t f (map behind schedule) (h ∷ hs) s ≡ (
        h ∷ (interleave sha256 run_secret t f schedule hs s).0,
        (interleave sha256 run_secret t f schedule hs s).1,
      )
  unfolding interleave advance_at
  interleave-behind [] h hs s = refl
  interleave-behind ((i, turn) ∷ schedule) h hs s = interleave-behind schedule h _ _

  interleave-append :
      (before after : Schedule) (hs : List Handling) (s : Shared)
      → interleave sha256 run_secret t f (before ++ after) hs s ≡ (
          let (hs', s') = interleave sha256 run_secret t f before hs s in
          interleave sha256 run_secret t f after hs' s')
  unfolding interleave
  interleave-append [] after hs s = refl
  interleave-append ((i, turn) ∷ before) after hs s = interleave-append before after _ _

  with_stamp-ends :
      (ro : RestOrder) (x : Result (ℕ × ℕ)) (s : Shared)
      → IsEnded (advances (from_stamp) (with_stamp sha256 run_secret t f ro x) s).0
  unfolding with_stamp advances advance waited move move_sub move_orc
  with_stamp-ends ro (ok stamp) s = tt
  with_stamp-ends ro (err e) s = tt

  advances-IsEnded : (h : Handling) (s : Shared) → IsEnded (advances to_the_end h s).0
  unfolding advances advance waited move move_sub move_orc
  advances-IsEnded (arrived ro) s = with_stamp-ends ro _ _
  advances-IsEnded (stamped o) s = tt
  advances-IsEnded (forked o calling calling) s = tt
  advances-IsEnded (forked o calling (called y)) s = tt
  advances-IsEnded (forked o calling (done y)) s = tt
  advances-IsEnded (forked o (called x) calling) s = tt
  advances-IsEnded (forked o (called x) (called y)) s = tt
  advances-IsEnded (forked o (called x) (done y)) s = tt
  advances-IsEnded (forked o (done x) calling) s = tt
  advances-IsEnded (forked o (done x) (called y)) s = tt
  advances-IsEnded (forked o (done x) (done y)) s = tt
  advances-IsEnded (refused h) s = tt
  advances-IsEnded (served o h) s = tt

  -- Draining brings the first handler to its end, and drains the others behind it.
  drain-cons :
      (h : Handling) (hs : List Handling) (s : Shared)
      → let (h', s') = advances to_the_end h s in
        let (hs', s'') = interleave sha256 run_secret t f (drain (length hs)) hs s' in
        interleave sha256 run_secret t f (drain (suc (length hs))) (h ∷ hs) s ≡ (h' ∷ hs', s'')
  unfolding drain
  drain-cons h hs s =
      let after = λ (p : List Handling × Shared).
        interleave sha256 run_secret t f (map behind (drain (length hs))) p.0 p.1 in
      interleave-append (map at_first to_the_end) (map behind (drain (length hs))) (h ∷ hs) s
      ∙ ap after (interleave-at_first to_the_end h hs s)
      ∙ interleave-behind (drain (length hs)) _ hs _

  pub drain-IsEnded :
      (hs : List Handling) (s : Shared)
      → All IsEnded (interleave sha256 run_secret t f (drain (length hs)) hs s).0
  unfolding drain interleave
  drain-IsEnded [] s = tt
  drain-IsEnded (h ∷ hs) s =
      subst (λ (p : List Handling × Shared). All IsEnded p.0) (sym (drain-cons h hs s))
        (advances-IsEnded h s, drain-IsEnded hs (advances to_the_end h s).1)
