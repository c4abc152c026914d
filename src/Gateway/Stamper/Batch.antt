-- ===== src/Gateway/Stamper/Batch.antt =====
-- The calls of `Next` within one window (apps/fairness-gateway/gateway/stamper.go).
use iron_book.Common.{
  ℕ, zero, suc, ◌+◌, ◌%◌, ◌≤◌, ◌<◌, ◌≡◌, refl, sym, subst, inl, inr, Bool-cases, ap, ◌∙◌, String,
  List, [], ◌∷◌, arith, Option, some, none, length, leb, lt→leb, le→leb,
}
use iron_book.Common.Int.{two63, two64}
use iron_book.Common.Result.{Result, ok, err}
use iron_book.Gateway.Proto.{NextStampsResponse}
use iron_book.Gateway.TimeService.{TimeService}
use iron_book.Gateway.Stamper.{Stamper, refill, reserve, refilled, next, run}

-- The sequence numbers that a run of calls gave; `none` for a call that failed.
abbrev pub numbers : List (Result (ℕ × ℕ)) → List (Option ℕ)
numbers [] = []
numbers (ok (seq, ts) ∷ stamps) = some seq ∷ numbers stamps
numbers (err e ∷ stamps) = none ∷ numbers stamps

-- n numbers from `first` on.
abbrev pub consecutive : ℕ → ℕ → List (Option ℕ)
consecutive zero first = []
consecutive (suc n) first = some first ∷ consecutive n (suc first)

module _ (t : TimeService) where
  window_run :
      (rs : List (ℕ × ℕ)) (s : Stamper) (w : t.World)
      → s.next_seq + length rs ≤ s.end_seq
      → s.end_seq < two64
      → (numbers (run t rs s w).stamps ≡ consecutive (length rs) s.next_seq)
        × ((run t rs s w).service ≡ w)
  unfolding run next
  window_run [] s w h b = (refl, refl)
  window_run ((fetched, now) ∷ rs) s w h b =
      let s' = (reserve s now).1 in
      let later = window_run rs s' w (omega arith) (omega arith) in
      let succ : s'.next_seq ≡ suc s.next_seq = omega arith in
      rw (lt→leb s.end_seq s.next_seq (omega arith))
        (ap (◌∷◌ (some s.next_seq)) (later.0 ∙ ap (consecutive (length rs)) succ), later.1)

  opened :
      (rs : List (ℕ × ℕ)) (s : Stamper) (fetched now : ℕ) (r : NextStampsResponse) (w : t.World)
      → r.first_seq + r.batch_size < two64
      → length rs < r.batch_size
      → let c = refilled t s fetched now (ok r, w) in
        let rest = run t rs c.stamper c.service in
        (numbers (c.stamp ∷ rest.stamps) ≡ consecutive (suc (length rs)) r.first_seq)
        × (rest.service ≡ w)
  unfolding refilled
  opened rs s fetched now r w small fits =
      let s' = (reserve (refill s r fetched) now).1 in
      let later = window_run rs s' w (omega arith) (omega arith) in
      let succ : s'.next_seq ≡ suc r.first_seq = omega arith in
      (ap (◌∷◌ (some r.first_seq)) (later.0 ∙ ap (consecutive (length rs)) succ), later.1)

  -- When the window is used up and the time-service answers with a block, this one remote call is
  -- the only one made over as many calls of `Next` as the block has numbers: the state of the
  -- service is the one after that call, and the stamps carry the consecutive numbers of the block.
  pub run_one_refill :
      (rs : List (ℕ × ℕ)) (s : Stamper) (fetched now : ℕ) (w : t.World) (r : NextStampsResponse)
      → s.end_seq ≤ s.next_seq
      → (t.next_stamps s.batch_size w).0 ≡ ok r
      → r.first_seq + r.batch_size < two64
      → length rs < r.batch_size
      → let ran = run t ((fetched, now) ∷ rs) s w in
        (numbers ran.stamps ≡ consecutive (suc (length rs)) r.first_seq)
        × (ran.service ≡ (t.next_stamps s.batch_size w).1)
  unfolding run next
  run_one_refill rs s fetched now w r spent answer small fits =
      let w' = (t.next_stamps s.batch_size w).1 in
      let same : t.next_stamps s.batch_size w ≡ (ok r, w') = λ i. (answer i, w') in
      rw (le→leb s.end_seq s.next_seq spent) (
        subst
          (λ a.
            let c = refilled t s fetched now a in
            let rest = run t rs c.stamper c.service in
            (numbers (c.stamp ∷ rest.stamps) ≡ consecutive (suc (length rs)) r.first_seq)
            × (rest.service ≡ a.1))
          (sym same) (opened rs s fetched now r w' small fits))

  refilled_error :
      (s : Stamper) (fetched now : ℕ) (a : Result NextStampsResponse × t.World) (e : String)
      → (refilled t s fetched now a).stamp ≡ err e
      → ((refilled t s fetched now a).stamper ≡ s) × (a.0 ≡ err e)
  unfolding refilled
  refilled_error s fetched now (ok r, w) e h = cc
  refilled_error s fetched now (err e', w) e h = (refl, cc)

  -- A refused refill gives the caller the error and leaves the stamper as it was, so the next
  -- call asks again; without a refill the service is not asked.
  pub next_error :
      (s : Stamper) (fetched now : ℕ) (w : t.World) (e : String)
      → (next t s fetched now w).stamp ≡ err e
      → ((next t s fetched now w).stamper ≡ s)
        × (s.end_seq ≤ s.next_seq)
        × ((t.next_stamps s.batch_size w).0 ≡ err e)
  unfolding next
  next_error s fetched now w e h = elim (Bool-cases (leb s.end_seq s.next_seq)) [
    | inl spent ↦
        let (same, refused) =
          refilled_error s fetched now (t.next_stamps s.batch_size w) e (rw spent at h) in
        (rw spent same, ground arith, refused)
    | inr left ↦ let impossible : ⊥ = ground arith in absurd impossible
  ]

-- Inside a window a later reading of the clock gives no earlier timestamp, as long as the
-- timestamps stay below 2^64 and the readings within 2^63 ns of the refill.
reserve-ts_mono :
    (s : Stamper) (now later : ℕ)
    → s.origin_at ≤ now
    → now ≤ later
    → later < s.origin_at + two63
    → s.origin_ts + two63 ≤ two64
    → let (first, s') = reserve s now in
      let (second, _) = reserve s' later in
      (first.1 ≤ second.1) × (second.0 ≡ (first.0 + 1) % two64)
unfolding reserve
reserve-ts_mono s now later h k l m = ground arith
