-- ===== src/Gateway/Stamper/Order.antt =====
-- The sequence numbers that `Next` hands out over many windows
-- (apps/fairness-gateway/gateway/stamper.go).
use iron_book.Common.{
  ℕ, suc, ◌+◌, ◌≤◌, ◌<◌, ◌≡◌, refl, List, [], ◌∷◌, arith, inl, inr, leb, le→leb, Bool-cases,
}
use iron_book.Common.Int.{two64}
use iron_book.Common.Result.{Result, ok, err}
use iron_book.Gateway.Proto.{NextStampsResponse}
use iron_book.Gateway.TimeService.{TimeService, Issues}
use iron_book.Gateway.Stamper.{Stamper, new_stamper, refilled, next, run, Called}

-- The numbers of the stamps that were given increase strictly, the first being at least `low`.
abbrev pub Ascending : ℕ → List (Result (ℕ × ℕ)) → Type 0
Ascending low [] = Unit
Ascending low (ok (seq, ts) ∷ stamps) = (low ≤ seq) × Ascending (suc seq) stamps
Ascending low (err e ∷ stamps) = Ascending low stamps

Ascending-mono : (a b : ℕ) (xs : List (Result (ℕ × ℕ))) → a ≤ b → Ascending b xs → Ascending a xs
Ascending-mono a b [] h x = tt
Ascending-mono a b (ok (q, ts) ∷ xs) h x = (omega arith, x.1)
Ascending-mono a b (err e ∷ xs) h x = Ascending-mono a b xs h x

module _ (t : TimeService) (i : Issues t) where
  -- The window lies below what the service has issued.
  pub record Window (s : Stamper) (w : t.World) : Type 0 where
    pub ordered : s.next_seq ≤ s.end_seq
    pub covered : s.end_seq ≤ i.issued w

  -- What a call does to the window.
  pub record Advances (s : Stamper) (c : Called t) : Type 0 where
    pub window : Window c.stamper c.service
    pub above :
        (seq ts : ℕ) → c.stamp ≡ ok (seq, ts) → (s.next_seq ≤ seq) × (c.stamper.next_seq ≡ suc seq)
    pub kept : s.next_seq ≤ c.stamper.next_seq

  refilled-Advances :
      (s : Stamper) (fetched now : ℕ) (w : t.World) (a : Result NextStampsResponse × t.World)
      → Window s w
      → i.issued w ≤ i.issued a.1
      → i.issued a.1 < two64
      → ((r : NextStampsResponse)
          → a.0 ≡ ok r
          → (i.issued w ≤ r.first_seq)
            × (0 < r.batch_size)
            × (r.first_seq + r.batch_size ≤ i.issued a.1))
      → Advances s (refilled t s fetched now a)
  unfolding refilled
  refilled-Advances s fetched now w (ok r, w') v more bound grant =
      let (old, some_left, covered) = grant r refl in
      record {
        window = record { ordered = omega arith; covered = omega arith };
        above = λ seq ts e. ground arith;
        kept = omega arith;
      }
  refilled-Advances s fetched now w (err e, w') v more bound grant = record {
    window = record { ordered = v.ordered; covered = omega arith };
    above = λ seq ts e'. cc;
    kept = omega arith;
  }

  refilled-service :
      (s : Stamper) (fetched now : ℕ) (a : Result NextStampsResponse × t.World)
      → (refilled t s fetched now a).service ≡ a.1
  unfolding refilled
  refilled-service s fetched now (ok r, w) = refl
  refilled-service s fetched now (err e, w) = refl

  next-service-refill :
      (s : Stamper) (fetched now : ℕ) (w : t.World)
      → s.end_seq ≤ s.next_seq
      → (next t s fetched now w).service ≡ (t.next_stamps s.batch_size w).1
  unfolding next
  next-service-refill s fetched now w h =
      rw (le→leb _ _ h) (refilled-service s fetched now (t.next_stamps s.batch_size w))

  pub next-Advances :
      (s : Stamper) (fetched now : ℕ) (w : t.World)
      → Window s w
      → i.issued (next t s fetched now w).service < two64
      → Advances s (next t s fetched now w)
  unfolding next
  next-Advances s fetched now w v bound = elim (Bool-cases (leb s.end_seq s.next_seq)) [
    | inl spent ↦
        let h : i.issued (t.next_stamps s.batch_size w).1 < two64 =
          rw (next-service-refill s fetched now w (ground arith)) at bound in
        rw spent (
          refilled-Advances s fetched now w _ v (i.grows s.batch_size w) h
            (λ r e. i.fresh s.batch_size w r e h))
    | inr left ↦ rw left (record {
      window = record { ordered = ground arith; covered = v.covered };
      above = λ seq ts e. ground arith;
      kept = ground arith;
    })
  ]

  pub next-grows :
      (s : Stamper) (fetched now : ℕ) (w : t.World)
      → i.issued w ≤ i.issued (next t s fetched now w).service
  unfolding next
  next-grows s fetched now w = elim (Bool-cases (leb s.end_seq s.next_seq)) [
    | inl spent ↦ rw spent (
        rw (refilled-service s fetched now (t.next_stamps s.batch_size w)) (i.grows s.batch_size w))
    | inr left ↦ rw left (omega arith)
  ]

  run-grows :
      (rs : List (ℕ × ℕ)) (s : Stamper) (w : t.World) → i.issued w ≤ i.issued (run t rs s w).service
  unfolding run
  run-grows [] s w = omega arith
  run-grows ((fetched, now) ∷ rs) s w =
      let c = next t s fetched now w in
      omega (arith, next-grows s fetched now w, run-grows rs c.stamper c.service)

  stamp_above :
      (low : ℕ) (x : Result (ℕ × ℕ)) (after : ℕ) (xs : List (Result (ℕ × ℕ)))
      → ((seq ts : ℕ) → x ≡ ok (seq, ts) → (low ≤ seq) × (after ≡ suc seq))
      → low ≤ after
      → Ascending after xs
      → Ascending low (x ∷ xs)
  stamp_above low (ok (seq, ts)) after xs h kept up =
      let (low', next') = h seq ts refl in (low', rw (← next') up)
  stamp_above low (err e) after xs h kept up = Ascending-mono low after xs kept up

  run-Ascending_from :
      (rs : List (ℕ × ℕ)) (s : Stamper) (w : t.World)
      → Window s w
      → i.issued (run t rs s w).service < two64
      → Ascending s.next_seq (run t rs s w).stamps
  unfolding run
  run-Ascending_from [] s w v bound = tt
  run-Ascending_from ((fetched, now) ∷ rs) s w v bound =
      let c = next t s fetched now w in
      let a : Advances s c =
        next-Advances s fetched now w v (omega (arith, run-grows rs c.stamper c.service)) in
      stamp_above s.next_seq c.stamp c.stamper.next_seq _ a.above a.kept
        (run-Ascending_from rs c.stamper c.service a.window bound)

  -- However the calls and the clock readings fall, and whichever of the remote calls fail, a
  -- stamper made by `NewStamper` gives strictly increasing sequence numbers, so it gives none
  -- twice, as long as the time-service keeps its contract and its numbers stay below 2^64.
  pub run-Ascending :
      (batch_size : ℕ) (rs : List (ℕ × ℕ)) (w : t.World)
      → i.issued (run t rs (new_stamper batch_size) w).service < two64
      → Ascending 0 (run t rs (new_stamper batch_size) w).stamps
  unfolding new_stamper
  run-Ascending batch_size rs w bound =
      run-Ascending_from rs (new_stamper batch_size) w
        (record { ordered = omega arith; covered = omega arith }) bound
