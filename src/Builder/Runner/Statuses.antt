-- ===== src/Builder/Runner/Statuses.antt =====
-- The statuses that a build leaves.
use iron_book.Common.{
  String, ◌≡◌, ◌⊎◌, inl, inr, refl, ap, Bool, true, false, List, [], ◌∷◌, Option, none, some,
}
use iron_book.Common.Result.{Result, ok, err}
use iron_book.Builder.Runner.{
  Tools, Update, set_building, set_ready, set_rejected, counted, after_ready, run_build,
  after_build, after_building, main,
}

module _ (t : Tools) where
  -- What the database answers to an update: nothing, or an error.
  abbrev pub answer : Update → t.World → Option String
  answer u w = (t.update u w).0

  abbrev pub built : String → t.World → Result String × t.World
  built language start = run_build t language (t.update set_building start).1

  -- Why a build may end with the row at BUILDING: the database refuses the status that fits the
  -- result of the build.
  pub data Unsettled (language : String) (start : t.World) : Type 0 where
    unpublished :
        (reference e : String)
        → (built language start).0 ≡ ok reference
        → answer (set_ready reference) (built language start).1 ≡ some e
        → Unsettled language start
    unrejected :
        (reason e : String)
        → (built language start).0 ≡ err reason
        → answer (set_rejected reason) (built language start).1 ≡ some e
        → Unsettled language start

  -- Why a build may end before it is marked: its digest is not one, or the database refuses.
  abbrev pub Unmarked : Bool → t.World → Type 0
  Unmarked decoded start = (decoded ≡ false) ⊎ ((e : String) × (answer set_building start ≡ some e))

  -- How a build may end: whether with status 0, and with which updates, in their order.
  pub data Statuses (decoded : Bool) (language : String) (start : t.World)
      : Bool → List Update → Type 0 where
    untouched : Unmarked decoded start → Statuses decoded language start false []
    stuck : Unsettled language start → Statuses decoded language start false (set_building ∷ [])
    ready :
        (reference : String)
        → (built language start).0 ≡ ok reference
        → answer (set_ready reference) (built language start).1 ≡ none
        → Statuses decoded language start true (set_building ∷ set_ready reference ∷ [])
    rejected :
        (reason : String)
        → (built language start).0 ≡ err reason
        → answer (set_rejected reason) (built language start).1 ≡ none
        → Statuses decoded language start false (set_building ∷ set_rejected reason ∷ [])

  module _ (decoded : Bool) (language : String) (start : t.World) where
    abbrev Ends : Bool → List Update → Type 0
    Ends = Statuses decoded language start

    after_ready-Statuses :
        (reference : String) (x : Option String × t.World)
        → (built language start).0 ≡ ok reference
        → answer (set_ready reference) (built language start).1 ≡ x.0
        → let e = after_ready t (counted t (set_building ∷ []) (set_ready reference) x) in
          Ends e.succeeded e.accepted
    unfolding after_ready counted
    after_ready-Statuses reference (none, w) h k = ready reference h k
    after_ready-Statuses reference (some m, w) h k = stuck (unpublished reference m h k)

    after_reject-Statuses :
        (reason : String) (x : Option String × t.World)
        → (built language start).0 ≡ err reason
        → answer (set_rejected reason) (built language start).1 ≡ x.0
        → Ends false (counted t (set_building ∷ []) (set_rejected reason) x).1.0
    unfolding counted
    after_reject-Statuses reason (none, w) h k = rejected reason h k
    after_reject-Statuses reason (some m, w) h k = stuck (unrejected reason m h k)

    after_build-Statuses :
        (x : Result String × t.World)
        → built language start ≡ x
        → let e = after_build t (set_building ∷ []) x in Ends e.succeeded e.accepted
    unfolding after_build
    after_build-Statuses (ok reference, w) h =
        after_ready-Statuses reference _ (ap (λ x. x.0) h)
          (ap (λ x. answer (set_ready reference) x.1) h)
    after_build-Statuses (err reason, w) h =
        after_reject-Statuses reason _ (ap (λ x. x.0) h)
          (ap (λ x. answer (set_rejected reason) x.1) h)

    after_building-Statuses :
        (x : Option String)
        → answer set_building start ≡ x
        → let e =
            after_building t language
              (counted t [] set_building (x, (t.update set_building start).1)) in
          Ends e.succeeded e.accepted
    unfolding after_building counted
    after_building-Statuses none h = after_build-Statuses (built language start) refl
    after_building-Statuses (some m) h = untouched (inr (m, h))

  -- The updates that the database accepts in one build are, in their order: none, where the digest
  -- is not decoded or the database refuses BUILDING; BUILDING and READY with the reference that the
  -- build gave; BUILDING and REJECTED with the error of the build; or BUILDING alone, where the
  -- database refuses that READY or that REJECTED. The process ends with status 0 only where READY
  -- was accepted.
  pub main-Statuses :
      (decoded : Bool) (language : String) (start : t.World)
      → let e = main t decoded language start in
        Statuses decoded language start e.succeeded e.accepted
  unfolding main
  main-Statuses true language start =
      after_building-Statuses true language start (answer set_building start) refl
  main-Statuses false language start = untouched (inl refl)
