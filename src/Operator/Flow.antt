-- ===== src/Operator/Flow.antt =====
-- The bodies of the reconcilers: steps over the state of the API server that may return early
-- with `(ctrl.Result, error)`.
pub mod Passing
use iron_book.Common.{ℕ, Bool, Option, none, some, if◌then◌else◌}
use iron_book.Operator.Client.{ApiError, Got, found, failed}

-- `ctrl.Result`: nothing, `Requeue: true`, or `RequeueAfter` in seconds.
pub data Requeue : Type 0 where
  no_requeue requeue : Requeue
  requeue_after : ℕ → Requeue

pub record Returned : Type 0 where
  pub result : Requeue
  pub error : Option ApiError

pub data Flow (A : Type 0) : Type 0 where
  go_on : A → Flow A
  return : Returned → Flow A

abbrev pub M : Type 0 → Type 0 → Type 0
M W A = W → Flow A × W

module _ {W : Type 0} where
  infixl 5 ◌>>=◌ ◌>>◌
  unfoldable pub ◌>>=◌ : {A B : Type 0} → M W A → (A → M W B) → M W B
  ◌>>=◌ m f w = let (a, w') = m w in elim a [ go_on x ↦ f x w' | return r ↦ (return r, w') ]

  abbrev pub ◌>>◌ : {B : Type 0} → M W (Unit {0}) → M W B → M W B
  m >> k = m >>= λ _. k

  unfoldable pub finish : {A : Type 0} → Requeue → Option ApiError → M W A
  finish r e w = (return (record { result = r; error = e }), w)

  -- `return r, write(...)`: the last call of a handler.
  unfoldable pub finish_with : {A : Type 0} → Requeue → (W → Option ApiError × W) → M W A
  finish_with r write w = let (e, w') = write w in (return (record { result = r; error = e }), w')

  -- `if stop { return r, nil }`.
  unfoldable pub return_if : Bool → Requeue → M W (Unit {0})
  return_if b r w = if b then (return (record { result = r; error = none }), w) else (go_on tt, w)

  -- `if err != nil { return ctrl.Result{}, err }`.
  unfoldable pub check : Option ApiError → M W (Unit {0})
  check none w = (go_on tt, w)
  check (some e) w = (return (record { result = no_requeue; error = some e }), w)

  -- `r.Get` or `r.List`, with what to do where it fails.
  unfoldable pub fetch : {A : Type 0} → (W → Got A) → (ApiError → M W A) → M W A
  fetch get or_else w = elim (get w) [ found a ↦ (go_on a, w) | failed e ↦ or_else e w ]

  -- `return ctrl.Result{}, err`.
  abbrev pub return_error : {A : Type 0} → ApiError → M W A
  return_error e = finish no_requeue (some e)

  -- A write of which only the error matters to what follows.
  unfoldable pub and_check :
      (W → Option ApiError × W) → (Option ApiError → Option ApiError) → M W (Unit {0})
  and_check write ignore w = let (e, w') = write w in check (ignore e) w'

  -- `if err := f(); err != nil { return ctrl.Result{}, err }`, for a call that writes nothing.
  unfoldable pub try : {A : Type 0} → Got A → M W A
  try (found a) w = (go_on a, w)
  try (failed e) w = return_error e w

  -- Nothing more to do.
  unfoldable pub pass : M W (Unit {0})
  pass w = (go_on tt, w)
