-- ===== src/Operator/Flow/Passing.antt =====
-- Steps of a handler that go on.
use iron_book.Common.{◌≡◌, refl, sym, subst, Bool, true, false, Option, none}
use iron_book.Operator.Client.{ApiError, Got, found, failed}
use iron_book.Operator.Flow.{
  Requeue, Returned, go_on, return, M, ◌>>=◌, return_if, check, fetch, and_check, try,
}

module _ {W : Type 0} where
  -- A step that goes on, and what follows it.
  pub go_on->>= :
      {A B : Type 0} (m : M W A) (f : A → M W B) (w : W) {a : A} {w' : W}
      → m w ≡ (go_on a, w')
      → (m >>= f) w ≡ f a w'
  unfolding ◌>>=◌
  go_on->>= m f w {a} {w'} h = subst (λ x. ((λ (_ : W). x) >>= f) w ≡ f a w') (sym h) refl

  pub fetch-found :
      {A : Type 0} (get : W → Got A) (or_else : ApiError → M W A) (w : W) {a : A}
      → get w ≡ found a
      → fetch get or_else w ≡ (go_on a, w)
  unfolding fetch
  fetch-found get or_else w h = rw (fetch, h) refl

  pub return_if-false :
      (b : Bool) (r : Requeue) (w : W) → b ≡ false → return_if b r w ≡ (go_on tt, w)
  unfolding return_if
  return_if-false b r w h = rw h refl

  pub try-found : {A : Type 0} (x : Got A) (w : W) {a : A} → x ≡ found a → try x w ≡ (go_on a, w)
  unfolding try
  try-found x w h = rw h refl

  pub and_check-none :
      (write : W → Option ApiError × W) (ignore : Option ApiError → Option ApiError) (w : W)
      → (write w).0 ≡ none
      → ignore none ≡ none
      → and_check write ignore w ≡ (go_on tt, (write w).1)
  unfolding and_check check
  and_check-none write ignore w h k = rw (h, k) refl

  -- A step that returns.
  pub return->>= :
      {A B : Type 0} (m : M W A) (f : A → M W B) (w : W) {r : Returned} {w' : W}
      → m w ≡ (return r, w')
      → (m >>= f) w ≡ (return r, w')
  unfolding ◌>>=◌
  return->>= m f w {r} {w'} h = subst (λ x. ((λ (_ : W). x) >>= f) w ≡ (return r, w')) (sym h) refl

  pub fetch-failed :
      {A : Type 0} (get : W → Got A) (or_else : ApiError → M W A) (w : W) {e : ApiError}
      → get w ≡ failed e
      → fetch get or_else w ≡ or_else e w
  unfolding fetch
  fetch-failed get or_else w h = rw (fetch, h) refl

  pub return_if-true :
      (b : Bool) (r : Requeue) (w : W)
      → b ≡ true
      → return_if b r w ≡ (return (record { result = r; error = none }), w)
  unfolding return_if
  return_if-true b r w h = rw h refl
