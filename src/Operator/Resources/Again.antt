-- ===== src/Operator/Resources/Again.antt =====
-- The reconcilers of submissions and scenarios, run a second time (apps/benchmark-operator/internal/
-- controller/submission_controller.go, scenario_controller.go).
pub mod Examples
use iron_book.Common.{
  ℕ, String, ◌<◌, ◌≡◌, ◌≢◌, refl, sym, ap, ◌∙◌, subst, inl, inr, Bool-cases, true, false, not, List,
  [], All, Option, none, str_eq, eq_iff,
}
use iron_book.Common.Bytes.{hex, from_hex, from_hex-hex}
use iron_book.Operator.Types.{Submission, Scenario}
use iron_book.Operator.Client.{
  Client, ApiError, Got, found, failed, NamespacedName, ignore_not_found,
}
use iron_book.Operator.Flow.{
  M, Flow, go_on, return, Returned, no_requeue, ◌>>=◌, finish, fetch, return_if, finish_with,
}
use iron_book.Operator.Flow.Passing.{
  go_on->>=, fetch-found, return_if-false, return_if-true, return->>=, fetch-failed,
}
use iron_book.Operator.Resources.{
  hashed_text, submission_reconcile, scenario_reconcile, content_hash,
}

-- `return ctrl.Result{}, err`.
abbrev pub ends : Option ApiError → Flow Returned
ends e = return (record { result = no_requeue; error = e })

abbrev error_of : Flow Returned → Option ApiError
error_of (return r) = r.error
error_of (go_on r) = none

-- A handler that reads, returns where a text is not empty, and writes once.
module _ {W A V : Type 0} (get : W → Got A) (text : A → String)
    (write : V → W → Option ApiError × W) (value : A → V) where
  abbrev missing : ApiError → M W A
  missing e = finish no_requeue (ignore_not_found e)

  abbrev write_once : A → M W Returned
  write_once a = finish_with no_requeue (write (value a))

  abbrev when_empty : A → M W Returned
  when_empty a = return_if (not (str_eq (text a) "")) no_requeue >>= λ _. write_once a

  abbrev handler : M W Returned
  handler = fetch get missing >>= when_empty

  gone : (w : W) (e : ApiError) → get w ≡ failed e → handler w ≡ (ends (ignore_not_found e), w)
  unfolding finish
  gone w e h = return->>= _ when_empty w (fetch-failed get missing w h)

  stays :
      (w : W) (a : A) → get w ≡ found a → str_eq (text a) "" ≡ false → handler w ≡ (ends none, w)
  stays w a h full =
      go_on->>= _ when_empty w (fetch-found get missing w h)
      ∙ return->>= _ (λ _. write_once a) w (return_if-true _ _ w (ap not full))

  writes :
      (w : W) (a : A)
      → get w ≡ found a
      → str_eq (text a) "" ≡ true
      → let r = write (value a) w in handler w ≡ (ends r.0, r.1)
  unfolding finish_with
  writes w a h empty =
      go_on->>= _ when_empty w (fetch-found get missing w h)
      ∙ go_on->>= _ (λ _. write_once a) w (return_if-false _ _ w (ap not empty))

  -- After a write that succeeds, the text is there.
  module _
      (stored : (w : W) (a : A)
        → get w ≡ found a
        → (write (value a) w).0 ≡ none
        → (a' : A) × (get (write (value a) w).1 ≡ found a') × (str_eq (text a') "" ≡ false)) where
    again-got :
        (w : W) (x : Got A)
        → get w ≡ x
        → (handler w).0 ≡ ends none
        → handler (handler w).1 ≡ (ends none, (handler w).1)
    again-got w (failed e) h ended =
        subst (λ y. y.0 ≡ ends none → handler y.1 ≡ (ends none, y.1)) (sym (gone w e h))
          (λ same. gone w e h ∙ ap (λ s. (s, w)) same) ended
    again-got w (found a) h ended = elim (Bool-cases (str_eq (text a) "")) [
      | inl empty ↦
          subst (λ y. y.0 ≡ ends none → handler y.1 ≡ (ends none, y.1)) (sym (writes w a h empty))
            (λ same.
              let (a', reads, full) = stored w a h (ap error_of same) in stays _ a' reads full)
            ended
      | inr full ↦
          subst (λ y. handler y.1 ≡ (ends none, y.1)) (sym (stays w a h full)) (stays w a h full)
    ]

-- An API server that, where it accepts a status, gives it back with the object, and a SHA-256 whose
-- digests are bytes, at least one.
pub record IsFaithful (c : Client) (sha256 : List ℕ → List ℕ) (key : NamespacedName) : Type 0 where
  pub submission_stored :
      (w : c.World) (s s' : Submission)
      → c.get_submission key w ≡ found s
      → s'.meta ≡ s.meta
      → (c.update_submission_status s' w).0 ≡ none
      → c.get_submission key (c.update_submission_status s' w).1
        ≡ found (record s { status = s'.status })
  pub scenario_stored :
      (w : c.World) (s s' : Scenario)
      → c.get_scenario key w ≡ found s
      → s'.meta ≡ s.meta
      → (c.update_scenario_status s' w).0 ≡ none
      → c.get_scenario key (c.update_scenario_status s' w).1
        ≡ found (record s { status = s'.status })
  pub digest : (text : List ℕ) → All (λ b. b < 256) (sha256 text)
  pub some_digest : (text : List ℕ) → sha256 text ≢ []

module _ (c : Client) (sha256 : List ℕ → List ℕ) (key : NamespacedName)
    (faithful : IsFaithful c sha256 key) where
  content_hash-full : (s : Scenario) → str_eq (content_hash sha256 s.spec) "" ≡ false
  unfolding content_hash
  content_hash-full s = elim (Bool-cases (str_eq (content_hash sha256 s.spec) "")) [
    | inl e ↦ absurd (
        faithful.some_digest (hashed_text s.spec) (
          sym (from_hex-hex _ (faithful.digest _))
          ∙ ap from_hex ((eq_iff (content_hash sha256 s.spec) "").0 e)))
    | inr e ↦ e
  ]

  -- A reconciliation of a submission or of a scenario that returns no error settles it: a second
  -- one right after it returns no error either and leaves the API server as it is. That also holds
  -- where the object is not found. The API server gives an accepted status back with its object,
  -- and the digests of SHA-256 are bytes, at least one.
  pub reconcile-Again :
      (w v : c.World)
      → (submission_reconcile c key w).0 ≡ ends none
      → (scenario_reconcile c sha256 key v).0 ≡ ends none
      → let w' = (submission_reconcile c key w).1 in
        let v' = (scenario_reconcile c sha256 key v).1 in
        (submission_reconcile c key w' ≡ (ends none, w'))
        × (scenario_reconcile c sha256 key v' ≡ (ends none, v'))
  unfolding submission_reconcile scenario_reconcile
  reconcile-Again w v h k = (
    again-got (c.get_submission key) (λ s. s.status.phase) c.update_submission_status _
        (λ u s e accepted. (_, faithful.submission_stored u s _ e refl accepted, refl)) w _ refl h,
    again-got (c.get_scenario key) (λ s. s.status.content_hash) c.update_scenario_status _
        (λ u s e accepted. (_, faithful.scenario_stored u s _ e refl accepted, content_hash-full s))
        v _ refl k,
  )
