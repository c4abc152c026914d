-- ===== src/Operator/Resources.antt =====
-- The reconcilers of the other resources: apps/benchmark-operator/internal/controller/
-- submission_controller.go, scenario_controller.go and botswarm_controller.go. SHA-256 is a
-- parameter.
pub mod Again
pub mod Settled
use iron_book.Common.{
  ℕ, String, ◌≡◌, ◌≢◌, ◌⊎◌, inl, inr, refl, sym, ap, ◌∙◌, true, not, List, ◌++◌, none, All, str_eq,
  ◌<◌, length, arith, append_inj, length-append,
}
use iron_book.Common.Int.{IsInt64, to_uint64, to_uint64-lt, to_uint64-inj}
use iron_book.Common.Text.{bytes}
use iron_book.Common.Bytes.{put_uint64_le, put_uint64_le-inj, hex, from_hex, from_hex-hex}
use iron_book.Operator.Types.{ScenarioSpec}
use iron_book.Operator.Client.{Client, NamespacedName, ignore_not_found}
use iron_book.Operator.Flow.{
  M, Returned, no_requeue, ◌>>=◌, ◌>>◌, finish, fetch, return_if, finish_with,
}
use iron_book.Operator.Run.{condition}

-- What the content hash of a scenario is taken of.
abbrev pub hashed_text : ScenarioSpec → List ℕ
hashed_text s = bytes s.yaml_spec ++ put_uint64_le (to_uint64 s.seed)

unfoldable pub content_hash : (List ℕ → List ℕ) → ScenarioSpec → String
content_hash sha256 s = hex (sha256 (hashed_text s))

module _ (c : Client) where
  unfoldable pub submission_reconcile : NamespacedName → M c.World Returned
  submission_reconcile key = do
    sub ← fetch (c.get_submission key) λ e. finish no_requeue (ignore_not_found e)
    return_if (not (str_eq sub.status.phase "")) no_requeue
    finish_with no_requeue (
        c.update_submission_status (record sub {
          status = record (sub.status) {
            phase = "PENDING";
            conditions =
                c.set_status_condition
                  (condition "Initialized" true "Created" "Submission accepted; awaiting build")
                  sub.status.conditions;
          };
        }))

  unfoldable pub scenario_reconcile : (List ℕ → List ℕ) → NamespacedName → M c.World Returned
  unfolding content_hash
  scenario_reconcile sha256 key = do
    s ← fetch (c.get_scenario key) λ e. finish no_requeue (ignore_not_found e)
    return_if (not (str_eq s.status.content_hash "")) no_requeue
    finish_with no_requeue (
        c.update_scenario_status
          (record s { status = record (s.status) { content_hash = content_hash sha256 s.spec } }))

  unfoldable pub bot_swarm_reconcile : NamespacedName → M c.World Returned
  bot_swarm_reconcile key = finish no_requeue none

-- Texts that agree agree in their last parts, where these are equally long.
append_inj_right :
    (xs ys us vs : List ℕ) → length us ≡ length vs → xs ++ us ≡ ys ++ vs → (xs ≡ ys) × (us ≡ vs)
append_inj_right xs ys us vs h e =
    append_inj xs ys {us = us} {vs = vs}
      (omega (arith, length-append xs us, length-append ys vs, ap length e, h)) e

differing :
    (s t : ScenarioSpec)
    → IsInt64 s.seed
    → IsInt64 t.seed
    → (bytes s.yaml_spec ≢ bytes t.yaml_spec) ⊎ (s.seed ≢ t.seed)
    → hashed_text s ≢ hashed_text t
unfolding put_uint64_le
differing s t h k (inl ne) = λ e.
    ne
      (append_inj_right (bytes s.yaml_spec) (bytes t.yaml_spec) (put_uint64_le (to_uint64 s.seed))
        (put_uint64_le (to_uint64 t.seed)) refl e).0
differing s t h k (inr ne) = λ e.
    let seeds =
      (append_inj_right (bytes s.yaml_spec) (bytes t.yaml_spec) (put_uint64_le (to_uint64 s.seed))
        (put_uint64_le (to_uint64 t.seed)) refl e).1 in
    ne (
      to_uint64-inj s.seed t.seed h k
        (put_uint64_le-inj _ _ (to_uint64-lt s.seed) (to_uint64-lt t.seed) seeds))

-- Two scenarios that differ in the bytes of their specification or in their seed, an int64, have
-- the same content hash only where the texts that are hashed for them differ and have the same
-- digest, for a hash that answers with bytes.
content_hash-collision :
    (sha256 : List ℕ → List ℕ)
    → ((text : List ℕ) → All (λ b. b < 256) (sha256 text))
    → (s t : ScenarioSpec) → IsInt64 s.seed
    → IsInt64 t.seed
    → (bytes s.yaml_spec ≢ bytes t.yaml_spec) ⊎ (s.seed ≢ t.seed)
    → content_hash sha256 s ≡ content_hash sha256 t
    → (hashed_text s ≢ hashed_text t) × (sha256 (hashed_text s) ≡ sha256 (hashed_text t))
unfolding content_hash
content_hash-collision sha256 digest s t h k ne e = (
  differing s t h k ne,
  sym (from_hex-hex (sha256 (hashed_text s)) (digest _))
      ∙ ap from_hex e
      ∙ from_hex-hex (sha256 (hashed_text t)) (digest _),
)
