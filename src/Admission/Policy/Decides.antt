-- ===== src/Admission/Policy/Decides.antt =====
-- `Validate` of apps/admission-webhook/policy/policy.go against the list of requirements.
use iron_book.Common.{
  String, ◌≡◌, ◌≢◌, ◌↔◌, ◌⊎◌, inl, inr, refl, if◌then◌else◌, Bool, true, false, Bool-cases, List,
  [], ◌∷◌, Option, none, some, str_eq, eq_iff,
}
use iron_book.Common.Text.{ne_of_str_eq}
use iron_book.Kube.{label, Pod, Container}
use iron_book.Admission.Policy.{
  Decision, reject, verdict, validate, enforce, is_test_pod, is_gvisor, is_empty,
}
use iron_book.Admission.Policy.Compliance.{
  IsCompliant, check_containers_sound, check_containers_complete, check_volumes_sound,
  check_volumes_complete, orelse-none, not-eq-false, not_and, or-not_and, is_gvisor-eq,
  runs_non_root-eq,
}

goes_on :
    (b : Bool) (reason : String) (rest : Decision)
    → (if b then reject reason else rest).allowed ≡ true
    → (b ≡ false) × (rest.allowed ≡ true)
goes_on true reason rest h = cc
goes_on false reason rest h = (refl, h)

verdict-allowed : (o : Option String) → (verdict o).allowed ≡ true → o ≡ none
verdict-allowed none h = refl
verdict-allowed (some reason) h = cc

is_empty-ne : (cs : List Container) → is_empty cs ≡ false → cs ≢ []
is_empty-ne [] h = cc
is_empty-ne (c ∷ cs) h = λ e. cc

ne-is_empty : (cs : List Container) → cs ≢ [] → is_empty cs ≡ false
ne-is_empty [] h = absurd (h refl)
ne-is_empty (c ∷ cs) h = refl

map_left {ℓ κ μ} : {A : Type ℓ} {B : Type κ} {C : Type μ} → (B → C) → A ⊎ B → A ⊎ C
map_left f (inl a) = inl a
map_left f (inr b) = inr (f b)

enforce_sound : (pod : Pod) → (enforce (is_test_pod pod) pod).allowed ≡ true → IsCompliant pod
unfolding enforce
enforce_sound pod h =
    let test = is_test_pod pod in
    let (namespace, h₁) = goes_on _ _ _ h in
    let (network, h₂) = goes_on _ _ _ h₁ in
    let (pid, h₃) = goes_on _ _ _ h₂ in
    let (ipc, h₄) = goes_on _ _ _ h₃ in
    let (runtime, h₅) = goes_on _ _ _ h₄ in
    let (root, h₆) = goes_on _ _ _ h₅ in
    let (empty, h₇) = goes_on _ _ _ h₆ in
    let (containers, volumes) = orelse-none _ _ (verdict-allowed _ h₇) in
    let (sc, has, non_root) = runs_non_root-eq pod.spec.security_context (not-eq-false _ root) in
    record {
      in_namespace = (eq_iff pod.meta.namespace "submissions").0 (not-eq-false _ namespace);
      no_host_network = network;
      no_host_pid = pid;
      no_host_ipc = ipc;
      sandboxed = map_left (is_gvisor-eq pod.spec.runtime_class_name) (not_and test _ runtime);
      pod_security = sc;
      has_pod_security = has;
      non_root = non_root;
      some_container = is_empty-ne pod.spec.containers empty;
      containers = check_containers_sound test pod.spec.containers containers;
      volumes = check_volumes_sound pod.spec.volumes volumes;
    }

enforce_complete : (pod : Pod) → IsCompliant pod → (enforce (is_test_pod pod) pod).allowed ≡ true
unfolding enforce
enforce_complete pod c =
    let gvisor : (is_test_pod pod ≡ true) ⊎ (is_gvisor pod.spec.runtime_class_name ≡ true) =
      map_left (λ e. rw e) c.sandboxed in
    rw (
      (eq_iff pod.meta.namespace "submissions").1 c.in_namespace,
      c.no_host_network,
      c.no_host_pid,
      c.no_host_ipc,
      or-not_and (is_test_pod pod) _ gvisor,
      c.has_pod_security,
      c.non_root,
      ne-is_empty pod.spec.containers c.some_container,
      check_containers_complete (is_test_pod pod) pod.spec.containers c.containers,
      check_volumes_complete pod.spec.volumes c.volumes,
    )

from_either :
    (pod : Pod)
    → label pod.meta.labels "app" ≡ "submission"
    → (label pod.meta.labels "app" ≢ "submission") ⊎ IsCompliant pod
    → (enforce (is_test_pod pod) pod).allowed ≡ true
from_either pod e (inl ne) = absurd (ne e)
from_either pod e (inr c) = enforce_complete pod c

-- `Validate` allows a pod exactly if it does not carry the label `app=submission` or meets every
-- requirement of the policy: namespace, host namespaces, sandbox runtime, user, containers pinned
-- by digest and hardened, no host path.
pub validate-allowed :
    (pod : Pod)
    → ((validate pod).allowed ≡ true)
      ↔ ((label pod.meta.labels "app" ≢ "submission") ⊎ IsCompliant pod)
unfolding validate
validate-allowed pod = elim (Bool-cases (str_eq (label pod.meta.labels "app") "submission")) [
  | inl e ↦ (
    λ h. inr (enforce_sound pod (rw e at h)),
    λ h. rw e (from_either pod ((eq_iff _ "submission").0 e) h),
  )
  | inr e ↦ (λ h. inl (ne_of_str_eq _ "submission" e), λ h. rw e)
]
