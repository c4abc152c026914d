-- ===== src/Admission/Policy.antt =====
-- apps/admission-webhook/policy/policy.go: the constraints on submission pods.
pub mod Compliance
pub mod Decides
use iron_book.Common.{
  ℕ, String, Bool, true, false, not, ◌&&◌, ◌||◌, List, [], ◌∷◌, Option, none, some, str_eq,
  if◌then◌else◌,
}
use iron_book.Common.Text.{contains}
use iron_book.Kube.{
  label, Pod, PodSecurityContext, Container, SecurityContext, Volume, VolumeSource, host_path,
}

pub record Decision : Type 0 where
  pub allowed : Bool
  pub reason : String

abbrev pub allow : Decision
allow = record { allowed = true; reason = "" }

abbrev pub reject : String → Decision
reject reason = record { allowed = false; reason = reason }

unfoldable pub contains_cap : List String → String → Bool
contains_cap [] want = false
contains_cap (c ∷ have) want = if str_eq c want then true else contains_cap have want

-- `p != nil && *p`.
abbrev pub is_true : Option Bool → Bool
is_true none = false
is_true (some b) = b

-- `p != nil && !*p`.
abbrev pub is_false : Option Bool → Bool
is_false none = false
is_false (some b) = not b

abbrev pub drops_all : Option (List String) → Bool
drops_all none = false
drops_all (some drop) = contains_cap drop "ALL"

abbrev pub is_gvisor : Option String → Bool
is_gvisor none = false
is_gvisor (some name) = str_eq name "gvisor"

abbrev pub runs_non_root : Option PodSecurityContext → Bool
runs_non_root none = false
runs_non_root (some sc) = is_true sc.run_as_non_root

-- The body of the loop over the containers: a reason to reject, or none.
check_security : Option SecurityContext → Option String
check_security none = some "container missing securityContext"
check_security (some sc) =
    if not (is_false sc.allow_privilege_escalation)
    then some "allowPrivilegeEscalation must be false"
    else if not (is_true sc.read_only_root_filesystem)
    then some "readOnlyRootFilesystem must be true"
    else if not (drops_all sc.capabilities_drop)
    then some "capabilities.drop must include ALL"
    else none

pub check_container : Bool → Container → Option String
unfolding check_security contains_cap
check_container is_test c =
    if not is_test && not (contains c.image "@sha256:")
    then some "container images must be pinned by digest (@sha256:...)"
    else check_security c.security_context

-- `orelse a b`: the loop goes on where `a` has no reason to reject.
abbrev orelse : Option String → Option String → Option String
orelse none b = b
orelse (some reason) b = some reason

pub check_containers : Bool → List Container → Option String
check_containers is_test [] = none
check_containers is_test (c ∷ cs) = orelse (check_container is_test c) (check_containers is_test cs)

abbrev check_volume : VolumeSource → Option String
check_volume (host_path path) = some "hostPath volumes are not allowed in submission pods"
check_volume _ = none

pub check_volumes : List Volume → Option String
check_volumes [] = none
check_volumes (v ∷ vs) = orelse (check_volume v.source) (check_volumes vs)

abbrev verdict : Option String → Decision
verdict none = allow
verdict (some reason) = reject reason

abbrev is_empty {ℓ} : {A : Type ℓ} → List A → Bool
is_empty [] = true
is_empty (x ∷ xs) = false

-- The checks on a pod that carries the label `app=submission`.
enforce : Bool → Pod → Decision
enforce is_test pod =
    if not (str_eq pod.meta.namespace "submissions")
    then reject "submission pods must live in the `submissions` namespace"
    else if pod.spec.host_network
    then reject "hostNetwork must be false"
    else if pod.spec.host_pid
    then reject "hostPID must be false"
    else if pod.spec.host_ipc
    then reject "hostIPC must be false"
    else if not is_test && not (is_gvisor pod.spec.runtime_class_name)
    then reject "submission pods must use runtimeClassName: gvisor"
    else if not (runs_non_root pod.spec.security_context)
    then reject "pod-level securityContext.runAsNonRoot must be true"
    else if is_empty pod.spec.containers
    then reject "submission pod must declare at least one container"
    else verdict
        (orelse (check_containers is_test pod.spec.containers) (check_volumes pod.spec.volumes))

abbrev pub is_test_pod : Pod → Bool
is_test_pod pod = str_eq (label pod.meta.labels "ironbook.io/test") "true"

unfoldable pub validate : Pod → Decision
unfolding enforce check_container check_containers check_volumes
validate pod =
    if not (str_eq (label pod.meta.labels "app") "submission")
    then allow
    else enforce (is_test_pod pod) pod
