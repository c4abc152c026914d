-- ===== src/Operator/Gate.antt =====
-- What `allOwnedPodsReady`, `podReady` and `observeRunning` of
-- apps/benchmark-operator/internal/controller/benchmarkrun_controller.go look for in the pods of a
-- run.
use iron_book.Common.{
  String, Bool, true, false, not, ◌&&◌, List, [], ◌∷◌, ltb, length, str_eq, if◌then◌else◌,
}
use iron_book.Kube.{label, Pod, PodPhase, pod_pending, pod_succeeded}
use iron_book.Operator.Pods.{role_coordinator, role_name, label_role}

unfoldable pub pod_ready : List (String × Bool) → Bool
pod_ready [] = false
pod_ready ((type, status) ∷ conditions) =
    if str_eq type "Ready" && status then true else pod_ready conditions

abbrev pub is_pending : PodPhase → Bool
is_pending pod_pending = true
is_pending _ = false

abbrev pub is_succeeded : PodPhase → Bool
is_succeeded pod_succeeded = true
is_succeeded _ = false

abbrev pub is_coordinator : Pod → Bool
is_coordinator p = str_eq (label p.meta.labels label_role) (role_name role_coordinator)

-- One pod of the gate: the coordinator counts unless it is pending.
unfoldable pub pod_counts : Pod → Bool
unfolding pod_ready
pod_counts p =
    if is_coordinator p then not (is_pending p.status.phase) else pod_ready p.status.conditions

unfoldable pub pods_count : List Pod → Bool
unfolding pod_counts
pods_count [] = true
pods_count (p ∷ pods) = if pod_counts p then pods_count pods else false

-- `allOwnedPodsReady`, over the pods that were listed.
unfoldable pub all_ready : List Pod → Bool
unfolding pods_count
all_ready pods = if ltb (length pods) 4 then false else pods_count pods

unfoldable pub coordinator_done : List Pod → Bool
coordinator_done [] = false
coordinator_done (p ∷ pods) =
    if is_coordinator p && is_succeeded p.status.phase then true else coordinator_done pods
