-- ===== src/Operator/Sandbox.antt =====
-- The operator's submission pod under the admission policy: `podMeta` and `submissionPod` of
-- apps/benchmark-operator/internal/controller/benchmarkrun_controller.go against `Validate` of
-- apps/admission-webhook/policy/policy.go.
use iron_book.Common.{◌≡◌, ◌⊎◌, inl, inr, refl, true, false, Option, none, some, String}
use iron_book.Kube.{label}
use iron_book.Operator.Types.{BenchmarkRun, Submission}
use iron_book.Operator.Pods.{submission_pod, pod_meta}
use iron_book.Admission.Policy.{validate}
use iron_book.Admission.Policy.Compliance.{IsCompliant}

unsandboxed : (false ≡ true) ⊎ (Path (Option String) none (some "gvisor")) → ⊥
unsandboxed (inl e) = cc
unsandboxed (inr e) = cc

-- The pod that the operator makes for a submission is let through by the policy although it does
-- not meet the requirements for submission pods: it carries no label `app`, so none is checked.
pub submission_pod-unchecked :
    (br : BenchmarkRun) (sub : Submission)
    → ((validate (submission_pod br sub)).allowed ≡ true) × ¬ IsCompliant (submission_pod br sub)
unfolding submission_pod pod_meta validate label
submission_pod-unchecked br sub = (refl, λ h. unsandboxed h.sandboxed)
