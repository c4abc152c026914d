-- ===== src/Admission/Examples.antt =====
-- The webhook at concrete inputs.
use iron_book.Common.{
  ℕ, ◌≡◌, ◌≢◌, ◌↔◌, ◌⊎◌, refl, String, Bool, true, false, List, [], ◌∷◌, Option, none, some,
}
use iron_book.Common.Result.{Result, ok}
use iron_book.Kube.{label, Pod, pod_pending}
use iron_book.Admission.Policy.{validate}
use iron_book.Admission.Policy.Compliance.{IsCompliant}
use iron_book.Admission.Policy.Decides.{validate-allowed}
use iron_book.Admission.Webhook.{
  AdmissionRequest, AdmissionResponse, review, Decides, handle, handle-Decides,
}

-- A submission pod that meets the policy.
abbrev hardened_pod : Pod
hardened_pod = record {
  meta = record {
    name = "p";
    namespace = "submissions";
    labels = ("app", "submission") ∷ [];
    finalizers = [];
    deleting = false;
    owner = none;
  };
  spec = record {
    host_network = false;
    host_pid = false;
    host_ipc = false;
    runtime_class_name = some "gvisor";
    restart_policy = "Never";
    security_context = some (record {
      run_as_non_root = some true;
      run_as_user = none;
      run_as_group = none;
      seccomp_profile = none;
    });
    init_containers = [];
    containers =
        record {
          name = "engine";
          image = "img@sha256:00";
          image_pull_policy = "";
          ports = [];
          security_context = some (record {
            allow_privilege_escalation = some false;
            read_only_root_filesystem = some true;
            capabilities_drop = some ("ALL" ∷ []);
          });
          volume_mounts = [];
          env = [];
          resources = none;
        }
        ∷ [];
    volumes = [];
  };
  status = record { phase = pod_pending; conditions = [] };
}

validate-allowed_example :
    ((validate hardened_pod).allowed ≡ true)
    ↔ ((label hardened_pod.meta.labels "app" ≢ "submission") ⊎ IsCompliant hardened_pod)
validate-allowed_example = validate-allowed hardened_pod

hardened_pod-allowed : (validate hardened_pod).allowed ≡ true
unfolding validate label iron_book.Admission.Policy.contains_cap iron_book.Common.Text.contains
hardened_pod-allowed = refl

abbrev decode_review : ℕ → Result (Option (AdmissionRequest Pod))
decode_review n = ok (some (record { uid = "u"; object_raw = hardened_pod }))

abbrev decode_pod : Pod → Result Pod
decode_pod pod = ok pod

handle-Decides_example :
    ((r : AdmissionRequest Pod)
      → Path String "POST" "POST"
      → decode_review 0 ≡ ok (some r)
      → (a : AdmissionResponse) × (handle decode_review decode_pod "POST" 0 ≡ review a)
        × Decides r.uid (decode_pod r.object_raw) a)
    × ((a : AdmissionResponse)
        → handle decode_review decode_pod "POST" 0 ≡ review a
        → (Path String "POST" "POST")
          × (r : AdmissionRequest Pod) × (decode_review 0 ≡ ok (some r)))
handle-Decides_example = handle-Decides decode_review decode_pod "POST" 0
