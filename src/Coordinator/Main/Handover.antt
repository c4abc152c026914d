-- ===== src/Coordinator/Main/Handover.antt =====
-- From the operator's pod template to the coordinator that runs in the pod
-- (apps/benchmark-operator/internal/controller/benchmarkrun_controller.go, apps/bot-coordinator/main.go).
use iron_book.Common.{String, ◌≡◌, List, All}
use iron_book.Kube.{EnvVar}

-- The process finds each variable of the template, with its value unchanged.
abbrev pub Gives : (String → String) → List EnvVar → Type 0
Gives getenv vars = All (λ (v : EnvVar). getenv v.name ≡ v.value) vars
