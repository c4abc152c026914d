-- ===== src/Operator/Phases.antt =====
-- The phases of a benchmark run, as `Reconcile` of
-- apps/benchmark-operator/internal/controller/benchmarkrun_controller.go tells them apart.
use iron_book.Common.{String, str_eq, if◌then◌else◌}

-- The cases of the `switch` over `br.Status.Phase`.
pub data Phase : Type 0 where
  unset pending allocating priming running draining terminal unknown : Phase

abbrev pub phase_of : String → Phase
phase_of s =
    if str_eq s ""
    then unset
    else if str_eq s "PENDING"
    then pending
    else if str_eq s "ALLOCATING"
    then allocating
    else if str_eq s "PRIMING"
    then priming
    else if str_eq s "RUNNING"
    then running
    else if str_eq s "DRAINING"
    then draining
    else if str_eq s "COMPLETE"
    then terminal
    else if str_eq s "ABORTED"
    then terminal
    else if str_eq s "INVALID"
    then terminal
    else if str_eq s "INSUFFICIENT_CAPACITY"
    then terminal
    else if str_eq s "GATEWAY_REJECT"
    then terminal
    else unknown
