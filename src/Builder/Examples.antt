-- ===== src/Builder/Examples.antt =====
-- A build at a concrete input: every tool succeeds.
use iron_book.Common.{ℕ, true, none}
use iron_book.Common.Result.{ok}
use iron_book.Builder.Runner.{Tools, main}
use iron_book.Builder.Runner.Statuses.{Statuses, main-Statuses}

abbrev tools : Tools
tools = record {
  World = ℕ;
  Object = Unit {0};
  get_object = λ w. (ok tt, w);
  mkdir_src = λ w. (none, w);
  extract = λ object w. (none, w);
  compile_rust = λ w. (ok "/work/target/release/engine", w);
  compile_go = λ w. (ok "/work/engine", w);
  compile_cpp = λ w. (ok "/work/src/build/engine", w);
  build = λ path w. (ok "registry/sub/00@sha256:11", w);
  update = λ u w. (none, w);
  quote = λ s. s;
}

main-Statuses_example :
    Statuses tools true "go" 0 (main tools true "go" 0).succeeded (main tools true "go" 0).accepted
main-Statuses_example = main-Statuses tools true "go" 0
