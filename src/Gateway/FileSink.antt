-- ===== src/Gateway/FileSink.antt =====
-- apps/fairness-gateway/gateway/sink_file.go: one line of JSON for each event, behind what the file
-- holds. The encoder of encoding/json and the file are parameters.
pub mod Lines
use iron_book.Common.{ℕ, String, List, [], ◌∷◌, ◌++◌, Option, none, some}
use iron_book.Common.Result.{Result, ok, err}
use iron_book.Gateway.Proto.{NormalizedOrder, Reply}
use iron_book.Gateway.Fork.{Source, submission, oracle, Event, on_in, on_reply}

pub record EventRow : Type 0 where
  pub kind : String
  pub source : String
  pub order : Option NormalizedOrder
  pub reply : Option Reply

-- `filepath.Dir` with `os.MkdirAll`, `os.OpenFile` for appending, `Write` and `Close`.
pub record Disk : Type 1 where
  pub World : Type 0
  pub File : Type 0
  pub make_parent : String → World → Option String × World
  pub open_append : String → World → Result File × World
  pub write_bytes : File → List ℕ → World → Option String × World
  pub close : File → World → Option String × World

-- The source that `Process` names.
abbrev pub source_name : Source → String
source_name submission = "submission"
source_name oracle = "oracle"

unfoldable pub row_of : Event → EventRow
row_of (on_in o) = record { kind = "in"; source = ""; order = some o; reply = none }
row_of (on_reply o source r) = record {
  kind = "reply";
  source = source_name source;
  order = some o;
  reply = some r;
}

module _ (d : Disk) where
  -- An error of `MkdirAll` is ignored: opening the file tells.
  unfoldable pub new_file_sink : String → d.World → Result d.File × d.World
  new_file_sink path w = d.open_append path (d.make_parent path w).1

  -- `Close`, under the mutex.
  unfoldable pub close : d.File → d.World → Option String × d.World
  close f w = d.close f w

module _ (d : Disk) (encode : EventRow → Option (List ℕ)) where
  -- `Encode` writes the row and a newline by one call; its errors are ignored.
  unfoldable pub write_line : d.File → Option (List ℕ) → d.World → d.World
  write_line f none w = w
  write_line f (some line) w = (d.write_bytes f (line ++ 10 ∷ []) w).1

  -- `write`, which the mutex makes one step.
  unfoldable pub write : d.File → EventRow → d.World → d.World
  unfolding write_line
  write f row w = write_line f (encode row) w

  -- `OnIn` and `OnReply`.
  unfoldable pub on_event : d.File → Event → d.World → d.World
  unfolding write row_of
  on_event f e w = write f (row_of e) w

  -- The events of a run, in their order.
  unfoldable pub on_events : d.File → List Event → d.World → d.World
  unfolding on_event
  on_events f [] w = w
  on_events f (e ∷ log) w = on_events f log (on_event f e w)
