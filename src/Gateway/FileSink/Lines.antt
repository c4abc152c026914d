-- ===== src/Gateway/FileSink/Lines.antt =====
-- The events of a sink's file can be read back.
use mathlib.Core.List.{append-nil, append_assoc}
use iron_book.Common.{
  ℕ, String, ◌≡◌, ◌≢◌, refl, ap, sym, subst, ◌∙◌, true, false, ◌==◌, List, [], ◌∷◌, ◌++◌, map, All,
  Option, none, some, ne→beq, str_eq, if◌then◌else◌,
}
use iron_book.Gateway.Proto.{NormalizedOrder, Reply}
use iron_book.Gateway.Fork.{submission, oracle, Event, on_in, on_reply}
use iron_book.Gateway.FileSink.{EventRow, Disk, row_of, write_line, write, on_event, on_events}

-- The lines of a file, each of which ends in a newline; `line` is what is read of the first.
abbrev pub lines : List ℕ → List ℕ → List (List ℕ)
lines line [] = []
lines line (b ∷ bytes) = elim (b == 10) [
  | true ↦ line ∷ lines [] bytes
  | false ↦ lines (line ++ b ∷ []) bytes
]

-- The event that a row stands for.
abbrev pub event_of_parts : String → String → Option NormalizedOrder → Option Reply → Option Event
event_of_parts kind source none reply = none
event_of_parts kind source (some o) none = if str_eq kind "in" then some (on_in o) else none
event_of_parts kind source (some o) (some r) =
    if str_eq source "submission"
    then some (on_reply o submission r)
    else if str_eq source "oracle"
    then some (on_reply o oracle r)
    else none

abbrev pub event_of : EventRow → Option Event
event_of row = event_of_parts row.kind row.source row.order row.reply

abbrev pub event_in : Option EventRow → Option Event
event_in none = none
event_in (some row) = event_of row

-- The rows of JSON are decoded and give their events.
abbrev pub read_events : (List ℕ → Option EventRow) → List ℕ → List (Option Event)
read_events decode bytes = map (λ line. event_in (decode line)) (lines [] bytes)

-- A disk that takes every write: the bytes stand behind what the file holds.
pub record IsReliable (d : Disk) (f : d.File) : Type 0 where
  pub contents : d.World → List ℕ
  pub appends :
      (bytes : List ℕ) (w : d.World) → contents (d.write_bytes f bytes w).1 ≡ contents w ++ bytes

-- Lines that end where the file ends: what comes next begins a line.
abbrev pub IsWhole : List ℕ → Type 0
IsWhole bytes = (rest : List ℕ) → lines [] (bytes ++ rest) ≡ lines [] bytes ++ lines [] rest

lines_line :
    (acc line rest : List ℕ)
    → All (λ b. b ≢ 10) line
    → lines acc (line ++ 10 ∷ rest) ≡ (acc ++ line) ∷ lines [] rest
lines_line acc [] rest h = ap (λ l. l ∷ lines [] rest) (sym (append-nil acc))
lines_line acc (b ∷ line) rest (other, h) =
    rw (lines, ne→beq b 10 other)
      (lines_line (acc ++ b ∷ []) line rest h
        ∙ ap (λ l. l ∷ lines [] rest) (append_assoc acc (b ∷ []) line))

-- A line behind whole lines.
add_line :
    (bytes line : List ℕ)
    → IsWhole bytes
    → All (λ b. b ≢ 10) line
    → IsWhole (bytes ++ (line ++ 10 ∷ []))
      × (lines [] (bytes ++ (line ++ 10 ∷ [])) ≡ lines [] bytes ++ line ∷ [])
add_line bytes line whole h =
    let text = line ++ 10 ∷ [] in
    let alone : lines [] (bytes ++ text) ≡ lines [] bytes ++ line ∷ [] =
      whole text ∙ ap (λ ls. lines [] bytes ++ ls) (lines_line [] line [] h) in
    (
      λ rest.
          ap (lines [])
            (append_assoc bytes text rest ∙ ap (λ t. bytes ++ t) (append_assoc line (10 ∷ []) rest))
          ∙ whole (line ++ 10 ∷ rest)
          ∙ ap (λ ls. lines [] bytes ++ ls) (lines_line [] line rest h)
          ∙ sym (append_assoc (lines [] bytes) (line ∷ []) (lines [] rest))
          ∙ ap (λ ls. ls ++ lines [] rest) (sym alone),
      alone,
    )

-- The row of the event is encoded on one line, and decoded from it.
pub record IsEncoded (encode : EventRow → Option (List ℕ)) (decode : List ℕ → Option EventRow)
    (e : Event) : Type 0 where
  pub line : List ℕ
  pub encodes : encode (row_of e) ≡ some line
  pub decodes : decode line ≡ some (row_of e)
  pub one_line : All (λ b. b ≢ 10) line

event_of-row_of : (e : Event) → event_of (row_of e) ≡ some e
unfolding row_of
event_of-row_of (on_in o) = refl
event_of-row_of (on_reply o submission r) = refl
event_of-row_of (on_reply o oracle r) = refl

module _ (d : Disk) (f : d.File) (disk : IsReliable d f) (encode : EventRow → Option (List ℕ))
    (decode : List ℕ → Option EventRow) where
  read_all : List (List ℕ) → List (Option Event)
  read_all ls = map (λ line. event_in (decode line)) ls

  contents-on_event :
      (e : Event) (c : IsEncoded encode decode e) (w : d.World)
      → disk.contents (on_event d encode f e w) ≡ disk.contents w ++ (c.line ++ 10 ∷ [])
  unfolding on_event write write_line
  contents-on_event e c w = rw c.encodes (disk.appends (c.line ++ 10 ∷ []) w)

  -- The last of some lines.
  read_last :
      (e : Event) (c : IsEncoded encode decode e) (ls : List (List ℕ))
      → read_all (ls ++ c.line ∷ []) ≡ read_all ls ++ some e ∷ []
  unfolding read_all
  read_last e c [] = rw c.decodes (ap (λ x. x ∷ []) (event_of-row_of e))
  read_last e c (l ∷ ls) = ap (λ events. event_in (decode l) ∷ events) (read_last e c ls)

  -- What the events of a run leave in the file: the events that could be read before, and then
  -- those of the run, in their order: for a file that held whole lines and takes every write, and
  -- events whose rows are encoded on one line and decoded from it.
  pub on_events-read_events :
      (log : List Event) (w : d.World)
      → IsWhole (disk.contents w)
      → All (IsEncoded encode decode) log
      → read_events decode (disk.contents (on_events d encode f log w))
        ≡ read_events decode (disk.contents w) ++ map some log
  unfolding on_events read_all
  on_events-read_events [] w whole h = sym (append-nil _)
  on_events-read_events (e ∷ log) w whole (c, h) =
      let (whole', lines') = add_line (disk.contents w) c.line whole c.one_line in
      let same = contents-on_event e c w in
      on_events-read_events log (on_event d encode f e w) (subst IsWhole (sym same) whole') h
      ∙ ap (λ bytes. read_events decode bytes ++ map some log) same
      ∙ ap (λ ls. read_all ls ++ map some log) lines'
      ∙ ap (λ events. events ++ map some log) (read_last e c (lines [] (disk.contents w)))
      ∙ append_assoc (read_events decode (disk.contents w)) (some e ∷ []) (map some log)
