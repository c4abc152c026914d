-- ===== src/Gateway/Fork.antt =====
-- apps/fairness-gateway/gateway/fork.go: each order goes to the submission and to the oracle, by
-- two goroutines. A goroutine calls its service, and records a successful reply in the sink; a
-- schedule says which of the two moves next, and `wg.Wait()` lets both finish.
pub mod Serial
use iron_book.Common.{String, ◌≡◌, List, [], ◌∷◌, ◌++◌, Option, none, some}
use iron_book.Common.Text.{concat}
use iron_book.Common.Result.{Result, ok, err}
use iron_book.Gateway.Proto.{NormalizedOrder, Reply}

-- The two `pb.OrderIntakeClient`s. A call changes the state of the services.
pub record Intakes : Type 1 where
  pub World : Type 0
  pub submission : NormalizedOrder → World → Result Reply × World
  pub oracle : NormalizedOrder → World → Result Reply × World

pub data Source : Type 0 where
  submission oracle : Source

-- What the sink receives, oldest first: `OnIn` and `OnReply`.
pub data Event : Type 0 where
  on_in : NormalizedOrder → Event
  on_reply : NormalizedOrder → Source → Reply → Event

-- `f.Sink`, which may be nil.
abbrev pub Sink : Type 0
Sink = Option (List Event)

abbrev pub record_in : Event → Sink → Sink
record_in e none = none
record_in e (some log) = some (log ++ e ∷ [])

-- A goroutine: before its call, after the call and before the sink, and at `wg.Done()`.
pub data Thread : Type 0 where
  calling : Thread
  called : Result Reply → Thread
  done : Result Reply → Thread

-- `errors.Join(subE, orE)` for the errors of two results, not both nil.
abbrev pub join : Option String → Option String → String
join none none = ""
join (some e) none = e
join none (some e) = e
join (some e) (some e') = concat e (concat "\n" e')

-- What `Process` returns once both goroutines are done.
unfoldable pub outcome : Result Reply → Result Reply → Result Reply
outcome (ok sub_r) (ok or_r) = ok sub_r
outcome (ok sub_r) (err or_e) = err (join none (some or_e))
outcome (err sub_e) (ok or_r) = err (join (some sub_e) none)
outcome (err sub_e) (err or_e) = err (join (some sub_e) (some or_e))

-- The sink after a call that gave `r`.
abbrev pub tee : NormalizedOrder → Source → Result Reply → Sink → Sink
tee o source (ok r) sink = record_in (on_reply o source r) sink
tee o source (err e) sink = sink

-- `wg.Wait()`: whatever the schedule left undone is done, the submission's part first.
abbrev pub rest : List Source
rest = submission ∷ submission ∷ oracle ∷ oracle ∷ []

-- What a goroutine has in `subR, subE` or `orR, orE`; nothing is read before its call.
abbrev pub answer : Thread → Result Reply
answer calling = err ""
answer (called r) = r
answer (done r) = r

module _ (f : Intakes) where
  pub record ForkState : Type 0 where
    pub sub : Thread
    pub orc : Thread
    pub sink : Sink
    pub world : f.World

  unfoldable pub move_sub : NormalizedOrder → Thread → ForkState → ForkState
  move_sub o calling s =
      let (r, w) = f.submission o s.world in record s { sub = called r; world = w }
  move_sub o (called r) s = record s { sub = done r; sink = tee o submission r s.sink }
  move_sub o (done r) s = s

  unfoldable pub move_orc : NormalizedOrder → Thread → ForkState → ForkState
  move_orc o calling s = let (r, w) = f.oracle o s.world in record s { orc = called r; world = w }
  move_orc o (called r) s = record s { orc = done r; sink = tee o oracle r s.sink }
  move_orc o (done r) s = s

  -- One step of the goroutine that the schedule names.
  unfoldable pub move : NormalizedOrder → Source → ForkState → ForkState
  unfolding move_sub move_orc
  move o submission s = move_sub o s.sub s
  move o oracle s = move_orc o s.orc s

  pub moves : NormalizedOrder → List Source → ForkState → ForkState
  moves o [] s = s
  moves o (who ∷ schedule) s = moves o schedule (move o who s)

  -- `OnIn`, then the start of both goroutines.
  pub fork : NormalizedOrder → Sink → f.World → ForkState
  fork o sink w = record {
    sub = calling;
    orc = calling;
    sink = record_in (on_in o) sink;
    world = w;
  }

  pub record Processed : Type 0 where
    pub reply : Result Reply
    pub sink : Sink
    pub world : f.World

  unfoldable pub process : NormalizedOrder → List Source → Sink → f.World → Processed
  unfolding moves fork move
  process o schedule sink w =
      let s = moves o rest (moves o schedule (fork o sink w)) in
      record { reply = outcome (answer s.sub) (answer s.orc); sink = s.sink; world = s.world }
