-- ===== src/Gateway/Fork/Serial.antt =====
-- The interleavings of the two goroutines of `Process`, against serial executions of the calls
-- (apps/fairness-gateway/gateway/fork.go).
use iron_book.Common.{◌≡◌, refl, ap, ap₂, ◌∙◌, ◌⊎◌, inl, inr, List, [], ◌∷◌, Option, none, some}
use iron_book.Common.Result.{Result}
use iron_book.Gateway.Proto.{NormalizedOrder, Reply}
use iron_book.Gateway.Fork.{
  Intakes, Source, submission, oracle, Sink, record_in, on_in, tee, Thread, calling, called, done,
  outcome, ForkState, move, moves, fork, rest, process, answer, Processed,
}

module _ (f : Intakes) (o : NormalizedOrder) (sink : Sink) (w : f.World) where
  -- Both calls made one after the other, each exactly once: in this order, or the oracle's first.
  abbrev pub sub_first : Result Reply × Result Reply × f.World
  sub_first =
      let (sub_r, w₁) = f.submission o w in let (or_r, w₂) = f.oracle o w₁ in (sub_r, or_r, w₂)

  abbrev pub orc_first : Result Reply × Result Reply × f.World
  orc_first =
      let (or_r, w₁) = f.oracle o w in let (sub_r, w₂) = f.submission o w₁ in (sub_r, or_r, w₂)

  -- The sink records the order first, and then the replies of the calls that succeeded.
  abbrev pub sub_then_orc : Result Reply → Result Reply → Sink
  sub_then_orc sub_r or_r = tee o oracle or_r (tee o submission sub_r (record_in (on_in o) sink))

  abbrev pub orc_then_sub : Result Reply → Result Reply → Sink
  orc_then_sub sub_r or_r = tee o submission sub_r (tee o oracle or_r (record_in (on_in o) sink))

  -- A serial execution `e` of the calls explains what `Process` gave.
  pub record Explains (e : Result Reply × Result Reply × f.World) (p : Processed f) : Type 0 where
    pub replied : p.reply ≡ outcome e.0 e.1
    pub reached : p.world ≡ e.2
    pub recorded : (p.sink ≡ sub_then_orc e.0 e.1) ⊎ (p.sink ≡ orc_then_sub e.0 e.1)

  -- The answer of a goroutine that has made its call, and of one that has also used the sink.
  abbrev asked : Thread → Option (Result Reply)
  asked calling = none
  asked (called r) = some r
  asked (done r) = some r

  abbrev recorded_reply : Thread → Option (Result Reply)
  recorded_reply (done r) = some r
  recorded_reply _ = none

  abbrev Calls : Option (Result Reply) → Option (Result Reply) → f.World → Type 0
  Calls none none v = v ≡ w
  Calls (some r) none v = (r ≡ (f.submission o w).0) × (v ≡ (f.submission o w).1)
  Calls none (some q) v = (q ≡ (f.oracle o w).0) × (v ≡ (f.oracle o w).1)
  Calls (some r) (some q) v =
      ((r ≡ sub_first.0) × (q ≡ sub_first.1) × (v ≡ sub_first.2))
      ⊎ ((r ≡ orc_first.0) × (q ≡ orc_first.1) × (v ≡ orc_first.2))

  abbrev Writes : Option (Result Reply) → Option (Result Reply) → Sink → Type 0
  Writes none none k = k ≡ record_in (on_in o) sink
  Writes (some r) none k = k ≡ tee o submission r (record_in (on_in o) sink)
  Writes none (some q) k = k ≡ tee o oracle q (record_in (on_in o) sink)
  Writes (some r) (some q) k = (k ≡ sub_then_orc r q) ⊎ (k ≡ orc_then_sub r q)

  abbrev Inv : Thread → Thread → f.World → Sink → Type 0
  Inv a b v k = Calls (asked a) (asked b) v × Writes (recorded_reply a) (recorded_reply b) k

  ask_sub :
      (q : Option (Result Reply)) (v : f.World)
      → Calls none q v
      → Calls (some (f.submission o v).0) q (f.submission o v).1
  ask_sub none v h = (ap (λ u. (f.submission o u).0) h, ap (λ u. (f.submission o u).1) h)
  ask_sub (some q) v h =
      inr (ap (λ u. (f.submission o u).0) h.1, h.0, ap (λ u. (f.submission o u).1) h.1)

  ask_orc :
      (r : Option (Result Reply)) (v : f.World)
      → Calls r none v
      → Calls r (some (f.oracle o v).0) (f.oracle o v).1
  ask_orc none v h = (ap (λ u. (f.oracle o u).0) h, ap (λ u. (f.oracle o u).1) h)
  ask_orc (some r) v h = inl (h.0, ap (λ u. (f.oracle o u).0) h.1, ap (λ u. (f.oracle o u).1) h.1)

  write_sub :
      (r : Result Reply) (q : Option (Result Reply)) (k : Sink)
      → Writes none q k
      → Writes (some r) q (tee o submission r k)
  write_sub r none k h = ap (tee o submission r) h
  write_sub r (some q) k h = inr (ap (tee o submission r) h)

  write_orc :
      (q : Result Reply) (r : Option (Result Reply)) (k : Sink)
      → Writes r none k
      → Writes r (some q) (tee o oracle q k)
  write_orc q none k h = ap (tee o oracle q) h
  write_orc q (some r) k h = inl (ap (tee o oracle q) h)

  abbrev InvOf : ForkState f → Type 0
  InvOf s = Inv s.sub s.orc s.world s.sink

  move-Inv :
      (who : Source) (a b : Thread) (v : f.World) (k : Sink)
      → Inv a b v k
      → InvOf (move f o who (record { sub = a; orc = b; sink = k; world = v }))
  unfolding move
  move-Inv submission calling b v k h = (ask_sub (asked b) v h.0, h.1)
  move-Inv submission (called r) b v k h = (h.0, write_sub r (recorded_reply b) k h.1)
  move-Inv submission (done r) b v k h = h
  move-Inv oracle a calling v k h = (ask_orc (asked a) v h.0, h.1)
  move-Inv oracle a (called r) v k h = (h.0, write_orc r (recorded_reply a) k h.1)
  move-Inv oracle a (done r) v k h = h

  moves-Inv : (schedule : List Source) (s : ForkState f) → InvOf s → InvOf (moves f o schedule s)
  unfolding moves
  moves-Inv [] s h = h
  moves-Inv (who ∷ schedule) s h =
      moves-Inv schedule (move f o who s) (move-Inv who s.sub s.orc s.world s.sink h)

  -- After the remaining steps both goroutines are done.
  pub data Done : Thread → Type 0 where
    is_done : (r : Result Reply) → Done (done r)

  rest_finished :
      (a b : Thread) (v : f.World) (k : Sink)
      → let s = moves f o rest (record { sub = a; orc = b; sink = k; world = v }) in
        Done s.sub × Done s.orc
  unfolding moves move
  rest_finished calling calling v k = (is_done _, is_done _)
  rest_finished calling (called q) v k = (is_done _, is_done _)
  rest_finished calling (done q) v k = (is_done _, is_done _)
  rest_finished (called r) calling v k = (is_done _, is_done _)
  rest_finished (called r) (called q) v k = (is_done _, is_done _)
  rest_finished (called r) (done q) v k = (is_done _, is_done _)
  rest_finished (done r) calling v k = (is_done _, is_done _)
  rest_finished (done r) (called q) v k = (is_done _, is_done _)
  rest_finished (done r) (done q) v k = (is_done _, is_done _)

  explain :
      (a b : Thread) (v : f.World) (k : Sink)
      → Done a
      → Done b
      → Inv a b v k
      → let p : Processed f = record {
        reply = outcome (answer a) (answer b);
        sink = k;
        world = v;
      } in
        Explains sub_first p ⊎ Explains orc_first p
  explain a b v k (is_done r) (is_done q) (inl (x, y, z), h) =
      inl (record { replied = ap₂ outcome x y; reached = z; recorded = placed h })
    where
      placed :
          (k ≡ sub_then_orc r q) ⊎ (k ≡ orc_then_sub r q)
          → (k ≡ sub_then_orc sub_first.0 sub_first.1) ⊎ (k ≡ orc_then_sub sub_first.0 sub_first.1)
      placed (inl e) = inl (e ∙ ap₂ sub_then_orc x y)
      placed (inr e) = inr (e ∙ ap₂ orc_then_sub x y)
  explain a b v k (is_done r) (is_done q) (inr (x, y, z), h) =
      inr (record { replied = ap₂ outcome x y; reached = z; recorded = placed h })
    where
      placed :
          (k ≡ sub_then_orc r q) ⊎ (k ≡ orc_then_sub r q)
          → (k ≡ sub_then_orc orc_first.0 orc_first.1) ⊎ (k ≡ orc_then_sub orc_first.0 orc_first.1)
      placed (inl e) = inl (e ∙ ap₂ sub_then_orc x y)
      placed (inr e) = inr (e ∙ ap₂ orc_then_sub x y)

-- Whatever the interleaving of the two goroutines, `Process` is a serial execution: each service
-- is called exactly once, in one of the two orders; the sink records the order first and then the
-- replies of the calls that succeeded, in one of the two orders; the caller gets the submission's
-- reply if both calls succeeded, and the joined error otherwise.
pub process-serial :
    (f : Intakes) (o : NormalizedOrder) (schedule : List Source) (sink : Sink) (w : f.World)
    → Explains f o sink w (sub_first f o sink w) (process f o schedule sink w)
      ⊎ Explains f o sink w (orc_first f o sink w) (process f o schedule sink w)
unfolding process moves fork
process-serial f o schedule sink w =
    let s = moves f o schedule (fork f o sink w) in
    let e = moves f o rest s in
    let (sub_done, orc_done) = rest_finished f o sink w s.sub s.orc s.world s.sink in
    explain f o sink w e.sub e.orc e.world e.sink sub_done orc_done
      (moves-Inv f o sink w rest s (moves-Inv f o sink w schedule (fork f o sink w) (refl, refl)))
