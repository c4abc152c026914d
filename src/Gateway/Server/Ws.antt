-- ===== src/Gateway/Server/Ws.antt =====
-- apps/fairness-gateway/transport/ws.go: one connection carries many orders, one per text frame.
-- The loop ends when a read fails, which is where the list of frames ends.
use iron_book.Common.{
  ℕ, String, ◌≡◌, ◌<◌, refl, sym, subst, ap₂, some, List, [], ◌∷◌, map, All, ◌==◌, if◌then◌else◌,
}
use iron_book.Common.Result.{Result, ok, err}
use iron_book.Gateway.TimeService.{TimeService, Issues}
use iron_book.Gateway.Proto.{Reply}
use iron_book.Gateway.Stamper.{Stamper, new_stamper, next}
use iron_book.Common.Int.{two64}
use iron_book.Gateway.Server.Session.{Rising, sink_seqs, serve-Rising}
use iron_book.Gateway.Fork.{Intakes}
use iron_book.Gateway.Server.{
  Server, RestOrder, RestReply, Timing, Request, Response, Body, Handled, replied, failed, answered,
  respond, fan_out, handle, decoded, handle_order, serve, text, json,
}

pub data Frame (B : Type 0) : Type 0 where
  message_text : B → Timing → Frame B
  message_binary : Frame B

-- The frames that are written back.
pub data WsReply : Type 0 where
  bad_json : WsReply
  error : String → WsReply
  reply : RestReply → WsReply

ws_reply : Handled → WsReply
ws_reply (replied r) = reply r
ws_reply (failed status e) = error e

-- A REST answer as a frame: the texts of the 400 answers are replaced by one fixed text.
abbrev pub frame_of : Response → WsReply
frame_of r = body_frame r.status r.body
  where
    body_frame : ℕ → Body → WsReply
    body_frame status (json rep) = reply rep
    body_frame status (text e) = if status == 400 then bad_json else error e

module _ (sha256 : List ℕ → List ℕ) (secret : List ℕ) (t : TimeService) (f : Intakes) where
  -- `unmarshal` is `json.Unmarshal` of a frame.
  module _ {B : Type 0} (unmarshal : B → Result RestOrder) where
    -- One text frame, from its decoded body on.
    ws_order :
        Result RestOrder → Timing → Server sha256 secret t f → WsReply × Server sha256 secret t f
    unfolding ws_reply
    ws_order (err e) timing s = (bad_json, s)
    ws_order (ok ro) timing s =
        let (h, s') = handle sha256 secret t f ro timing s in (ws_reply h, s')

    unfoldable pub ws_handler :
        List (Frame B) → Server sha256 secret t f → List WsReply × Server sha256 secret t f
    unfolding ws_order
    ws_handler [] s = ([], s)
    ws_handler (message_binary ∷ frames) s = ws_handler frames s
    ws_handler (message_text body timing ∷ frames) s =
        let (r, s') = ws_order (unmarshal body) timing s in
        let (rs, s'') = ws_handler frames s' in (r ∷ rs, s'')

    -- The same orders as POST requests.
    abbrev pub posts : List (Frame B) → List (Request B)
    posts [] = []
    posts (message_binary ∷ frames) = posts frames
    posts (message_text body timing ∷ frames) =
        record { method = "POST"; body = body; timing = timing } ∷ posts frames

    answered_same : (x : Result Reply) → ws_reply (answered x) ≡ frame_of (respond (answered x))
    unfolding ws_reply answered
    answered_same (ok r) = refl
    answered_same (err e) = refl

    fan_out_same :
        (ro : RestOrder) (timing : Timing) (s : Server sha256 secret t f) (x : Result (ℕ × ℕ))
        (stamper : Stamper) (time : t.World)
        → let out = fan_out sha256 secret t f ro timing s x stamper time in
          ws_reply out.0 ≡ frame_of (respond out.0)
    unfolding fan_out ws_reply
    fan_out_same ro timing s (err e) stamper time = refl
    fan_out_same ro timing s (ok st) stamper time = answered_same _

    step_same :
        (x : Result RestOrder) (timing : Timing) (s : Server sha256 secret t f)
        → let (response, s') = decoded sha256 secret t f x timing s in
          (ws_order x timing s).0 ≡ frame_of response × ((ws_order x timing s).1 ≡ s')
    unfolding ws_order decoded handle
    step_same (err e) timing s = (refl, refl)
    step_same (ok ro) timing s =
        let c = next t s.stamper timing.fetched timing.now s.time in
        (fan_out_same ro timing s c.stamp c.stamper c.service, refl)

    -- A frame that `decode`, the decoder of request bodies, reads as `json.Unmarshal` does. The two
    -- differ on texts with something after the first JSON value.
    abbrev pub Agrees : (B → Result RestOrder) → Frame B → Type 0
    Agrees decode message_binary = Unit
    Agrees decode (message_text body timing) = unmarshal body ≡ decode body

    -- A connection gives each order the answer that it would have got as a POST request, in the
    -- order of the frames, and leaves the gateway in the same state; other frames do nothing. This
    -- is for frames whose text both decoders read alike.
    pub ws_handler-serve :
        (decode : B → Result RestOrder) (frames : List (Frame B)) (s : Server sha256 secret t f)
        → All (Agrees decode) frames
        → let (responses, s') = serve sha256 secret t f decode (posts frames) s in
          ((ws_handler frames s).0 ≡ map frame_of responses) × ((ws_handler frames s).1 ≡ s')
    unfolding ws_handler serve handle_order
    ws_handler-serve decode [] s h = (refl, refl)
    ws_handler-serve decode (message_binary ∷ frames) s h = ws_handler-serve decode frames s h.1
    ws_handler-serve decode (message_text body timing ∷ frames) s h =
        let (answer, same) = step_same (decode body) timing s in
        let (answers, same') =
          ws_handler-serve decode frames (decoded sha256 secret t f (decode body) timing s).1 h.1 in
        rw (h.0, same) (ap₂ ◌∷◌ answer answers, same')

    unmarshal-Agrees : (frames : List (Frame B)) → All (Agrees unmarshal) frames
    unmarshal-Agrees [] = tt
    unmarshal-Agrees (message_binary ∷ frames) = (tt, unmarshal-Agrees frames)
    unmarshal-Agrees (message_text body timing ∷ frames) = (refl, unmarshal-Agrees frames)

    -- A gateway that starts with a new stamper and an empty sink, and serves one connection and
    -- nothing else meanwhile, logs orders whose platform sequence numbers increase strictly,
    -- whatever the frames, the interleavings of the calls to the services, the failures and the
    -- readings of the clock. This holds while the time-service keeps its contract and its numbers
    -- stay below 2^64.
    pub ws_handler-Rising :
        (i : Issues t) (batch_size : ℕ) (frames : List (Frame B)) (time : t.World)
        (intakes : f.World)
        → let s : Server sha256 secret t f = record {
          stamper = new_stamper batch_size;
          sink = some [];
          time = time;
          intakes = intakes;
        } in
          let out = (ws_handler frames s).1 in
          i.issued out.time < two64 → Rising 0 (sink_seqs out.sink) out.stamper.next_seq
    ws_handler-Rising i batch_size frames time intakes =
        let s : Server sha256 secret t f = record {
          stamper = new_stamper batch_size;
          sink = some [];
          time = time;
          intakes = intakes;
        } in
        subst
          (λ (u : Server sha256 secret t f).
            i.issued u.time < two64 → Rising 0 (sink_seqs u.sink) u.stamper.next_seq)
          (sym (ws_handler-serve unmarshal frames s (unmarshal-Agrees frames)).1)
          (serve-Rising sha256 secret t f i unmarshal batch_size (posts frames) time intakes)
