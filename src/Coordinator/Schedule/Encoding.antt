-- ===== src/Coordinator/Schedule/Encoding.antt =====
-- The text that the hash of a schedule is taken of
-- (apps/bot-coordinator/coordinator/schedule.go).
use iron_book.Common.{
  ℕ, ◌+◌, ◌<◌, ◌≡◌, ◌≢◌, ◌⊎◌, inl, inr, refl, sym, ap, ap₂, subst, ◌∙◌, String, List, [], ◌∷◌, ◌++◌,
  All, length, arith, append_inj, length-append,
}
use iron_book.Common.Int.{ℤ, two64, IsInt64, to_uint64, to_uint64-lt, to_uint64-inj}
use iron_book.Common.Text.{bytes}
use iron_book.Common.Bytes.{put_uint64_le, put_uint64_le-inj, from_le, from_hex, from_hex-hex}
use iron_book.Coordinator.Schedule.{
  Event, Rand, IsBounded, compile, event_bytes, schedule_bytes, schedule_hash,
}
use iron_book.Coordinator.Schedule.Offsets.{IsOrdinary, compile-IsOrdinary}

Event-ext :
    (e f : Event)
    → e.offset_ns ≡ f.offset_ns
    → e.bot_id ≡ f.bot_id
    → e.order.side ≡ f.order.side
    → e.order.order_type ≡ f.order.order_type
    → e.order.tif ≡ f.order.tif
    → e.order.qty ≡ f.order.qty
    → e.order.price ≡ f.order.price
    → e ≡ f
Event-ext e f offset bot side type tif qty price = λ i. record {
  offset_ns = offset i;
  bot_id = bot i;
  order = record { side = side i; order_type = type i; tif = tif i; qty = qty i; price = price i };
}

-- The side of an ordinary event can be read off its bytes, which are three.
side-inj :
    (s t : String)
    → (s ≡ "bid") ⊎ (s ≡ "ask")
    → (t ≡ "bid") ⊎ (t ≡ "ask")
    → (length (bytes s) ≡ length (bytes t)) × (bytes s ≡ bytes t → s ≡ t)
unfolding bytes
side-inj s t (inl a) (inl b) = (rw (a, b) refl, λ h. a ∙ sym b)
side-inj s t (inl a) (inr b) =
    (rw (a, b) refl, λ h. absurd (omega (arith, ap from_le (rw (a, b) at h))))
side-inj s t (inr a) (inl b) =
    (rw (a, b) refl, λ h. absurd (omega (arith, ap from_le (rw (a, b) at h))))
side-inj s t (inr a) (inr b) = (rw (a, b) refl, λ h. a ∙ sym b)

-- A number of eight bytes in front can be split off.
number_first :
    (a b : ℕ) (us vs : List ℕ)
    → a < two64
    → b < two64
    → put_uint64_le a ++ us ≡ put_uint64_le b ++ vs
    → (a ≡ b) × (us ≡ vs)
unfolding put_uint64_le
number_first a b us vs h k e =
    let parts = append_inj (put_uint64_le a) (put_uint64_le b) {us = us} {vs = vs} refl e in
    (put_uint64_le-inj a b h k parts.0, parts.1)

length-++ :
    (xs ys us vs : List ℕ)
    → length xs ≡ length ys
    → length us ≡ length vs
    → length (xs ++ us) ≡ length (ys ++ vs)
length-++ xs ys us vs h k = length-append xs us ∙ ap₂ ◌+◌ h k ∙ sym (length-append ys vs)

-- The three texts at the end of an event.
abbrev words : Event → List ℕ
words e = bytes e.order.side ++ bytes e.order.order_type ++ bytes e.order.tif

-- The texts of an ordinary event, in front of whatever follows.
words_first :
    (e f : Event) (us vs : List ℕ)
    → IsOrdinary e
    → IsOrdinary f
    → words e ++ us ≡ words f ++ vs
    → (e.order.side ≡ f.order.side) × (us ≡ vs)
words_first e f us vs h k eq =
    let sides = side-inj e.order.side f.order.side h.side k.side in
    let type : e.order.order_type ≡ f.order.order_type = h.order_type ∙ sym k.order_type in
    let tif : e.order.tif ≡ f.order.tif = h.tif ∙ sym k.tif in
    let front : length (bytes e.order.side ++ bytes e.order.order_type)
        ≡ length (bytes f.order.side ++ bytes f.order.order_type) =
      length-++ _ _ _ _ sides.0 (ap (λ s. length (bytes s)) type) in
    let whole =
      append_inj (words e) (words f) {us = us} {vs = vs}
        (length-++ _ _ _ _ front (ap (λ s. length (bytes s)) tif)) eq in
    let names =
      append_inj (bytes e.order.side ++ bytes e.order.order_type)
        (bytes f.order.side ++ bytes f.order.order_type) {us = bytes e.order.tif}
        {vs = bytes f.order.tif} front whole.0 in
    let side =
      append_inj (bytes e.order.side) (bytes f.order.side) {us = bytes e.order.order_type}
        {vs = bytes f.order.order_type} sides.0 names.0 in
    (sides.1 side.0, whole.1)

-- A price of an ordinary event is an int64.
IsOrdinary-IsInt64 : (e : Event) → IsOrdinary e → IsInt64 e.order.price
IsOrdinary-IsInt64 e h = subst IsInt64 (sym h.priced) (omega (arith, h.in_range.1))

event_first :
    (e f : Event) (us vs : List ℕ)
    → IsOrdinary e
    → IsOrdinary f
    → event_bytes e ++ us ≡ event_bytes f ++ vs
    → (e ≡ f) × (us ≡ vs)
unfolding event_bytes put_uint64_le
event_first e f us vs h k eq =
    let (offset, eq₁) = number_first e.offset_ns f.offset_ns _ _ h.offset k.offset eq in
    let (bot, eq₂) =
      number_first e.bot_id f.bot_id _ _ (omega (arith, h.bot.1)) (omega (arith, k.bot.1)) eq₁ in
    let (qty, eq₃) =
      number_first e.order.qty f.order.qty _ _ (omega (arith, h.qty.1)) (omega (arith, k.qty.1))
        eq₂ in
    let (price, eq₄) =
      number_first (to_uint64 e.order.price) (to_uint64 f.order.price) _ _
        (to_uint64-lt e.order.price) (to_uint64-lt f.order.price) eq₃ in
    let (side, rest) = words_first e f us vs h k eq₄ in
    (
      Event-ext e f offset bot side (h.order_type ∙ sym k.order_type) (h.tif ∙ sym k.tif) qty (
          to_uint64-inj e.order.price f.order.price (IsOrdinary-IsInt64 e h)
            (IsOrdinary-IsInt64 f k) price),
      rest,
    )

event_nonempty : (e : Event) (us : List ℕ) → event_bytes e ++ us ≢ []
unfolding event_bytes put_uint64_le
event_nonempty e us eq = cc

schedule_bytes-inj :
    (es fs : List Event)
    → All IsOrdinary es
    → All IsOrdinary fs
    → schedule_bytes es ≡ schedule_bytes fs
    → es ≡ fs
unfolding schedule_bytes
schedule_bytes-inj [] [] h k eq = refl
schedule_bytes-inj [] (f ∷ fs) h k eq = absurd (event_nonempty f _ (sym eq))
schedule_bytes-inj (e ∷ es) [] h k eq = absurd (event_nonempty e _ eq)
schedule_bytes-inj (e ∷ es) (f ∷ fs) h k eq =
    let (first, rest) = event_first e f _ _ h.0 k.0 eq in
    ap₂ ◌∷◌ first (schedule_bytes-inj es fs h.1 k.1 rest)

-- Two compiled schedules with one hash are the same list of events, unless the texts that are
-- hashed for them differ and have the same digest: for a hash that answers with bytes, and a
-- generator that keeps its bounds.
pub schedule_hash-collision :
    (r : Rand)
    → IsBounded r
    → (sha256 : List ℕ → List ℕ) → ((text : List ℕ) → All (λ b. b < 256) (sha256 text))
    → (yaml yaml' : String) (seed seed' seconds seconds' : ℤ)
    → let es = compile r yaml seed seconds in
      let fs = compile r yaml' seed' seconds' in
      es ≢ fs
      → schedule_hash sha256 es ≡ schedule_hash sha256 fs
      → (schedule_bytes es ≢ schedule_bytes fs)
        × (sha256 (schedule_bytes es) ≡ sha256 (schedule_bytes fs))
unfolding schedule_hash
schedule_hash-collision r law sha256 digest yaml yaml' seed seed' seconds seconds' ne e = (
  λ eq. ne (
      schedule_bytes-inj _ _ (compile-IsOrdinary r law yaml seed seconds)
        (compile-IsOrdinary r law yaml' seed' seconds') eq),
  sym (from_hex-hex _ (digest _)) ∙ ap from_hex e ∙ from_hex-hex _ (digest _),
)
