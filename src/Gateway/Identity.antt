-- ===== src/Gateway/Identity.antt =====
-- apps/fairness-gateway/gateway/identity.go: the opaque session token and the packed order id.
-- SHA-256 is a parameter.
use iron_book.Common.{
  ℕ, ◌+◌, ◌*◌, ◌/◌, ◌%◌, ◌<◌, ◌≡◌, ◌≢◌, List, [], ◌∷◌, ◌++◌, arith, refl, sym, ap, ◌∙◌, length,
  take, append_inj,
}
use iron_book.Common.Int.{two64}

-- `binary.BigEndian.PutUint64`.
unfoldable pub put_uint64_be : ℕ → List ℕ
put_uint64_be v =
    v / 72057594037927936 % 256
    ∷ v / 281474976710656 % 256
    ∷ v / 1099511627776 % 256
    ∷ v / 4294967296 % 256
    ∷ v / 16777216 % 256
    ∷ v / 65536 % 256
    ∷ v / 256 % 256
    ∷ v % 256
    ∷ []

unfoldable pub pack_client_order_id : ℕ → ℕ → List ℕ
pack_client_order_id bot_id local_seq = put_uint64_be bot_id ++ put_uint64_be local_seq

-- What is hashed: `bot_id || run_secret`. The digest is copied into 32 bytes.
unfoldable pub session_token_for : (List ℕ → List ℕ) → ℕ → List ℕ → List ℕ
session_token_for sha256 bot_id run_secret = take 32 (sha256 (put_uint64_be bot_id ++ run_secret))

-- The number that a big-endian byte string stands for.
abbrev pub from_be : ℕ → List ℕ → ℕ
from_be acc [] = acc
from_be acc (b ∷ bs) = from_be (acc * 256 + b) bs

from_be-put_uint64_be : (v : ℕ) → v < two64 → from_be 0 (put_uint64_be v) ≡ v
unfolding put_uint64_be
from_be-put_uint64_be v h = omega arith

put_uint64_be-inj : (a b : ℕ) → a < two64 → b < two64 → put_uint64_be a ≡ put_uint64_be b → a ≡ b
put_uint64_be-inj a b h k e =
    sym (from_be-put_uint64_be a h) ∙ ap (from_be 0) e ∙ from_be-put_uint64_be b k

-- Two orders have the same packed id only if bot and local sequence number agree.
pub pack_client_order_id-inj :
    (bot seq bot' seq' : ℕ)
    → bot < two64
    → seq < two64
    → bot' < two64
    → seq' < two64
    → pack_client_order_id bot seq ≡ pack_client_order_id bot' seq'
    → (bot ≡ bot') × (seq ≡ seq')
unfolding pack_client_order_id put_uint64_be
pack_client_order_id-inj bot seq bot' seq' h k h' k' e =
    let parts =
      append_inj (put_uint64_be bot) (put_uint64_be bot') {us = put_uint64_be seq}
        {vs = put_uint64_be seq'} refl e in
    (put_uint64_be-inj bot bot' h h' parts.0, put_uint64_be-inj seq seq' k k' parts.1)

length-pack_client_order_id :
    (bot_id local_seq : ℕ) → length (pack_client_order_id bot_id local_seq) ≡ 16
unfolding pack_client_order_id put_uint64_be
length-pack_client_order_id bot_id local_seq = refl

-- Where two different bots have the same token, under one run secret or two, the hashed texts
-- `bot_id || run_secret` differ and their digests agree in the first 32 bytes: the token tells
-- bots apart whenever the hash has no such collision.
pub session_token_for-collision :
    (sha256 : List ℕ → List ℕ) (bot bot' : ℕ) (secret secret' : List ℕ)
    → bot < two64
    → bot' < two64
    → bot ≢ bot'
    → session_token_for sha256 bot secret ≡ session_token_for sha256 bot' secret'
    → let x = put_uint64_be bot ++ secret in
      let y = put_uint64_be bot' ++ secret' in (x ≢ y) × (take 32 (sha256 x) ≡ take 32 (sha256 y))
unfolding session_token_for put_uint64_be
session_token_for-collision sha256 bot bot' secret secret' h k ne e = (
  λ same. ne (
      put_uint64_be-inj bot bot' h k
        (append_inj (put_uint64_be bot) (put_uint64_be bot') {us = secret} {vs = secret'} refl
          same).0),
  e,
)
