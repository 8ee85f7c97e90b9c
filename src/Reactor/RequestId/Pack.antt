-- ===== src/Reactor/RequestId/Pack.antt =====
-- Packing and unpacking.
use go_uring.Base.{ℕ, ◌+◌, ◌*◌, ◌/◌, ◌%◌, ◌^◌, ◌<◌, ◌≡◌, ◌≢◌, ap₂, ◌∙◌, bit_or, arith}
use go_uring.Base.Word.{u32_mod, u64_mod}
use go_uring.Base.Bits.{bit_and-mask, bit_or_fields}
use go_uring.Reactor.RequestId.{
  timeout_nonce, cancel_nonce, pack_request_id, request_fd, request_nonce,
}

pub pack_request_id-sum :
    (fd nonce : ℕ) → fd < u32_mod → nonce < u32_mod → pack_request_id fd nonce ≡ fd + nonce * 2 ^ 32
unfolding pack_request_id
pack_request_id-sum fd nonce p q =
    let low : fd % u64_mod ≡ fd = omega arith in
    let high : nonce * 2 ^ 32 % u64_mod ≡ nonce * 2 ^ 32 = omega arith in
    ap₂ bit_or low high ∙ bit_or_fields 32 fd nonce p

request_fd-mod : (ud : ℕ) → request_fd ud ≡ ud % 2 ^ 32
unfolding request_fd
request_fd-mod ud = bit_and-mask 32 ud

pub unpack-pack :
    (fd nonce : ℕ)
    → fd < u32_mod
    → nonce < u32_mod
    → (request_fd (pack_request_id fd nonce) ≡ fd)
      × (request_nonce (pack_request_id fd nonce) ≡ nonce)
unfolding request_nonce
unpack-pack fd nonce p q =
    omega (arith, pack_request_id-sum fd nonce p q, request_fd-mod (pack_request_id fd nonce))

pub pack-unpack : (ud : ℕ) → ud < u64_mod → pack_request_id (request_fd ud) (request_nonce ud) ≡ ud
unfolding request_nonce
pack-unpack ud p = omega (
  arith,
  pack_request_id-sum (request_fd ud) (ud / 2 ^ 32 % u32_mod) (omega (arith, request_fd-mod ud))
      (omega arith),
  request_fd-mod ud,
)

-- A descriptor and a nonce of 32 bits each are read back from the id that they are packed into, and
-- every uint64 is the id of the descriptor and the nonce that are read from it.
pub pack_request_id_lem :
    (fd nonce ud : ℕ)
    → fd < u32_mod
    → nonce < u32_mod
    → ud < u64_mod
    → (request_fd (pack_request_id fd nonce) ≡ fd)
      × (request_nonce (pack_request_id fd nonce) ≡ nonce)
      × (pack_request_id (request_fd ud) (request_nonce ud) ≡ ud)
pack_request_id_lem fd nonce ud p q r =
    ((unpack-pack fd nonce p q).0, (unpack-pack fd nonce p q).1, pack-unpack ud r)

-- The id of a file descriptor, which is not negative as an int32, is neither of the reserved
-- values, whatever the nonce: its completion is never taken for a timeout's or a cancellation's.
pub pack_request_id-ne-reserved :
    (fd nonce : ℕ)
    → fd < 2 ^ 31
    → nonce < u32_mod
    → (pack_request_id fd nonce ≢ timeout_nonce) × (pack_request_id fd nonce ≢ cancel_nonce)
pack_request_id-ne-reserved fd nonce p q =
    let sum = pack_request_id-sum fd nonce (omega arith) q in
    (omega (arith, sum), omega (arith, sum))
