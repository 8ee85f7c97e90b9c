-- ===== src/Reactor/RequestId.antt =====
-- reactor/net.go, RequestID: a file descriptor and a nonce in one uint64. An `int` descriptor is
-- its two's complement bit pattern, a number below 2^64.
pub mod Pack
mod Tests
use go_uring.Base.{ℕ, ◌-◌, ◌*◌, ◌/◌, ◌%◌, ◌^◌, bit_and, bit_or}
use go_uring.Base.Word.{u32_mod, u64_mod}

-- `timeoutNonce` and `cancelNonce`: user data of entries that no callback waits for.
abbrev pub timeout_nonce : ℕ
timeout_nonce = u64_mod - 1

abbrev pub cancel_nonce : ℕ
cancel_nonce = u64_mod - 2

unfoldable pub pack_request_id : ℕ → ℕ → ℕ
pack_request_id fd nonce = bit_or (fd % u64_mod) (nonce * 2 ^ 32 % u64_mod)

unfoldable pub request_fd : ℕ → ℕ
request_fd ud = bit_and ud (2 ^ 32 - 1)

unfoldable pub request_nonce : ℕ → ℕ
request_nonce ud = ud / 2 ^ 32 % u32_mod
