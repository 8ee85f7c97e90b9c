-- ===== src/Reactor/Nonce.antt =====
-- reactor/reactor.go, nextNonce: the ids of the generic reactor.
mod Tests
use go_uring.Base.{
  ℕ, zero, suc, ◌+◌, ◌-◌, ◌%◌, ◌^◌, ◌≤◌, ◌<◌, ◌≡◌, Option, none, some, ltb, leb, if◌then◌else◌,
  arith,
}
use go_uring.Base.Word.{u64_mod, add64}
use go_uring.Reactor.RequestId.{cancel_nonce}

-- The loop of `nextNonce` on the counter `currentNonce`, with fuel; each round is an atomic add.
-- The result is the new value of the counter, which is the nonce too.
unfoldable pub next_nonce : ℕ → ℕ → Option ℕ
next_nonce zero current = none
next_nonce (suc fuel) current =
    let local = add64 current 1 in
    let again = next_nonce fuel local in if leb cancel_nonce local then again else some local

-- Three rounds are enough. The nonce is the successor of the last one, or 0 once the successor is
-- reserved: it is never the nonce of a timeout or of a cancellation.
pub next_nonce_lem :
    (fuel current : ℕ)
    → current < u64_mod
    → next_nonce (suc (suc (suc fuel))) current
      ≡ some (if ltb (current + 1) cancel_nonce then current + 1 else 0)
unfolding next_nonce
next_nonce_lem fuel current h = ground arith
