-- ===== src/Reactor/Nonce/Tests.antt =====
-- Runs: the first nonce, and the one after the last that is not reserved.
use go_uring.Base.{◌-◌, ◌≡◌, refl, some}
use go_uring.Reactor.RequestId.{cancel_nonce}
use go_uring.Reactor.Nonce.{next_nonce}

first : next_nonce 3 0 ≡ some 1
unfolding next_nonce
first = refl

wrapped : next_nonce 3 (cancel_nonce - 1) ≡ some 0
unfolding next_nonce
wrapped = refl
