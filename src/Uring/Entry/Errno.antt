-- ===== src/Uring/Entry/Errno.antt =====
-- The error of a completion (uring/syscall.go, CQEvent.Error).
use go_uring.Base.{ℕ, ◌-◌, ◌^◌, ◌<◌, ◌≡◌, ◌↔◌, none, some, arith}
use go_uring.Base.Word.{u32_mod}
use go_uring.Uring.Entry.{CqEvent, event_error}

-- A completion is without an error exactly when its result, an int32, is not negative.
pub event_error-none :
    (cqe : CqEvent) → cqe.res < u32_mod → (event_error cqe ≡ none) ↔ (cqe.res < 2 ^ 31)
unfolding event_error
event_error-none cqe h = ground arith

-- A completion whose result is the negated error number `e` reports `e`, for every `e` that an
-- int32 can hold.
pub event_error-some :
    (e : ℕ) (cqe : CqEvent) → 0 < e → e < 2 ^ 31 → cqe.res ≡ u32_mod - e → event_error cqe ≡ some e
unfolding event_error
event_error-some e cqe p q r = ground arith
