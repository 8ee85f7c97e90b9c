-- ===== src/Uring/Entry/Tests.antt =====
-- Runs: ECANCELED (125) as the kernel reports it, and a count of bytes.
use go_uring.Base.{◌-◌, ◌≡◌, refl, none, some}
use go_uring.Base.Word.{u32_mod}
use go_uring.Uring.Entry.{zero_event, event_error}

canceled : event_error (record zero_event { res = u32_mod - 125 }) ≡ some 125
unfolding event_error
canceled = refl

read_bytes : event_error (record zero_event { res = 512 }) ≡ none
unfolding event_error
read_bytes = refl
