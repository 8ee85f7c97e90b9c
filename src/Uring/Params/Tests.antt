-- ===== src/Uring/Params/Tests.antt =====
-- A run of the options: polling and a completion queue of 64 entries.
use go_uring.Base.{◌≡◌, refl, [], ◌∷◌}
use go_uring.Uring.Params.{apply_options, with_io_poll, with_cq_size, zero_params}

two_options :
    apply_options (with_io_poll ∷ with_cq_size 64 ∷ []) zero_params
    ≡ record zero_params { flags = 9; cq_entries = 64 }
unfolding apply_options
two_options = refl
