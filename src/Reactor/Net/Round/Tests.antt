-- ===== src/Reactor/Net/Round/Tests.antt =====
-- An instance: a ring with one ready completion, and a kernel whose calls fail.
use go_uring.Base.{ℕ, ◌+◌, ◌-◌, ◌^◌, [], ◌∷◌}
use go_uring.Base.Word.{u32_mod}
use go_uring.Uring.Entry.{CqEvent, zero_entry, zero_event}
use go_uring.Uring.Params.{zero_params}
use go_uring.Uring.Ring.{Ring, Enter, Entered}
use go_uring.Reactor.Registry.{CbRegistry, new_cb_registry}

-- EINTR
abbrev enter : Enter → ℕ → Ring → Entered ℕ
enter a w r = record { consumed = 0; errno = 4; world = w + 1; ring = r }

abbrev event : CqEvent
event = record { user_data = 5; res = 3; flags = 0 }

abbrev ring : Ring
ring = record {
  fd = 3;
  params = record zero_params { features = 2 ^ 8 };
  cq_ring = record {
    k_head = u32_mod - 1;
    k_tail = 0;
    k_ring_mask = 1;
    k_ring_entries = 2;
    k_overflow = 0;
    cqes = zero_event ∷ event ∷ [];
  };
  sq_ring = record {
    k_head = 0;
    k_tail = 0;
    k_ring_mask = 1;
    k_ring_entries = 2;
    k_flags = 0;
    k_array = 0 ∷ 1 ∷ [];
    sqe_buff = zero_entry ∷ zero_entry ∷ [];
    sqe_tail = 0;
    sqe_head = 0;
  };
}

abbrev registry : CbRegistry ℕ
registry = new_cb_registry 1 75
