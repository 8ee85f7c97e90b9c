-- ===== src/Reactor/Generic/Round/Tests.antt =====
-- An instance: a ring with one ready completion, and a kernel whose calls fail.
use go_uring.Base.{
  ℕ, ◌+◌, ◌-◌, ◌^◌, ◌≡◌, refl, Option, none, some, [], ◌∷◌, append-nil, sym, arith, false, true,
}
use go_uring.Base.Int.{pos}
use go_uring.Base.Word.{u32_mod}
use go_uring.Uring.Entry.{CqEvent, zero_entry, zero_event}
use go_uring.Uring.Sq.{cq_need_flush}
use go_uring.Uring.Cq.Inv.{ready}
use go_uring.Uring.Params.{zero_params, ext_arg_feature}
use go_uring.Uring.Ring.{Ring, Enter, Entered, get_cq_events}
use go_uring.Uring.Ring.Kernel.{Honours}
use go_uring.Uring.Ring.Timeout.{waited, wait_cq_events_with_timeout}
use go_uring.Reactor.Registry.{update}
use go_uring.Reactor.Generic.{deliver_nonces}
use go_uring.Reactor.Consumer.Round.{RoundEnds}
use go_uring.Reactor.Generic.Round.{nonces_round, nonces_round_lem}

-- EINTR
abbrev enter : Enter → ℕ → Ring → Entered ℕ
enter a w r = record { consumed = 0; errno = 4; world = w + 1; ring = r }

enter-Honours : Honours 1 enter
enter-Honours = record {
  keeps_valid = λ a w r v. v;
  grows = λ a w r v. ([], sym (append-nil (ready (2 ^ 1) r.cq_ring)));
  keeps_params = λ a w r. refl;
  completes = λ a w r v fine none_left waits. absurd (omega arith);
  flushes = λ a w r v fine none_left waits overflow. absurd (omega arith);
  consumes = λ a w r fine some_left queued. absurd (omega arith);
}

abbrev event : CqEvent
event = record { user_data = 5; res = 3; flags = 0 }

abbrev ring : Ring
ring = record {
  fd = 3;
  params = record zero_params { features = 2 ^ 8 };
  cq_ring = record {
    k_head = u32_mod - 1;
    k_tail = 0;
    k_ring_mask = 1;
    k_ring_entries = 2;
    k_overflow = 0;
    cqes = zero_event ∷ event ∷ [];
  };
  sq_ring = record {
    k_head = 0;
    k_tail = 0;
    k_ring_mask = 1;
    k_ring_entries = 2;
    k_flags = 0;
    k_array = 0 ∷ 1 ∷ [];
    sqe_buff = zero_entry ∷ zero_entry ∷ [];
    sqe_tail = 0;
    sqe_head = 0;
  };
}

abbrev callbacks : ℕ → Option ℕ
callbacks = update (λ nonce. none) 5 (some 42)

ring-calm : cq_need_flush ring.sq_ring ≡ false
unfolding cq_need_flush
ring-calm = refl

ring-ext : ext_arg_feature ring.params ≡ true
unfolding ext_arg_feature
ring-ext = refl

ended :
    wait_cq_events_with_timeout enter 2 0 1 (pos 9) 0 ring
    ≡ some (waited (record { cqe = some event; err = none }), 0, ring)
unfolding wait_cq_events_with_timeout get_cq_events ext_arg_feature
ended = refl

nonces_round_lem_example :
    RoundEnds deliver_nonces callbacks 1
      (waited (record { cqe = some event; err = none }))
      0
      ring
      (nonces_round enter 2 3 0 (pos 9) (none ∷ []) callbacks 0 ring)
nonces_round_lem_example =
    nonces_round_lem enter 2 3 0 (pos 9) (none ∷ []) callbacks 1 0 0 ring ring
      (waited (record { cqe = some event; err = none })) enter-Honours (omega arith) ring-ext
      (omega arith) (omega arith) (omega arith) (omega arith) ended ring-calm
