-- ===== src/Example/Echo/Main/Tests.antt =====
-- An instance: the server starts on a kernel that counts descriptors and addresses.
use go_uring.Base.{
  sym, ◌∙◌, ℕ, suc, ◌+◌, ◌-◌, ◌*◌, ◌≡◌, refl, ap, Bool, true, Bool-cases, inl, inr, none, replicate,
  length-replicate, leb, ◌==◌, ◌||◌, if◌then◌else◌, arith,
}
use go_uring.Uring.Entry.{zero_entry, zero_event}
use go_uring.Uring.Params.{RingParams, single_mmap_feature, zero_params}
use go_uring.Uring.Setup.{
  made, Mapping, SqPointers, CqPointers, NewRing, new_ring, alloc_ring, sq_pointers, cq_pointers,
}
use go_uring.Base.{set as set_at, some}
use go_uring.Uring.Operation.{send, recv, prep_sqe}
use go_uring.Uring.Sq.{queue_sqe, entry_of}
use go_uring.Uring.Ring.{Ring}
use go_uring.Example.Echo.Queue.{accept_entry}
use go_uring.Uring.Setup.Load.{Memory, load_sq, load_cq}
use go_uring.Uring.Setup.Memory.{set}
use mathlib.Core.Option.{some-injective}
use go_uring.Uring.Setup.Fresh.{IsFresh}
use go_uring.Uring.Setup.Instance.{World, os_with, start, sq_layout, cq_layout}
use go_uring.Net.Listener.{Sockets}
use go_uring.Example.Echo.{Server, running, accepting, make_conns, add_accept, queue_op}
use go_uring.Example.Echo.Main.{SetsUpEmpty, Began, echo_main, echo_main-Began}

-- The socket is 7 and every call on it succeeds.
abbrev sockets : Sockets ℕ World
sockets = record {
  socket = λ w. (inr 7, w);
  set_opt = λ fd o w. (none, w);
  bind = λ fd addr w. (none, w);
  listen = λ fd backlog w. (none, w);
  close = λ fd w. (none, w);
}

-- A new ring at `base`.
abbrev memory_at : ℕ → Memory
memory_at base = record {
  word = λ addr.
      if addr == base + 8
      then 4095
      else if addr == base + 12
      then 4096
      else if addr == base + 32
      then 8191
      else if addr == base + 36
      then 8192
      else 0;
  events = λ addr n. replicate n zero_event;
  entries = λ addr n. replicate n zero_entry;
}

-- The two mappings of a ring are the last that were made.
abbrev memory : World → Memory
memory w = memory_at (w.next_addr - 2)

abbrev laid_out : RingParams
laid_out = record zero_params {
  sq_entries = 4096;
  cq_entries = 8192;
  features = 33;
  sq_offset = sq_layout 4096;
  cq_offset = cq_layout;
}

memory_at-IsFresh : (base : ℕ) → IsFresh 12 13 (memory_at base) base base laid_out
memory_at-IsFresh base = record {
  sq_head = ground arith;
  sq_tail = ground arith;
  sq_mask = ground arith;
  sq_entries = ground arith;
  cq_head = ground arith;
  cq_tail = ground arith;
  cq_mask = ground arith;
  cq_entries = ground arith;
  all_events = λ addr n. length-replicate n zero_event;
  all_entries = λ addr n. length-replicate n zero_entry;
}

abbrev AllocRing : Type 0
AllocRing = Mapping × SqPointers × CqPointers

made-inj :
    {fd fd' : ℕ} {p p' : RingParams} {x y : AllocRing}
    → made fd p (inr x) ≡ made fd' p' (inr y)
    → (p ≡ p') × (x ≡ y)
made-inj e = (cc, cc)

mapped-IsFresh :
    (base next : ℕ) (p : RingParams) (x y : AllocRing) (sq cq : ℕ)
    → (laid_out ≡ p) × (x ≡ y)
    → x.0.sq_buff ≡ some base
    → x.0.cq_buff ≡ some base
    → suc (suc base) ≡ next
    → y.0.sq_buff ≡ some sq
    → y.0.cq_buff ≡ some cq
    → IsFresh 12 13 (memory_at (next - 2)) sq cq p
mapped-IsFresh base next p x y sq cq e q q' n at_sq at_cq =
    let b : next - 2 ≡ base = omega arith in
    let sq_base : base ≡ sq =
      some-injective base sq (sym q ∙ ap (λ (z : AllocRing). z.0.sq_buff) e.1 ∙ at_sq) in
    let cq_base : base ≡ cq =
      some-injective base cq (sym q' ∙ ap (λ (z : AllocRing). z.0.cq_buff) e.1 ∙ at_cq) in
    rw (b, sym e.0, sym sq_base, sym cq_base) (memory_at-IsFresh base)

abbrev no_address : World → Bool
no_address w = leb w.last_addr w.next_addr || w.is_mapped w.next_addr

abbrev after_mmap : World → World
after_mmap w = record w {
  is_mapped = set w.next_addr true w.is_mapped;
  next_addr = suc w.next_addr;
}

memory-SetsUpEmpty : SetsUpEmpty sockets (os_with 33) memory
unfolding new_ring alloc_ring single_mmap_feature
memory-SetsUpEmpty w w' fd p m ps pc sq cq = elim (Bool-cases (w.is_open w.next_fd)) [
  | inl full ↦ rw full (λ e. absurd cc)
  | inr free ↦ elim (Bool-cases (no_address w)) [
    | inl full ↦ rw (free, full) (λ e. absurd cc)
    | inr one ↦ elim (Bool-cases (no_address (after_mmap w))) [
      | inl full ↦ rw (free, one, full) (λ e. absurd cc)
      | inr two ↦
          rw (free, one, two)
            (λ e.
              mapped-IsFresh w.next_addr w'.next_addr p _ (m, ps, pc) sq cq
                (made-inj (ap (λ (o : NewRing × World). o.0) e)) refl refl
                (ap (λ (o : NewRing × World). o.1.next_addr) e))
    ]
  ]
]

-- The ring 3 at the addresses 100 and 101, and the server with its first accept.
abbrev new_ring_of : Ring
new_ring_of = record {
  fd = 3;
  params = laid_out;
  cq_ring = load_cq (memory_at 100) (cq_pointers 100 cq_layout);
  sq_ring =
      load_sq (memory_at 100)
        (record { sq_buff = some 100; cq_buff = some 100; sqe_buff = some 101 })
        (sq_pointers 100 (sq_layout 4096));
}

abbrev began : Server World
began = record {
  conns = set_at make_conns 7 (record {
    fd = 7;
    typ = accepting;
    send_op = send 7 (record { base = 0; len = 0 }) 0;
    recv_op = recv 7 (record { base = 0; len = 0 }) 0;
  });
  ring = record new_ring_of {
    sq_ring = record new_ring_of.sq_ring {
      sqe_buff = set_at new_ring_of.sq_ring.sqe_buff 0 (accept_entry 7 100 200);
      sqe_tail = 1;
    };
  };
  world =
      after_mmap
        (after_mmap (record (start 2) { is_open = set 3 true (start 2).is_open; next_fd = 4 }));
}

starts : echo_main sockets (os_with 33) memory 80 100 200 (start 2) ≡ running (7, began)
unfolding echo_main add_accept queue_op queue_sqe entry_of prep_sqe make_conns load_sq load_cq
    sq_pointers cq_pointers
starts = refl

echo_main-Began_example :
    Began sockets (os_with 33) memory (λ fd w. w) (λ i. 65536 + i * 2048) 100 200 7 began
echo_main-Began_example =
    echo_main-Began sockets (os_with 33) memory (λ fd w. w) (λ i. 65536 + i * 2048) 100 200
      memory-SetsUpEmpty 80 (start 2) 7 began starts (omega arith)
