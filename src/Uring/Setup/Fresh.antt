-- ===== src/Uring/Setup/Fresh.antt =====
-- The queues of a new ring.
use go_uring.Base.{
  ℕ, zero, suc, ◌+◌, ◌-◌, ◌^◌, ◌≤◌, ◌≡◌, refl, sym, ap, subst, some, inr, [], length, arith,
}
use go_uring.Uring.Sq.Inv.{IsValid, pending}
use go_uring.Uring.Cq.Inv.{IsValid as IsCqValid, ready}
use go_uring.Uring.Params.{RingParams}
use go_uring.Uring.Setup.{Os, Mapping, SqPointers, CqPointers, alloc_ring}
use go_uring.Uring.Setup.Pointers.{PointsTo, first_mapping, cq_mapping, alloc_ring-PointsTo}
use go_uring.Uring.Setup.Load.{Memory, words, load_sq, load_cq}

-- What io_uring_setup(2) leaves in the memory of rings of 2^j and 2^k entries that are mapped at `sq`
-- and `cq`, at the offsets that it wrote into the parameters: empty queues, and as many entries and
-- completions as they can hold.
pub record IsFresh (j k : ℕ) (mem : Memory) (sq cq : ℕ) (p : RingParams) : Type 0 where
  pub sq_head : mem.word (sq + p.sq_offset.head) ≡ 0
  pub sq_tail : mem.word (sq + p.sq_offset.tail) ≡ 0
  pub sq_mask : mem.word (sq + p.sq_offset.ring_mask) ≡ 2 ^ j - 1
  pub sq_entries : mem.word (sq + p.sq_offset.ring_entries) ≡ 2 ^ j
  pub cq_head : mem.word (cq + p.cq_offset.head) ≡ 0
  pub cq_tail : mem.word (cq + p.cq_offset.tail) ≡ 0
  pub cq_mask : mem.word (cq + p.cq_offset.ring_msk) ≡ 2 ^ k - 1
  pub cq_entries : mem.word (cq + p.cq_offset.ring_entries) ≡ 2 ^ k
  pub all_events : (addr n : ℕ) → length (mem.events addr n) ≡ n
  pub all_entries : (addr n : ℕ) → length (mem.entries addr n) ≡ n

-- The same at the addresses of the pointers.
record ReadsFresh (j k : ℕ) (mem : Memory) (ps : SqPointers) (pc : CqPointers) : Type 0 where
  pub sq_head : mem.word ps.head ≡ 0
  pub sq_tail : mem.word ps.tail ≡ 0
  pub sq_mask : mem.word ps.ring_mask ≡ 2 ^ j - 1
  pub sq_entries : mem.word ps.ring_entries ≡ 2 ^ j
  pub cq_head : mem.word pc.head ≡ 0
  pub cq_tail : mem.word pc.tail ≡ 0
  pub cq_mask : mem.word pc.ring_mask ≡ 2 ^ k - 1
  pub cq_entries : mem.word pc.ring_entries ≡ 2 ^ k
  pub all_events : (addr n : ℕ) → length (mem.events addr n) ≡ n
  pub all_entries : (addr n : ℕ) → length (mem.entries addr n) ≡ n

length-words : (word : ℕ → ℕ) (addr n : ℕ) → length (words word addr n) ≡ n
length-words word addr zero = refl
length-words word addr (suc n) = ap suc (length-words word (addr + 4) n)

module _ {j k : ℕ} {mem : Memory} {ps : SqPointers} {pc : CqPointers}
    (f : ReadsFresh j k mem ps pc) where
  load_sq-IsValid :
      (sqe : ℕ) (m : Mapping)
      → j ≤ 15
      → m.sqe_buff ≡ some sqe
      → IsValid j (load_sq mem m ps)
        × (pending (2 ^ j) (load_sq mem m ps) ≡ record { submitted = []; prepared = [] })
  unfolding load_sq
  load_sq-IsValid sqe m small mapped = (
    record {
      small = small;
      entries = f.sq_entries;
      mask = f.sq_mask;
      array_room =
          omega (arith, length-words mem.word ps.array (mem.word ps.ring_entries), f.sq_entries);
      buff_room =
          rw mapped (omega (arith, f.all_entries sqe (mem.word ps.ring_entries), f.sq_entries));
      head_word = omega (arith, f.sq_head);
      tail_word = omega (arith, f.sq_tail);
      sqe_tail_word = omega arith;
      aligned = sym f.sq_tail;
      room = rw (f.sq_head, f.sq_tail) (omega arith);
      named = rw (f.sq_head, f.sq_tail) refl;
    },
    rw (f.sq_head, f.sq_tail) refl,
  )

  load_cq-IsValid : k ≤ 16 → IsCqValid k (load_cq mem pc) × (ready (2 ^ k) (load_cq mem pc) ≡ [])
  unfolding load_cq
  load_cq-IsValid small = (
    record {
      small = small;
      entries = f.cq_entries;
      mask = f.cq_mask;
      memory = omega (arith, f.all_events pc.cqe_buff (mem.word pc.ring_entries), f.cq_entries);
      head_word = omega (arith, f.cq_head);
      tail_word = omega (arith, f.cq_tail);
      room = ground (arith, f.cq_head, f.cq_tail);
    },
    rw (f.cq_head, f.cq_tail) refl,
  )

module _ {K : Type 0} (os : Os K) {j k : ℕ} {mem : Memory} (fd : ℕ) (p : RingParams)
    (sq cq : ℕ) where
  pointers-ReadsFresh :
      (m : Mapping) (ps : SqPointers) (pc : CqPointers)
      → PointsTo os fd p sq cq (inr (m, ps, pc))
      → IsFresh j k mem sq cq p
      → ReadsFresh j k mem ps pc
  pointers-ReadsFresh m ps pc (sqe, named, sq_at, head, tail, mask, entries, events) f = record {
    sq_head = rw sq_at f.sq_head;
    sq_tail = rw sq_at f.sq_tail;
    sq_mask = rw sq_at f.sq_mask;
    sq_entries = rw sq_at f.sq_entries;
    cq_head = rw head f.cq_head;
    cq_tail = rw tail f.cq_tail;
    cq_mask = rw mask f.cq_mask;
    cq_entries = rw entries f.cq_entries;
    all_events = f.all_events;
    all_entries = f.all_entries;
  }

  -- The queues of a ring that `allocRing` has set up are valid, and empty for the program and for the
  -- kernel, with at most `MaxEntries` submission entries and twice as many completions: if the rings
  -- that mmap(2) has mapped are empty at the offsets that io_uring_setup(2) wrote.
  pub alloc_ring-IsValid :
      (w : K) (m : Mapping) (ps : SqPointers) (pc : CqPointers)
      → (alloc_ring os fd p w).0 ≡ inr (m, ps, pc)
      → (first_mapping os fd p w).0 ≡ inr sq
      → cq_mapping os fd p sq (first_mapping os fd p w).1 ≡ inr cq
      → IsFresh j k mem sq cq p
      → j ≤ 15
      → k ≤ 16
      → IsValid j (load_sq mem m ps)
        × IsCqValid k (load_cq mem pc)
        × (pending (2 ^ j) (load_sq mem m ps) ≡ record { submitted = []; prepared = [] })
        × (ready (2 ^ k) (load_cq mem pc) ≡ [])
  alloc_ring-IsValid w m ps pc made at_sq at_cq f hj hk =
      let points =
        subst (PointsTo os fd p sq cq) made (alloc_ring-PointsTo os fd p sq cq w at_sq at_cq) in
      let reads = pointers-ReadsFresh m ps pc points f in
      let valid =
        load_sq-IsValid reads points.0 m hj (ap (λ (m' : Mapping). m'.sqe_buff) points.1) in
      (valid.0, (load_cq-IsValid reads hk).0, valid.1, (load_cq-IsValid reads hk).1)
