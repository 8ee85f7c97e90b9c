-- ===== src/Uring/Setup/Load.antt =====
-- uring/setup.go, allocRing, and New of uring/ring.go: the queues that the pointers of a new ring point
-- to. The memory is a parameter: the 32-bit word at an address, and the completions and the entries from
-- an address on.
use go_uring.Base.{ℕ, zero, suc, ◌+◌, Option, none, some, List, [], ◌∷◌}
use go_uring.Uring.Entry.{SqEntry, CqEvent}
use go_uring.Uring.Sq.{SqRing}
use go_uring.Uring.Cq.{CqRing}
use go_uring.Uring.Setup.{Mapping, SqPointers, CqPointers}

pub record Memory : Type 0 where
  pub word : ℕ → ℕ
  pub events : (addr n : ℕ) → List CqEvent
  pub entries : (addr n : ℕ) → List SqEntry

abbrev pub words : (ℕ → ℕ) → (addr n : ℕ) → List ℕ
words word addr zero = []
words word addr (suc n) = word addr ∷ words word (addr + 4) n

abbrev entries_of : Memory → Option ℕ → ℕ → List SqEntry
entries_of mem none n = []
entries_of mem (some buff) n = mem.entries buff n

-- The positions that the program keeps start at 0.
unfoldable pub load_sq : Memory → Mapping → SqPointers → SqRing
load_sq mem m ps = record {
  k_head = mem.word ps.head;
  k_tail = mem.word ps.tail;
  k_ring_mask = mem.word ps.ring_mask;
  k_ring_entries = mem.word ps.ring_entries;
  k_flags = mem.word ps.flags;
  k_array = words mem.word ps.array (mem.word ps.ring_entries);
  sqe_buff = entries_of mem m.sqe_buff (mem.word ps.ring_entries);
  sqe_tail = 0;
  sqe_head = 0;
}

unfoldable pub load_cq : Memory → CqPointers → CqRing
load_cq mem pc = record {
  k_head = mem.word pc.head;
  k_tail = mem.word pc.tail;
  k_ring_mask = mem.word pc.ring_mask;
  k_ring_entries = mem.word pc.ring_entries;
  k_overflow = mem.word pc.overflow;
  cqes = mem.events pc.cqe_buff (mem.word pc.ring_entries);
}
