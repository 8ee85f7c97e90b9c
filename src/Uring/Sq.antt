-- ===== src/Uring/Sq.antt =====
-- uring/ring.go: the submission queue. The memory that the ring shares with the kernel is part of
-- the state: the kernel moves `k_head`, the program moves `k_tail`.
pub mod Inv
pub mod Queue
pub mod Refine
pub mod Runs
mod Tests
use mathlib.Core.Option
use go_uring.Base.{
  ℕ, zero, suc, ◌+◌, ◌-◌, ◌*◌, ◌/◌, ◌%◌, ◌≤◌, List, Option, none, some, Bool, true, false, bit_and,
  leb, ◌==◌, not, if◌then◌else◌, get_or, set,
}
use go_uring.Base.Word.{u32_mod, add32, sub32}
use go_uring.Uring.Entry.{SqEntry, zero_entry, sizeof_sq_entry, set_user_data}
use go_uring.Uring.Operation.{Operation, prep_sqe}

-- `sq`, with what its pointers point to. `sqe_buff` is the mapped array of entries, in units of
-- one entry, and `k_array` the array of indices, in units of one uint32.
pub record SqRing : Type 0 where
  pub k_head : ℕ
  pub k_tail : ℕ
  pub k_ring_mask : ℕ
  pub k_ring_entries : ℕ
  pub k_flags : ℕ
  pub k_array : List ℕ
  pub sqe_buff : List SqEntry
  pub sqe_tail : ℕ
  pub sqe_head : ℕ

-- `sqCQOverflow` and `sqNeedWakeup`
abbrev pub sq_need_wakeup : ℕ
sq_need_wakeup = 1

abbrev pub sq_cq_overflow : ℕ
sq_cq_overflow = 2

unfoldable pub cq_need_flush : SqRing → Bool
cq_need_flush s = not (bit_and s.k_flags sq_cq_overflow == 0)

-- The byte offset of the entry at `sqe_tail`, and the entry's number.
unfoldable pub sqe_offset : SqRing → ℕ
sqe_offset s = bit_and s.sqe_tail s.k_ring_mask * sizeof_sq_entry % u32_mod

unfoldable pub sqe_slot : SqRing → ℕ
unfolding sqe_offset
sqe_slot s = sqe_offset s / sizeof_sq_entry

-- `NextSQE`: the number of the entry, or `none` for `ErrSQOverflow`.
unfoldable pub next_sqe : SqRing → Option ℕ × SqRing
unfolding sqe_slot
next_sqe s =
    let next = add32 s.sqe_tail 1 in
    if leb (sub32 next s.k_head) s.k_ring_entries
    then (some (sqe_slot s), record s { sqe_tail = next })
    else (none, s)

-- What `QueueSQE` does: it returns an error, or panics in `PrepSQE`, or succeeds.
pub data Queued : Type 0 where
  ok sq_overflow prep_panic : Queued

-- The entry as `QueueSQE` leaves it: `PrepSQE`, then the flags, then the user data.
unfoldable pub entry_of : ℕ → Operation → ℕ → ℕ → SqEntry → Option SqEntry
unfolding set_user_data
entry_of spec op flags user_data old =
    Option.map (λ sqe. set_user_data (record sqe { flags = flags }) user_data)
      (prep_sqe spec op old)

store_entry : Option SqEntry → ℕ → SqRing → Queued × SqRing
store_entry none slot s = (prep_panic, s)
store_entry (some sqe) slot s = (ok, record s { sqe_buff = set s.sqe_buff slot sqe })

-- the second half of `QueueSQE`, on the outcome of `NextSQE`
fill_slot : ℕ → Operation → ℕ → ℕ → Option ℕ → SqRing → Queued × SqRing
unfolding store_entry
fill_slot spec op flags user_data none s = (sq_overflow, s)
fill_slot spec op flags user_data (some slot) s =
    store_entry (entry_of spec op flags user_data (get_or s.sqe_buff slot zero_entry)) slot s

-- `QueueSQE`
unfoldable pub queue_sqe : ℕ → Operation → ℕ → ℕ → SqRing → Queued × SqRing
unfolding next_sqe fill_slot store_entry
queue_sqe spec op flags user_data s =
    let (slot, s') = next_sqe s in fill_slot spec op flags user_data slot s'

-- The loop of `flushSQ`, with the rounds that are left and the local `tail`.
unfoldable pub publish : ℕ → ℕ → SqRing → ℕ × SqRing
publish zero tail s = (tail, s)
publish (suc rounds) tail s = publish rounds (add32 tail 1) (record s {
  k_array =
      set s.k_array (bit_and tail s.k_ring_mask * 4 % u32_mod / 4)
        (bit_and s.sqe_head s.k_ring_mask);
  sqe_head = add32 s.sqe_head 1;
})

-- `flushSQ`: the number of entries that the kernel has not consumed yet.
unfoldable pub flush_sq : SqRing → ℕ × SqRing
unfolding publish
flush_sq s =
    let count = sub32 s.sqe_tail s.sqe_head in
    if count == 0
    then (sub32 s.k_tail s.k_head, s)
    else (let (tail, s') = publish count s.k_tail s in
        (sub32 tail s'.k_head, record s' { k_tail = tail }))

-- The kernel takes the entry at `k_head`, if there is one. It is the only step of the other side.
unfoldable pub consume : SqRing → SqRing
consume s = if s.k_head == s.k_tail then s else record s { k_head = add32 s.k_head 1 }
