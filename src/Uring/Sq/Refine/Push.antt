-- ===== src/Uring/Sq/Refine/Push.antt =====
-- `NextSQE` and `QueueSQE`.
use go_uring.Base.{
  ℕ, ◌+◌, ◌%◌, ◌^◌, ◌<◌, ◌≡◌, ◌≢◌, ap, ap₂, sym, ◌∙◌, [], ◌∷◌, ◌++◌, none, some, length, get_or,
  set, length-set, ltb, leb, if◌then◌else◌, arith, inl, inr, Bool-cases, ltb→lt, ◌↔◌, true, false,
}
use native.Mathlib.Nat.{mod-lt}
use go_uring.Base.Word.{add32, sub32}
use go_uring.Base.Window.{window, window-set_past, window-set_next, slot-ne}
use go_uring.Uring.Entry.{SqEntry, zero_entry}
use go_uring.Uring.Operation.{Operation}
use go_uring.Uring.Operation.Prepare.{prep_sqe_fresh}
use go_uring.Uring.Sq.{SqRing, ok, sq_overflow, next_sqe, entry_of, queue_sqe}
use go_uring.Uring.Sq.Queue.{push, total}
use go_uring.Uring.Sq.Inv.{
  IsValid, pending, visible_count, prepared_count, size_bounds, position_slot, sqe_slot-mod,
  submitted-window, total-pending,
}

-- The entry does not depend on what the slot held.
entry_of_fresh :
    (spec : ℕ) (op : Operation) (flags ud : ℕ) (old other : SqEntry)
    → entry_of spec op flags ud old ≡ entry_of spec op flags ud other
unfolding entry_of
entry_of_fresh spec op flags ud old other = rw (prep_sqe_fresh spec op old other)

module _ {k : ℕ} {s : SqRing} (v : IsValid k s) where
  open v use {small, entries, room}

  abbrev count : ℕ
  count = visible_count s + prepared_count s

  -- How far the next entry lies from the oldest one.
  tail_distance : sub32 s.sqe_tail s.k_head ≡ count
  tail_distance = omega (arith, size_bounds k small)

  -- `NextSQE` compares, in wrapping arithmetic, the number of entries with the size.
  next_test : leb (sub32 (add32 s.sqe_tail 1) s.k_head) s.k_ring_entries ≡ ltb count (2 ^ k)
  next_test = ground (arith, size_bounds k small)

  pub next_sqe_cases : next_sqe s ≡ (
      if ltb count (2 ^ k)
      then (some (s.sqe_tail % 2 ^ k), record s { sqe_tail = add32 s.sqe_tail 1 })
      else (none, s))
  unfolding next_sqe
  next_sqe_cases = ground (arith, next_test, sqe_slot-mod v)

  tail_slot : s.sqe_tail % 2 ^ k ≡ (s.k_head + count) % 2 ^ k
  tail_slot = position_slot k s.k_head count s.sqe_tail small (omega arith)

  -- `NextSQE` fails exactly when all entries are in use, and then changes nothing.
  pub next_sqe_overflow : (next_sqe s ≡ (none, s)) ↔ (total (pending (2 ^ k) s) ≡ 2 ^ k)
  next_sqe_overflow = ground (arith, next_sqe_cases, total-pending k s)

  -- An entry that `NextSQE` hands out lies in the mapped buffer, and is none of those in use, be
  -- they visible to the kernel or only prepared; nothing but the tail moves.
  pub next_sqe_free :
      (slot i : ℕ) (s' : SqRing)
      → next_sqe s ≡ (some slot, s')
      → i < total (pending (2 ^ k) s)
      → (slot < length s.sqe_buff)
        × (slot ≢ (s.k_head + i) % 2 ^ k)
        × (s' ≡ record s { sqe_tail = add32 s.sqe_tail 1 })
  next_sqe_free slot i s' e h = ground (
    arith,
    next_sqe_cases,
    total-pending k s,
    tail_slot,
    v.buff_room,
    size_bounds k small,
    mod-lt s.sqe_tail {m = 2 ^ k},
    slot-ne (2 ^ k) s.k_head i count,
  )

  stored : SqEntry → SqRing
  stored e = record s {
    sqe_tail = add32 s.sqe_tail 1;
    sqe_buff = set s.sqe_buff (s.sqe_tail % 2 ^ k) e;
  }

  stored-IsValid : (e : SqEntry) → count < 2 ^ k → IsValid k (stored e)
  unfolding stored
  stored-IsValid e h = record {
    small = small;
    entries = entries;
    mask = v.mask;
    array_room = v.array_room;
    buff_room = omega (arith, v.buff_room, length-set s.sqe_buff (s.sqe_tail % 2 ^ k) e);
    head_word = v.head_word;
    tail_word = v.tail_word;
    sqe_tail_word = omega arith;
    aligned = v.aligned;
    room = omega (arith, size_bounds k small);
    named = v.named;
  }

  tail_slot_prepared : s.sqe_tail % 2 ^ k ≡ (s.sqe_head + prepared_count s) % 2 ^ k
  tail_slot_prepared =
      position_slot k s.sqe_head (prepared_count s) s.sqe_tail small (omega (arith, v.aligned))

  -- The write is past what is visible.
  stored-submitted :
      (e : SqEntry)
      → count < 2 ^ k
      → (pending (2 ^ k) (stored e)).submitted ≡ (pending (2 ^ k) s).submitted
  unfolding stored
  stored-submitted e h =
      submitted-window (stored-IsValid e h)
      ∙ ap (λ i. window zero_entry (set s.sqe_buff i e) (2 ^ k) s.k_head (visible_count s))
          tail_slot
      ∙ window-set_past zero_entry s.sqe_buff (2 ^ k) s.k_head (visible_count s) count e
          (omega arith) h
      ∙ sym (submitted-window v)

  -- The write is just past what is prepared.
  stored-prepared :
      (e : SqEntry)
      → count < 2 ^ k
      → (pending (2 ^ k) (stored e)).prepared ≡ (pending (2 ^ k) s).prepared ++ (e ∷ [])
  unfolding stored
  stored-prepared e h =
      ap₂ (λ i n. window zero_entry (set s.sqe_buff i e) (2 ^ k) s.sqe_head n) tail_slot_prepared
        more
      ∙ window-set_next zero_entry s.sqe_buff (2 ^ k) s.sqe_head (prepared_count s) e (omega arith)
          v.buff_room
    where
      more : prepared_count (stored e) ≡ prepared_count s + 1
      more = omega (arith, size_bounds k small)

  queue_sqe_full :
      (spec : ℕ) (op : Operation) (flags ud : ℕ)
      → ltb count (2 ^ k) ≡ false
      → queue_sqe spec op flags ud s ≡ (sq_overflow, s)
  unfolding queue_sqe
  queue_sqe_full spec op flags ud h = ground (arith, next_sqe_cases)

  queue_sqe_stores :
      (spec : ℕ) (op : Operation) (flags ud : ℕ) (e : SqEntry)
      → entry_of spec op flags ud zero_entry ≡ some e
      → ltb count (2 ^ k) ≡ true
      → queue_sqe spec op flags ud s ≡ (ok, stored e)
  unfolding queue_sqe stored
  queue_sqe_stores spec op flags ud e h free = ground (
    arith,
    next_sqe_cases,
    entry_of_fresh spec op flags ud (get_or s.sqe_buff (s.sqe_tail % 2 ^ k) zero_entry) zero_entry,
  )

  -- `QueueSQE` of an operation that has an entry is `push`: it appends the entry, behind all
  -- others, if fewer than the size are in use, and otherwise reports the overflow and changes
  -- nothing that is pending. The invariant is kept.
  pub queue_sqe_refines :
      (spec : ℕ) (op : Operation) (flags ud : ℕ) (e : SqEntry)
      → entry_of spec op flags ud zero_entry ≡ some e
      → let (r, s') = queue_sqe spec op flags ud s in
        IsValid k s' × ((r, pending (2 ^ k) s') ≡ push (2 ^ k) e (pending (2 ^ k) s))
  queue_sqe_refines spec op flags ud e h = elim (Bool-cases (ltb count (2 ^ k))) [
    | inl free ↦ rw (queue_sqe_stores spec op flags ud e h free) (
      stored-IsValid e (ltb→lt _ _ free),
      ground (
        arith,
        total-pending k s,
        stored-submitted e (ltb→lt _ _ free),
        stored-prepared e (ltb→lt _ _ free),
      ),
    )
    | inr full ↦ rw (queue_sqe_full spec op flags ud full) (v, ground (arith, total-pending k s))
  ]
