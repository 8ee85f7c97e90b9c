-- ===== src/Uring/Cq.antt =====
-- uring/ring.go: the completion queue. The kernel moves `k_tail` and writes the entries, the
-- program moves `k_head`.
pub mod Inv
pub mod Ready
pub mod Peek
pub mod Batch
mod Tests
use mathlib.Core.Option
use go_uring.Base.{
  ℕ, zero, suc, ◌+◌, List, Option, none, some, Bool, true, false, bit_and, ltb, ◌==◌, not, ◌&&◌,
  if◌then◌else◌, get_or, set, length,
}
use go_uring.Base.Word.{add32, sub32}
use go_uring.Uring.Entry.{CqEvent, zero_event, event_error, is_neg32, to_u32, lib_user_data_timeout}

-- `cq`, with what its pointers point to.
pub record CqRing : Type 0 where
  pub k_head : ℕ
  pub k_tail : ℕ
  pub k_ring_mask : ℕ
  pub k_ring_entries : ℕ
  pub k_overflow : ℕ
  pub cqes : List CqEvent

unfoldable pub ready_count : CqRing → ℕ
ready_count c = sub32 c.k_tail c.k_head

-- `AdvanceCQ`
unfoldable pub advance_cq : ℕ → CqRing → CqRing
advance_cq n c = record c { k_head = add32 c.k_head n }

-- `SeenCQE`
unfoldable pub seen_cqe : CqRing → CqRing
unfolding advance_cq
seen_cqe c = advance_cq 1 c

-- The entry at a position.
unfoldable pub event_at : CqRing → ℕ → CqEvent
event_at c head = get_or c.cqes (bit_and head c.k_ring_mask) zero_event

-- What `peekCQEvent` returns: the number of entries, the first one, the error.
pub record Peeked : Type 0 where
  pub available : ℕ
  pub cqe : Option CqEvent
  pub err : Option ℕ

-- An entry of one of the library's own timeouts is dropped, and its error, if it has one, ends the
-- loop; `ext_arg` tells that the kernel needs no such timeouts.
abbrev pub is_own_timeout : Bool → CqEvent → Bool
is_own_timeout ext_arg cqe = not ext_arg && (cqe.user_data == lib_user_data_timeout)

abbrev pub timeout_error : CqEvent → Option ℕ
timeout_error cqe = if is_neg32 cqe.res then event_error cqe else none

abbrev pub is_nil : Option ℕ → Bool
is_nil none = true
is_nil (some e) = false

-- The loop of `peekCQEvent`, with fuel: `none` when it runs out.
unfoldable pub peek_cq_event : ℕ → Bool → CqRing → Option (Peeked × CqRing)
unfolding ready_count event_at seen_cqe
peek_cq_event zero ext_arg c = none
peek_cq_event (suc fuel) ext_arg c =
    let available = ready_count c in
    let cqe = event_at c c.k_head in
    let again = peek_cq_event fuel ext_arg (seen_cqe c) in
    let failed =
      some (record { available = available; cqe = none; err = timeout_error cqe }, seen_cqe c) in
    if available == 0
    then some (record { available = 0; cqe = none; err = none }, c)
    else (if is_own_timeout ext_arg cqe
        then (if is_nil (timeout_error cqe) then again else failed)
        else some (record { available = available; cqe = some cqe; err = none }, c))

-- `min` of ring.go
unfoldable pub min_u32 : ℕ → ℕ → ℕ
min_u32 a b = if ltb a b then a else b

-- The loop of `peekCQEventBatch`, from the index `i` of the buffer and the position `head` on.
unfoldable pub fill_batch :
    ℕ → CqRing → ℕ → ℕ → ℕ → List (Option CqEvent) → Option (List (Option CqEvent))
unfolding event_at
fill_batch zero c head last i buff = none
fill_batch (suc fuel) c head last i buff =
    let more =
      fill_batch fuel c (add32 head 1) last (i + 1) (set buff i (some (event_at c head))) in
    if head == last then some buff else more

-- `peekCQEventBatch`: the count, and the buffer of pointers with the entries put in.
unfoldable pub peek_cq_event_batch :
    CqRing → List (Option CqEvent) → Option (ℕ × List (Option CqEvent))
unfolding ready_count min_u32 fill_batch
peek_cq_event_batch c buff =
    let ready = ready_count c in
    let count = min_u32 (to_u32 (length buff)) ready in
    if ready == 0
    then some (count, buff)
    else Option.map (λ b. (count, b))
        (fill_batch (suc (length buff)) c c.k_head (add32 c.k_head count) 0 buff)

-- The kernel posts a completion while there is room.
unfoldable pub post : CqEvent → CqRing → CqRing
unfolding ready_count
post e c =
    if ltb (ready_count c) c.k_ring_entries
    then record c {
      cqes = set c.cqes (bit_and c.k_tail c.k_ring_mask) e;
      k_tail = add32 c.k_tail 1;
    }
    else c
