-- ===== src/Uring/Cq/Ready.antt =====
-- Both ends of the completion queue: the program drops entries at the head, the kernel appends.
use go_uring.Base.{
  ℕ, suc, ◌+◌, ◌-◌, ◌%◌, ◌^◌, ◌≤◌, ◌<◌, ◌≡◌, refl, ap, ap₂, sym, ◌∙◌, [], ◌∷◌, ◌++◌, bit_and,
  length, drop, set, length-set, ltb, ltb→lt, if◌then◌else◌, arith, inl, inr, Bool-cases,
}
use go_uring.Base.Word.{add32, sub32}
use go_uring.Base.Window.{window, window-mod, window-set_next, drop-window}
use go_uring.Uring.Entry.{CqEvent, zero_event}
use go_uring.Uring.Cq.{CqRing, advance_cq, seen_cqe, event_at, post}
use go_uring.Uring.Cq.Inv.{
  IsValid, ready, size_bounds, position_slot, mask_slot, event_at-slot, length-ready,
}

module _ {k : ℕ} {c : CqRing} (v : IsValid k c) where
  open v use {small, room}

  abbrev count : ℕ
  count = sub32 c.k_tail c.k_head

  abbrev moved : ℕ → CqRing
  moved n = record c { k_head = add32 c.k_head n }

  fewer : (n : ℕ) → n ≤ count → sub32 c.k_tail (add32 c.k_head n) ≡ count - n
  fewer n h = omega (arith, v.head_word, v.tail_word)

  moved-IsValid : (n : ℕ) → n ≤ count → IsValid k (moved n)
  moved-IsValid n h = record {
    small = small;
    entries = v.entries;
    mask = v.mask;
    memory = v.memory;
    head_word = omega arith;
    tail_word = v.tail_word;
    room = omega (arith, fewer n h, room);
  }

  moved-ready : (n : ℕ) → n ≤ count → ready (2 ^ k) (moved n) ≡ drop n (ready (2 ^ k) c)
  moved-ready n h =
      ap (window zero_event c.cqes (2 ^ k) (add32 c.k_head n)) (fewer n h)
      ∙ window-mod zero_event c.cqes (2 ^ k) (add32 c.k_head n) (c.k_head + n) (count - n)
          (position_slot k c.k_head n (add32 c.k_head n) small refl)
      ∙ sym (drop-window zero_event c.cqes (2 ^ k) c.k_head n count)

  abbrev posted : CqEvent → CqRing
  posted e = record c {
    cqes = set c.cqes (bit_and c.k_tail c.k_ring_mask) e;
    k_tail = add32 c.k_tail 1;
  }

  one_more : count < 2 ^ k → sub32 (add32 c.k_tail 1) c.k_head ≡ count + 1
  one_more h = omega (arith, size_bounds k small)

  posted-IsValid : (e : CqEvent) → count < 2 ^ k → IsValid k (posted e)
  posted-IsValid e h = record {
    small = small;
    entries = v.entries;
    mask = v.mask;
    memory = omega (arith, v.memory, length-set c.cqes (bit_and c.k_tail c.k_ring_mask) e);
    head_word = v.head_word;
    tail_word = omega arith;
    room = omega (arith, one_more h);
  }

  posted-ready :
      (e : CqEvent) → count < 2 ^ k → ready (2 ^ k) (posted e) ≡ ready (2 ^ k) c ++ (e ∷ [])
  posted-ready e h =
      ap₂ (λ i n. window zero_event (set c.cqes i e) (2 ^ k) c.k_head n) slot (one_more h)
      ∙ window-set_next zero_event c.cqes (2 ^ k) c.k_head count e h v.memory
    where
      slot : bit_and c.k_tail c.k_ring_mask ≡ (c.k_head + count) % 2 ^ k
      slot =
          mask_slot v c.k_tail
          ∙ position_slot k c.k_head count c.k_tail small (omega (arith, v.head_word, v.tail_word))

  post-cases : (e : CqEvent) → post e c ≡ (if ltb count (2 ^ k) then posted e else c)
  unfolding post
  post-cases e = ap (λ n. if ltb count n then posted e else c) v.entries

  -- `AdvanceCQ(n)`, for `n` at most the number of ready completions, drops the `n` oldest and no
  -- other, and keeps the invariant, also where the head wraps at 2^32.
  pub advance_cq_lem :
      (n : ℕ)
      → n ≤ length (ready (2 ^ k) c)
      → IsValid k (advance_cq n c) × (ready (2 ^ k) (advance_cq n c) ≡ drop n (ready (2 ^ k) c))
  unfolding advance_cq
  advance_cq_lem n h =
      let below : n ≤ count = omega (arith, length-ready k c) in
      (moved-IsValid n below, moved-ready n below)

  -- The kernel appends the completion if there is room, and else leaves the queue as it is.
  pub post_lem :
      (e : CqEvent)
      → IsValid k (post e c)
        × (ready (2 ^ k) (post e c) ≡ (
            if ltb (length (ready (2 ^ k) c)) (2 ^ k)
            then ready (2 ^ k) c ++ (e ∷ [])
            else ready (2 ^ k) c))
  post_lem e = elim (Bool-cases (ltb count (2 ^ k))) [
    | inl free ↦
        rw (post-cases e, length-ready k c, free)
          (posted-IsValid e (ltb→lt _ _ free), posted-ready e (ltb→lt _ _ free))
    | inr full ↦ rw (post-cases e, length-ready k c, full) (v, refl)
  ]

  pub ready-nil : count ≡ 0 → ready (2 ^ k) c ≡ []
  ready-nil e = ap (window zero_event c.cqes (2 ^ k) c.k_head) e

  -- The oldest completion is the entry at the head, and the others are what `SeenCQE` leaves.
  pub ready-cons :
      (m : ℕ) → count ≡ suc m → ready (2 ^ k) c ≡ event_at c c.k_head ∷ ready (2 ^ k) (seen_cqe c)
  unfolding seen_cqe
  ready-cons m e =
      ap (window zero_event c.cqes (2 ^ k) c.k_head) e
      ∙ ap₂ ◌∷◌ (sym (event_at-slot v c.k_head)) (
          ap (λ n. drop 1 (window zero_event c.cqes (2 ^ k) c.k_head n)) (sym e)
          ∙ sym (moved-ready 1 (omega arith)))

  pub seen_cqe-IsValid : (m : ℕ) → count ≡ suc m → IsValid k (seen_cqe c)
  unfolding seen_cqe
  seen_cqe-IsValid m e = moved-IsValid 1 (omega arith)
