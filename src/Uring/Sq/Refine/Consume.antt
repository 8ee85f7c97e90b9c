-- ===== src/Uring/Sq/Refine/Consume.antt =====
-- The kernel's side: it takes the oldest visible entry, whatever the program does.
use go_uring.Base.{
  ℕ, zero, suc, ◌%◌, ◌^◌, ◌≡◌, refl, ap, ap₂, sym, ◌∙◌, ◌∷◌, map, drop, ◌==◌, arith, inl, inr,
  Bool-cases, true, false,
}
use go_uring.Base.Word.{add32}
use go_uring.Base.Window.{window, window-mod, slot-suc}
use go_uring.Uring.Sq.{SqRing, consume}
use go_uring.Uring.Sq.Queue.{take_oldest}
use go_uring.Uring.Sq.Inv.{IsValid, pending, visible_count, position_slot, slots, entry_at}

slots-mod : (size h h' n : ℕ) → h % size ≡ h' % size → slots size h n ≡ slots size h' n
slots-mod size h h' zero e = refl
slots-mod size h h' (suc n) e = ap₂ ◌∷◌ e (slots-mod size (suc h) (suc h') n (slot-suc size h h' e))

module _ {k : ℕ} {s : SqRing} (v : IsValid k s) where
  open v use {small, room}

  abbrev consumed : SqRing
  consumed = record s { k_head = add32 s.k_head 1 }

  abbrev left : ℕ
  left = visible_count consumed

  none_visible : (s.k_head == s.k_tail) ≡ true → visible_count s ≡ 0
  none_visible h = ground (arith, v.head_word, v.tail_word)

  one_less : (s.k_head == s.k_tail) ≡ false → visible_count s ≡ suc (visible_count consumed)
  one_less h = ground (arith, v.head_word, v.tail_word)

  head_slot : add32 s.k_head 1 % 2 ^ k ≡ suc s.k_head % 2 ^ k
  head_slot =
      position_slot k s.k_head 1 (add32 s.k_head 1) small refl ∙ ap (λ t. t % 2 ^ k) (omega arith)

  consumed-IsValid : (s.k_head == s.k_tail) ≡ false → IsValid k consumed
  consumed-IsValid h = record {
    small = small;
    entries = v.entries;
    mask = v.mask;
    array_room = v.array_room;
    buff_room = v.buff_room;
    head_word = omega arith;
    tail_word = v.tail_word;
    sqe_tail_word = v.sqe_tail_word;
    aligned = v.aligned;
    room = omega (arith, one_less h, room);
    named =
        window-mod 0 s.k_array (2 ^ k) (add32 s.k_head 1) (suc s.k_head) left head_slot
        ∙ ap (λ n. drop 1 (window 0 s.k_array (2 ^ k) s.k_head n)) (sym (one_less h))
        ∙ ap (drop 1) v.named
        ∙ ap (λ n. drop 1 (slots (2 ^ k) s.k_head n)) (one_less h)
        ∙ sym (slots-mod (2 ^ k) (add32 s.k_head 1) (suc s.k_head) left head_slot);
  }

  consumed-submitted :
      (s.k_head == s.k_tail) ≡ false
      → (pending (2 ^ k) consumed).submitted ≡ drop 1 (pending (2 ^ k) s).submitted
  consumed-submitted h =
      ap (map (entry_at s.sqe_buff))
        (window-mod 0 s.k_array (2 ^ k) (add32 s.k_head 1) (suc s.k_head) left head_slot)
      ∙ ap (λ n. drop 1 (map (entry_at s.sqe_buff) (window 0 s.k_array (2 ^ k) s.k_head n)))
          (sym (one_less h))

  -- The kernel consumes the oldest visible entry and no other, and the invariant is kept.
  pub consume_refines :
      IsValid k (consume s) × (pending (2 ^ k) (consume s) ≡ take_oldest (pending (2 ^ k) s))
  unfolding consume
  consume_refines = elim (Bool-cases (s.k_head == s.k_tail)) [
    | inl idle ↦ rw idle (
      v,
      ground (
        arith,
        ap (λ n. map (entry_at s.sqe_buff) (window 0 s.k_array (2 ^ k) s.k_head n))
            (none_visible idle),
      ),
    )
    | inr busy ↦ rw busy (consumed-IsValid busy, ground (arith, consumed-submitted busy))
  ]
