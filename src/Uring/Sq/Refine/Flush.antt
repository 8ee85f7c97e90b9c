-- ===== src/Uring/Sq/Refine/Flush.antt =====
-- `flushSQ`: the loop over the index array, and what the kernel sees after the store of the tail.
use native.Mathlib.Nat.{mod-lt}
use go_uring.Base.{
  ℕ, zero, suc, ◌+◌, ◌-◌, ◌*◌, ◌/◌, ◌%◌, ◌^◌, ◌≤◌, ◌≡◌, refl, ap, ap₂, sym, subst, ◌∙◌, [], ◌∷◌,
  ◌++◌, length, set, length-set, ◌==◌, arith, bit_and, inl, inr, Bool-cases, append-nil,
}
use go_uring.Base.Bits.{bit_and-mask}
use go_uring.Base.Word.{u32_mod, add32}
use go_uring.Base.Window.{window, window-set_next, window-mod, window-add}
use go_uring.Uring.Entry.{zero_entry}
use go_uring.Uring.Sq.{SqRing, publish, flush_sq}
use go_uring.Uring.Sq.Queue.{flush}
use go_uring.Uring.Sq.Inv.{
  IsValid, pending, visible_count, prepared_count, size_bounds, position_slot, slots,
  submitted-window, total-pending,
}

-- Before each round of the loop: `n` positions from `k_head` on are named, `tail` and `sqe_head`
-- stand just past them, and `rounds` more fit.
record Publishing (k n rounds tail : ℕ) (s : SqRing) : Type 0 where
  small : k ≤ 15
  mask : s.k_ring_mask ≡ 2 ^ k - 1
  array_room : 2 ^ k ≤ length s.k_array
  tail_at : tail ≡ add32 s.k_head n
  head_at : s.sqe_head ≡ tail
  fits : n + rounds ≤ 2 ^ k
  named : window 0 s.k_array (2 ^ k) s.k_head n ≡ slots (2 ^ k) s.k_head n

-- one round of the loop
abbrev publish_round : ℕ → SqRing → SqRing
publish_round tail s = record s {
  k_array =
      set s.k_array (bit_and tail s.k_ring_mask * 4 % u32_mod / 4)
        (bit_and s.sqe_head s.k_ring_mask);
  sqe_head = add32 s.sqe_head 1;
}

slots-snoc : (size h n : ℕ) → slots size h (n + 1) ≡ slots size h n ++ (((h + n) % size) ∷ [])
slots-snoc size h zero = ap (λ t. (t % size) ∷ []) (omega arith)
slots-snoc size h (suc n) =
    ap (slots size h) {y = suc (n + 1)} (omega arith)
    ∙ ap (λ w. (h % size) ∷ w) (slots-snoc size (suc h) n)
    ∙ ap (λ t. (h % size) ∷ (slots size (suc h) n ++ ((t % size) ∷ []))) {x = suc h + n}
        (omega arith)

publish_round-Publishing :
    {k n rounds tail : ℕ} {s : SqRing}
    → Publishing k n (suc rounds) tail s
    → Publishing k (n + 1) rounds (add32 tail 1) (publish_round tail s)
publish_round-Publishing {k} {n} {rounds} {tail} {s} p = record {
  small = p.small;
  mask = p.mask;
  array_room = omega (
    arith,
    p.array_room,
    length-set s.k_array (bit_and tail s.k_ring_mask * 4 % u32_mod / 4)
        (bit_and s.sqe_head s.k_ring_mask),
  );
  tail_at = omega (arith, p.tail_at);
  head_at = omega (arith, p.head_at);
  fits = omega (arith, p.fits);
  named =
      ap₂ (λ i x. window 0 (set s.k_array i x) (2 ^ k) s.k_head (n + 1)) index value
      ∙ window-set_next 0 s.k_array (2 ^ k) s.k_head n ((s.k_head + n) % 2 ^ k)
          (omega (arith, p.fits)) p.array_room
      ∙ ap (λ w. w ++ (((s.k_head + n) % 2 ^ k) ∷ [])) p.named
      ∙ sym (slots-snoc (2 ^ k) s.k_head n);
}
  where
    masked : (t : ℕ) → t ≡ tail → bit_and t s.k_ring_mask ≡ (s.k_head + n) % 2 ^ k
    masked t e =
        ap₂ bit_and e p.mask
        ∙ bit_and-mask k tail
        ∙ position_slot k s.k_head n tail p.small p.tail_at

    index : bit_and tail s.k_ring_mask * 4 % u32_mod / 4 ≡ (s.k_head + n) % 2 ^ k
    index =
        omega (arith, masked tail refl, size_bounds k p.small, mod-lt (s.k_head + n) {m = 2 ^ k})

    value : bit_and s.sqe_head s.k_ring_mask ≡ (s.k_head + n) % 2 ^ k
    value = masked s.sqe_head p.head_at

-- What the loop leaves: the index array names all positions, and nothing else has changed.
record Published (k n rounds tail : ℕ) (s : SqRing) (out : ℕ × SqRing) : Type 0 where
  end : Publishing k (n + rounds) 0 out.0 out.1
  same : record out.1 { k_array = s.k_array; sqe_head = s.sqe_head } ≡ s

publish-Published :
    {k : ℕ} (n rounds tail : ℕ) (s : SqRing)
    → Publishing k n rounds tail s
    → Published k n rounds tail s (publish rounds tail s)
unfolding publish
publish-Published {k} n zero tail s p = record {
  end = subst (λ m. Publishing k m 0 tail s) (omega arith) p;
  same = refl;
}
publish-Published {k} n (suc rounds) tail s p =
    let rest =
      publish-Published (n + 1) rounds (add32 tail 1) (publish_round tail s)
        (publish_round-Publishing p) in
    record {
      end = subst (λ m. Publishing k m 0 rest_out.0 rest_out.1) (omega arith) rest.end;
      same =
          ap {B = SqRing} (λ (t : SqRing). record t { k_array = s.k_array; sqe_head = s.sqe_head })
            rest.same;
    }
  where
    rest_out : ℕ × SqRing
    rest_out = publish rounds (add32 tail 1) (publish_round tail s)

module _ {k : ℕ} {s : SqRing} (v : IsValid k s) where
  open v use {small, room}

  abbrev visible : ℕ
  visible = visible_count s

  abbrev fresh : ℕ
  fresh = prepared_count s

  start : Publishing k visible fresh s.k_tail s
  start = record {
    small = small;
    mask = v.mask;
    array_room = v.array_room;
    tail_at = omega (arith, v.head_word, v.tail_word);
    head_at = v.aligned;
    fits = room;
    named = v.named;
  }

  abbrev out : ℕ × SqRing
  out = publish fresh s.k_tail s

  abbrev flushed : SqRing
  flushed = record out.1 { k_tail = out.0 }

  done : Published k visible fresh s.k_tail s out
  done = publish-Published visible fresh s.k_tail s start

  open done use {end, same}

  -- What the loop has left alone.
  same_head : out.1.k_head ≡ s.k_head
  same_head = ap (λ (t : SqRing). t.k_head) same

  same_sqe_tail : out.1.sqe_tail ≡ s.sqe_tail
  same_sqe_tail = ap (λ (t : SqRing). t.sqe_tail) same

  same_buff : out.1.sqe_buff ≡ s.sqe_buff
  same_buff = ap (λ (t : SqRing). t.sqe_buff) same

  all_visible : visible_count flushed ≡ visible + fresh
  all_visible = omega (arith, end.tail_at, size_bounds k small, room, same_head, v.head_word)

  none_prepared : prepared_count flushed ≡ 0
  none_prepared = omega (
    arith,
    end.tail_at,
    end.head_at,
    same_head,
    same_sqe_tail,
    v.aligned,
    v.head_word,
    v.tail_word,
    v.sqe_tail_word,
    size_bounds k small,
  )

  flushed-IsValid : IsValid k flushed
  flushed-IsValid = record {
    small = small;
    entries = ap (λ (t : SqRing). t.k_ring_entries) same ∙ v.entries;
    mask = end.mask;
    array_room = end.array_room;
    buff_room = omega (arith, v.buff_room, ap length same_buff);
    head_word = omega (arith, same_head, v.head_word);
    tail_word = omega (arith, end.tail_at);
    sqe_tail_word = omega (arith, same_sqe_tail, v.sqe_tail_word);
    aligned = end.head_at;
    room = omega (arith, all_visible, none_prepared, room);
    named = rw all_visible end.named;
  }

  -- The positions are those that were visible, then those that were prepared.
  flushed-submitted :
      (pending (2 ^ k) flushed).submitted
      ≡ (pending (2 ^ k) s).submitted ++ (pending (2 ^ k) s).prepared
  flushed-submitted =
      submitted-window flushed-IsValid
      ∙ ap (window zero_entry out.1.sqe_buff (2 ^ k) out.1.k_head) all_visible
      ∙ ap₂ (λ b h. window zero_entry b (2 ^ k) h (visible + fresh)) same_buff same_head
      ∙ window-add zero_entry s.sqe_buff (2 ^ k) s.k_head visible fresh
      ∙ ap₂ ◌++◌ (sym (submitted-window v)) (
          window-mod zero_entry s.sqe_buff (2 ^ k) (s.k_head + visible) s.sqe_head fresh (
            sym (
              position_slot k s.k_head visible s.sqe_head small
                (omega (arith, v.head_word, v.tail_word, v.aligned)))))

  flushed-pending : pending (2 ^ k) flushed ≡ record {
    submitted = (pending (2 ^ k) s).submitted ++ (pending (2 ^ k) s).prepared;
    prepared = [];
  }
  flushed-pending = ground (
    arith,
    flushed-submitted,
    ap (window zero_entry out.1.sqe_buff (2 ^ k) out.1.sqe_head) none_prepared,
  )

  -- `flushSQ` is `flush`: it makes all prepared entries visible to the kernel, behind those that
  -- were visible and in the order in which they were queued, and returns how many are visible.
  -- The invariant is kept.
  pub flush_sq_refines :
      let (r, s') = flush_sq s in
      IsValid k s' × ((r, pending (2 ^ k) s') ≡ flush (pending (2 ^ k) s))
  unfolding flush_sq
  flush_sq_refines = elim (Bool-cases (fresh == 0)) [
    | inl idle ↦
        rw idle
          (v, ground (arith, idle, total-pending k s, append-nil (pending (2 ^ k) s).submitted))
    | inr busy ↦
        rw busy (flushed-IsValid, ground (arith, flushed-pending, total-pending k s, all_visible))
  ]
