-- ===== src/Uring/Sq/Inv.antt =====
-- The representation invariant of the submission queue, and the lists that it stands for.
use native.Mathlib.Nat.{pow-le-pow_right, one-le-pow, mod-lt}
use go_uring.Base.{
  ℕ, zero, suc, ◌+◌, ◌-◌, ◌%◌, ◌^◌, ◌≤◌, ◌<◌, ◌≡◌, refl, ap, ap₂, ◌∙◌, List, [], ◌∷◌, map, bit_and,
  length, length-map, get_or, arith,
}
use go_uring.Base.Bits.{bit_and-mask}
use go_uring.Base.Word.{u32_mod, add32, sub32, u32-mod-two_pow}
use go_uring.Base.Window.{window, length-window}
use go_uring.Uring.Entry.{SqEntry, zero_entry}
use go_uring.Uring.Sq.{SqRing, sqe_slot}
use go_uring.Uring.Sq.Queue.{Pending, total}

-- The entries that are visible to the kernel, and those that are prepared, as numbers.
abbrev pub visible_count : SqRing → ℕ
visible_count s = sub32 s.k_tail s.k_head

abbrev pub prepared_count : SqRing → ℕ
prepared_count s = sub32 s.sqe_tail s.sqe_head

-- The slots of `n` positions from `h` on.
abbrev pub slots : ℕ → ℕ → ℕ → List ℕ
slots size h zero = []
slots size h (suc n) = (h % size) ∷ slots size (suc h) n

-- What the kernel reads: the entries that the index array names, from `k_head` on.
abbrev pub entry_at : List SqEntry → ℕ → SqEntry
entry_at buff i = get_or buff i zero_entry

abbrev pub pending : ℕ → SqRing → Pending
pending size s = record {
  submitted = map (entry_at s.sqe_buff) (window 0 s.k_array size s.k_head (visible_count s));
  prepared = window zero_entry s.sqe_buff size s.sqe_head (prepared_count s);
}

pub length-submitted : (k : ℕ) (s : SqRing) → length (pending (2 ^ k) s).submitted ≡ visible_count s
length-submitted k s =
    length-map (entry_at s.sqe_buff) (window 0 s.k_array (2 ^ k) s.k_head (visible_count s))
    ∙ length-window 0 s.k_array (2 ^ k) s.k_head (visible_count s)

pub total-pending :
    (k : ℕ) (s : SqRing) → total (pending (2 ^ k) s) ≡ visible_count s + prepared_count s
total-pending k s =
    ap₂ ◌+◌ (length-submitted k s)
      (length-window zero_entry s.sqe_buff (2 ^ k) s.sqe_head (prepared_count s))

-- A ring of `2 ^ k` entries. The index array holds, for each visible position, its own slot.
pub record IsValid (k : ℕ) (s : SqRing) : Type 0 where
  pub small : k ≤ 15
  pub entries : s.k_ring_entries ≡ 2 ^ k
  pub mask : s.k_ring_mask ≡ 2 ^ k - 1
  pub array_room : 2 ^ k ≤ length s.k_array
  pub buff_room : 2 ^ k ≤ length s.sqe_buff
  pub head_word : s.k_head < u32_mod
  pub tail_word : s.k_tail < u32_mod
  pub sqe_tail_word : s.sqe_tail < u32_mod
  pub aligned : s.sqe_head ≡ s.k_tail
  pub room : visible_count s + prepared_count s ≤ 2 ^ k
  pub named :
      window 0 s.k_array (2 ^ k) s.k_head (visible_count s)
      ≡ slots (2 ^ k) s.k_head (visible_count s)

-- `MaxEntries`, as a bound on the size.
pub size_bounds : (k : ℕ) → k ≤ 15 → (1 ≤ 2 ^ k) × (2 ^ k ≤ 2 ^ 15)
size_bounds k h = (one-le-pow k 2 (omega arith), pow-le-pow_right (omega arith) h)

-- A position that wrapped at 2^32 lies in the slot of the position that did not.
pub position_slot : (k h n t : ℕ) → k ≤ 15 → t ≡ add32 h n → t % 2 ^ k ≡ (h + n) % 2 ^ k
position_slot k h n t small e = ap (λ a. a % 2 ^ k) e ∙ u32-mod-two_pow k (h + n) (omega arith)

-- What the program indexes by: position `&` mask is the slot, and no byte offset wraps.
pub mask_slot : {k : ℕ} {s : SqRing} → IsValid k s → (p : ℕ) → bit_and p s.k_ring_mask ≡ p % 2 ^ k
mask_slot {k} {s} v p = ap (bit_and p) v.mask ∙ bit_and-mask k p

-- What is visible is what the entries say, since each position names its own slot.
pub map-slots :
    (buff : List SqEntry) (size h n : ℕ)
    → map (entry_at buff) (slots size h n) ≡ window zero_entry buff size h n
map-slots buff size h zero = refl
map-slots buff size h (suc n) =
    ap (λ w. entry_at buff (h % size) ∷ w) (map-slots buff size (suc h) n)

pub submitted-window :
    {k : ℕ} {s : SqRing}
    → IsValid k s
    → (pending (2 ^ k) s).submitted
      ≡ window zero_entry s.sqe_buff (2 ^ k) s.k_head (visible_count s)
submitted-window {k} {s} v =
    ap (map (entry_at s.sqe_buff)) v.named ∙ map-slots s.sqe_buff (2 ^ k) s.k_head (visible_count s)

pub sqe_slot-mod : {k : ℕ} {s : SqRing} → IsValid k s → sqe_slot s ≡ s.sqe_tail % 2 ^ k
unfolding sqe_slot
sqe_slot-mod {k} {s} v =
    omega (arith, mask_slot v s.sqe_tail, size_bounds k v.small, mod-lt s.sqe_tail {m = 2 ^ k})
