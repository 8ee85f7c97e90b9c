-- ===== src/Uring/Cq/Inv.antt =====
-- The representation invariant of the completion queue, and the list that it stands for.
use native.Mathlib.Nat.{pow-le-pow_right, one-le-pow}
use go_uring.Base.{
  ℕ, ◌+◌, ◌-◌, ◌%◌, ◌^◌, ◌≤◌, ◌<◌, ◌≡◌, ap, ◌∙◌, List, bit_and, length, get_or, arith,
}
use go_uring.Base.Bits.{bit_and-mask}
use go_uring.Base.Word.{u32_mod, add32, sub32, u32-mod-two_pow}
use go_uring.Base.Window.{window, length-window}
use go_uring.Uring.Entry.{CqEvent, zero_event}
use go_uring.Uring.Cq.{CqRing, event_at}

-- The completions that the program has not seen yet, oldest first.
abbrev pub ready : ℕ → CqRing → List CqEvent
ready size c = window zero_event c.cqes size c.k_head (sub32 c.k_tail c.k_head)

-- A ring of `2 ^ k` entries; the kernel allows twice `MaxEntries`.
pub record IsValid (k : ℕ) (c : CqRing) : Type 0 where
  pub small : k ≤ 16
  pub entries : c.k_ring_entries ≡ 2 ^ k
  pub mask : c.k_ring_mask ≡ 2 ^ k - 1
  pub memory : 2 ^ k ≤ length c.cqes
  pub head_word : c.k_head < u32_mod
  pub tail_word : c.k_tail < u32_mod
  pub room : sub32 c.k_tail c.k_head ≤ 2 ^ k

pub size_bounds : (k : ℕ) → k ≤ 16 → (1 ≤ 2 ^ k) × (2 ^ k ≤ 2 ^ 16)
size_bounds k h = (one-le-pow k 2 (omega arith), pow-le-pow_right (omega arith) h)

pub position_slot : (k h n t : ℕ) → k ≤ 16 → t ≡ add32 h n → t % 2 ^ k ≡ (h + n) % 2 ^ k
position_slot k h n t small e = ap (λ a. a % 2 ^ k) e ∙ u32-mod-two_pow k (h + n) (omega arith)

pub mask_slot : {k : ℕ} {c : CqRing} → IsValid k c → (p : ℕ) → bit_and p c.k_ring_mask ≡ p % 2 ^ k
mask_slot {k} {c} v p = ap (bit_and p) v.mask ∙ bit_and-mask k p

pub event_at-slot :
    {k : ℕ} {c : CqRing}
    → IsValid k c
    → (p : ℕ) → event_at c p ≡ get_or c.cqes (p % 2 ^ k) zero_event
unfolding event_at
event_at-slot {k} {c} v p = ap (λ i. get_or c.cqes i zero_event) (mask_slot v p)

pub length-ready : (k : ℕ) (c : CqRing) → length (ready (2 ^ k) c) ≡ sub32 c.k_tail c.k_head
length-ready k c = length-window zero_event c.cqes (2 ^ k) c.k_head (sub32 c.k_tail c.k_head)
