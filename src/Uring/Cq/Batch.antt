-- ===== src/Uring/Cq/Batch.antt =====
-- `peekCQEventBatch` and `readyCount`.
use go_uring.Base.{
  ℕ, zero, suc, ◌+◌, ◌%◌, ◌^◌, ◌≤◌, ◌<◌, ◌≡◌, ◌≢◌, refl, ap, ap₂, sym, ◌∙◌, List, [], ◌∷◌, ◌++◌,
  map, length, Option, some, min, take, drop, set, length-set, take-set-suc, drop-set_past,
  take-append-drop, append_assoc, ◌==◌, if◌then◌else◌, arith, inl, inr, Bool-cases,
}
use mathlib.Core.Option
use go_uring.Base.Word.{u32_mod, add32, sub32}
use go_uring.Base.Window.{window, window-mod, take-window}
use go_uring.Uring.Entry.{CqEvent, zero_event}
use go_uring.Uring.Cq.{CqRing, event_at, fill_batch, peek_cq_event_batch}
use go_uring.Uring.Cq.Inv.{IsValid, ready, size_bounds, position_slot, event_at-slot, length-ready}

module _ {k : ℕ} {c : CqRing} (v : IsValid k c) where
  open v use {small, room}

  abbrev count : ℕ
  count = sub32 c.k_tail c.k_head

  -- The entries of the `n` positions from `h` on.
  abbrev events : ℕ → ℕ → List CqEvent
  events h n = window zero_event c.cqes (2 ^ k) h n

  -- One round, on both branches.
  fill_stop :
      (fuel h last i : ℕ) (buff : List (Option CqEvent))
      → h ≡ last
      → fill_batch (suc fuel) c h last i buff ≡ some buff
  unfolding fill_batch
  fill_stop fuel h last i buff e = ground arith

  fill_next :
      (fuel h last i : ℕ) (buff : List (Option CqEvent))
      → h ≢ last
      → fill_batch (suc fuel) c h last i buff
        ≡ fill_batch fuel c (add32 h 1) last (i + 1) (set buff i (some (event_at c h)))
  unfolding fill_batch
  fill_next fuel h last i buff e = ground arith

  -- The buffer after a round and the rounds that follow it.
  regroup :
      (h n i : ℕ) (buff : List (Option CqEvent))
      → i + suc n ≤ length buff
      → let buff' = set buff i (some (event_at c h)) in
        take (i + 1) buff' ++ (map some (events (add32 h 1) n) ++ drop (i + 1 + n) buff')
        ≡ take i buff ++ (map some (events h (suc n)) ++ drop (i + suc n) buff)
  regroup h n i buff s =
      ap₂ ◌++◌
        (ap (λ j. take j (set buff i (some (event_at c h)))) {y = suc i} (omega arith)
          ∙ take-set-suc buff i (some (event_at c h)) (omega arith))
        (ap₂ (λ w d. map some w ++ d)
          (window-mod zero_event c.cqes (2 ^ k) (add32 h 1) (suc h) n
            (position_slot k h 1 (add32 h 1) small refl ∙ ap (λ t. t % 2 ^ k) (omega arith)))
          (drop-set_past buff i (i + 1 + n) (some (event_at c h)) (omega arith)
            ∙ ap (λ j. drop j buff) (omega arith)))
      ∙ append_assoc (take i buff) (some (event_at c h) ∷ [])
          (map some (events (suc h) n) ++ drop (i + suc n) buff)
      ∙ ap (λ e. take i buff ++ (some e ∷ (map some (events (suc h) n) ++ drop (i + suc n) buff)))
          (event_at-slot v h)

  -- The loop puts the events into the buffer from the index `i` on, and leaves the rest.
  fill_batch_lem :
      (fuel h n i : ℕ) (buff : List (Option CqEvent))
      → h < u32_mod
      → n < fuel
      → n ≤ 2 ^ k
      → i + n ≤ length buff
      → fill_batch fuel c h (add32 h n) i buff
        ≡ some (take i buff ++ (map some (events h n) ++ drop (i + n) buff))
  fill_batch_lem zero h n i buff p q r s = absurd (omega arith)
  fill_batch_lem (suc fuel) h zero i buff p q r s =
      fill_stop fuel h (add32 h 0) i buff (omega arith)
      ∙ ap some (sym (ap (λ j. take i buff ++ drop j buff) (omega arith) ∙ take-append-drop i buff))
  fill_batch_lem (suc fuel) h (suc n) i buff p q r s =
      fill_next fuel h (add32 h (suc n)) i buff (omega (arith, size_bounds k small))
      ∙ ap (λ last. fill_batch fuel c (add32 h 1) last (i + 1) (set buff i (some (event_at c h))))
          {y = add32 (add32 h 1) n} (omega arith)
      ∙ fill_batch_lem fuel (add32 h 1) n (i + 1) (set buff i (some (event_at c h))) (omega arith)
          (omega arith) (omega arith) (omega (arith, length-set buff i (some (event_at c h))))
      ∙ ap some (regroup h n i buff s)

  module _ (buff : List (Option CqEvent)) (h : length buff < u32_mod) where
    abbrev amount : ℕ
    amount = min (length buff) count

    abbrev filled : ℕ → List (Option CqEvent)
    filled n = map some (events c.k_head n) ++ drop n buff

    batch_cases : peek_cq_event_batch c buff ≡ (
        if count == 0
        then some (amount, buff)
        else Option.map
            (λ b. (amount, b))
            (fill_batch (suc (length buff)) c c.k_head (add32 c.k_head amount) 0 buff))
    unfolding peek_cq_event_batch
    batch_cases =
        ap {A = ℕ}
          (λ n.
            if count == 0
            then some (n, buff)
            else Option.map (λ b. (n, b))
                (fill_batch (suc (length buff)) c c.k_head (add32 c.k_head n) 0 buff))
          {y = amount} (ground arith)

    batch_filled : peek_cq_event_batch c buff ≡ some (amount, filled amount)
    batch_filled = elim (Bool-cases (count == 0)) [
      | inl empty ↦
          batch_cases
          ∙ rw empty (ap (λ b. some (amount, b)) (ap filled {x = 0} {y = amount} (ground arith)))
      | inr more ↦
          batch_cases
          ∙ rw more (
              ap (Option.map (λ b. (amount, b))) (
                fill_batch_lem (suc (length buff)) c.k_head amount 0 buff v.head_word (omega arith)
                  (omega arith) (omega arith))
              ∙ ap (λ n. some (amount, map some (events c.k_head amount) ++ drop n buff))
                  (omega arith))
    ]

    -- `peekCQEventBatch` returns as many completions as are ready and fit the buffer, oldest first,
    -- at the front of the buffer, whose rest it leaves. Its loop ends.
    pub peek_cq_event_batch_lem :
        let n = min (length buff) (length (ready (2 ^ k) c)) in
        peek_cq_event_batch c buff ≡ some (n, map some (take n (ready (2 ^ k) c)) ++ drop n buff)
    peek_cq_event_batch_lem =
        batch_filled
        ∙ ap₂ (λ n w. some (n, map some w ++ drop n buff)) (omega (arith, length-ready k c))
            (ap (events c.k_head) {y = min all count} (omega (arith, length-ready k c))
              ∙ sym (take-window zero_event c.cqes (2 ^ k) c.k_head all count))
      where
        all : ℕ
        all = min (length buff) (length (ready (2 ^ k) c))
