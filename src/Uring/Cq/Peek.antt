-- ===== src/Uring/Cq/Peek.antt =====
-- `peekCQEvent`: the first completion that is not one of the library's own timeouts.
use go_uring.Base.{
  ℕ, zero, suc, ◌^◌, ◌<◌, ◌≡◌, refl, ap, sym, ◌∙◌, List, [], ◌∷◌, length, Bool, Option, none, some,
  if◌then◌else◌, arith, inl, inr, Bool-cases, true, false,
}
use go_uring.Base.Word.{sub32}
use go_uring.Uring.Entry.{CqEvent}
use go_uring.Uring.Cq.{
  CqRing, Peeked, is_own_timeout, timeout_error, is_nil, peek_cq_event, seen_cqe, event_at,
}
use go_uring.Uring.Cq.Inv.{IsValid, ready, length-ready}
use go_uring.Uring.Cq.Ready.{seen_cqe-IsValid, ready-nil, ready-cons}

-- On the list of ready completions: the library's timeouts at its head are dropped up to the first
-- that failed, whose error is the result; else the first other completion is, and stays.
unfoldable pub peek_list : Bool → List CqEvent → Peeked × List CqEvent
peek_list ext_arg [] = (record { available = 0; cqe = none; err = none }, [])
peek_list ext_arg (c ∷ cs) =
    if is_own_timeout ext_arg c
    then (if is_nil (timeout_error c)
        then peek_list ext_arg cs
        else (record { available = length (c ∷ cs); cqe = none; err = timeout_error c }, cs))
    else (record { available = length (c ∷ cs); cqe = some c; err = none }, c ∷ cs)

-- The outcome of the loop is the one on the list, and the invariant is kept.
abbrev pub Peeks : ℕ → Peeked × List CqEvent → Option (Peeked × CqRing) → Type 0
Peeks k spec none = ⊥
Peeks k spec (some (p, c)) = IsValid k c × ((p, ready (2 ^ k) c) ≡ spec)

-- One round of the loop, on each branch.
module _ (fuel : ℕ) (ext_arg : Bool) (c : CqRing) where
  pub peek_empty :
      sub32 c.k_tail c.k_head ≡ 0
      → peek_cq_event (suc fuel) ext_arg c
        ≡ some (record { available = 0; cqe = none; err = none }, c)
  unfolding peek_cq_event
  peek_empty e = ground arith

  module _ (m : ℕ) (e : sub32 c.k_tail c.k_head ≡ suc m) where
    pub peek_other :
        is_own_timeout ext_arg (event_at c c.k_head) ≡ false
        → peek_cq_event (suc fuel) ext_arg c
          ≡ some (record { available = suc m; cqe = some (event_at c c.k_head); err = none }, c)
    unfolding peek_cq_event
    peek_other own = ground arith

    peek_failed :
        is_own_timeout ext_arg (event_at c c.k_head) ≡ true
        → is_nil (timeout_error (event_at c c.k_head)) ≡ false
        → peek_cq_event (suc fuel) ext_arg c
          ≡ some (
            record { available = suc m; cqe = none; err = timeout_error (event_at c c.k_head) },
            seen_cqe c,
          )
    unfolding peek_cq_event
    peek_failed own failed = ground arith

    peek_again :
        is_own_timeout ext_arg (event_at c c.k_head) ≡ true
        → is_nil (timeout_error (event_at c c.k_head)) ≡ true
        → peek_cq_event (suc fuel) ext_arg c ≡ peek_cq_event fuel ext_arg (seen_cqe c)
    unfolding peek_cq_event
    peek_again own fine = ground arith

-- With more fuel than there are ready completions the loop of `peekCQEvent` ends, and it returns
-- and leaves what the list says: no completion but the library's own timeouts is dropped.
pub peek_cq_event_refines :
    (k fuel : ℕ) (ext_arg : Bool) (c : CqRing)
    → IsValid k c
    → length (ready (2 ^ k) c) < fuel
    → Peeks k (peek_list ext_arg (ready (2 ^ k) c)) (peek_cq_event fuel ext_arg c)
unfolding peek_list
peek_cq_event_refines k zero ext_arg c v h = absurd (omega arith)
peek_cq_event_refines k (suc fuel) ext_arg c v h =
    peek_round (sub32 c.k_tail c.k_head) refl (peek_cq_event_refines k fuel ext_arg (seen_cqe c))
  where
    keep : (m : ℕ) → sub32 c.k_tail c.k_head ≡ suc m → IsValid k (seen_cqe c)
    keep m e = seen_cqe-IsValid v m e

    others :
        (m : ℕ)
        → sub32 c.k_tail c.k_head ≡ suc m
        → suc (length (ready (2 ^ k) (seen_cqe c))) ≡ suc m
    others m e = sym (ap length (ready-cons v m e)) ∙ length-ready k c ∙ e

    peek_round :
        (n : ℕ)
        → sub32 c.k_tail c.k_head ≡ n
        → (IsValid k (seen_cqe c)
            → length (ready (2 ^ k) (seen_cqe c)) < fuel
            → Peeks k
                (peek_list ext_arg (ready (2 ^ k) (seen_cqe c)))
                (peek_cq_event fuel ext_arg (seen_cqe c)))
        → Peeks k (peek_list ext_arg (ready (2 ^ k) c)) (peek_cq_event (suc fuel) ext_arg c)
    peek_round zero e rest =
        rw (ready-nil v e, peek_empty fuel ext_arg c e) (v, ground (arith, ready-nil v e))
    peek_round (suc m) e rest =
        rw (ready-cons v m e) (elim (Bool-cases (is_own_timeout ext_arg (event_at c c.k_head))) [
          | inl own ↦ elim (Bool-cases (is_nil (timeout_error (event_at c c.k_head)))) [
            | inl fine ↦
                rw (own, fine, peek_again fuel ext_arg c m e own fine)
                  (rest (keep m e) (omega (arith, others m e, length-ready k c)))
            | inr failed ↦
                rw (own, failed, peek_failed fuel ext_arg c m e own failed)
                  (keep m e, ground (arith, others m e))
          ]
          | inr other ↦
              rw (other, peek_other fuel ext_arg c m e other)
                (v, ground (arith, others m e, ready-cons v m e))
        ])
