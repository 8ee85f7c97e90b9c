-- ===== src/Reactor/Submitting/Kept.antt =====
-- No submission is forgotten.
use go_uring.Base.{ℕ, ◌<◌, ◌≡◌, refl, Bool, true, ◌⊎◌, inl, inr, arith}
use go_uring.Reactor.Submitting.{
  Holder, caller_stored, publisher, FlagPublisher, flag_taken, FlagState, state, FlagStep, lock,
  store_flag, queue_entries, unlock, take_flag, publisher_lock, submitted, Reach, start, later,
}

-- A submission is under way: the flag is set or the publisher has taken it.
abbrev UnderWay : FlagPublisher → Bool → Type 0
UnderWay p f = (f ≡ true) ⊎ (p ≡ flag_taken)

-- From the store of the flag on, and while an entry is unsubmitted.
abbrev IsKept : FlagState → Type 0
IsKept (state h p f n) =
    (0 < n → UnderWay p f) × (h ≡ caller_stored → UnderWay p f) × (h ≡ publisher → p ≡ flag_taken)

FlagStep-IsKept : {s t : FlagState} → FlagStep s t → IsKept s → IsKept t
FlagStep-IsKept lock k = (k.0, λ e. absurd cc, λ e. absurd cc)
FlagStep-IsKept store_flag k = (λ h. inl refl, λ e. inl refl, λ e. absurd cc)
FlagStep-IsKept (queue_entries added small) k = (λ h. k.1 refl, λ e. absurd cc, λ e. absurd cc)
FlagStep-IsKept unlock k = (k.0, λ e. absurd cc, λ e. absurd cc)
FlagStep-IsKept take_flag k = (λ h. inr refl, λ e. inr refl, λ e. refl)
FlagStep-IsKept publisher_lock k = (k.0, λ e. absurd cc, λ e. refl)
FlagStep-IsKept submitted k = (λ h. absurd (omega arith), λ e. absurd cc, λ e. absurd cc)

Reach-IsKept : {s : FlagState} → Reach s → IsKept s
Reach-IsKept start = (λ h. absurd (omega arith), λ e. absurd cc, λ e. absurd cc)
Reach-IsKept (later r s) = FlagStep-IsKept s (Reach-IsKept r)

-- As long as no `Submit` fails, no entry is forgotten, however callers and publisher interleave:
-- while an entry is queued that no `Submit` has seen, the flag is set, so that the next signal makes
-- the publisher submit, or the publisher has taken the flag and has its `Submit` before it.
pub submission_kept :
    {h : Holder} {p : FlagPublisher} {f : Bool} {n : ℕ}
    → Reach (state h p f n)
    → 0 < n
    → (f ≡ true) ⊎ (p ≡ flag_taken)
submission_kept reach waits = (Reach-IsKept reach).0 waits
