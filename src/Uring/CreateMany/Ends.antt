-- ===== src/Uring/CreateMany/Ends.antt =====
-- A property of the results of the parts of `CreateMany` that leave no error.
use go_uring.Base.{◌⊎◌, inl, inr}
use go_uring.Uring.Setup.{and_then}
use go_uring.Uring.CreateMany.{RingError}

-- A result, if it is no error, satisfies `P`.
unfoldable pub Ends : {K X : Type 0} → (X → Type 0) → (RingError ⊎ X) × K → Type 0
Ends P (inl e, w) = Unit
Ends P (inr x, w) = P x

pub and_then-Ends :
    {K X Y : Type 0} (P : X → Type 0) (Q : Y → Type 0) (out : (RingError ⊎ X) × K) (undo : K → K)
    (k : X → K → (RingError ⊎ Y) × K)
    → Ends P out
    → ((x : X) (w : K) → P x → Ends Q (k x w))
    → Ends Q (and_then out undo k)
unfolding Ends and_then
and_then-Ends P Q (inl e, w) undo k h next = tt
and_then-Ends P Q (inr x, w) undo k h next = next x w h

pub map-Ends :
    {K X : Type 0} (P Q : X → Type 0) (out : (RingError ⊎ X) × K)
    → Ends P out
    → ((x : X) → P x → Q x)
    → Ends Q out
unfolding Ends
map-Ends P Q (inl e, w) h f = tt
map-Ends P Q (inr x, w) h f = f x h
