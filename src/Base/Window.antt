-- ===== src/Base/Window.antt =====
-- The elements of a ring buffer of `size` slots, from the position `h` on. Positions are not
-- reduced here: the slot of a position is its remainder.
use native.Mathlib.Nat.{mod-add-mod, mod-eq_of_lt, mod-eq-sub-mod, mod-lt, suc-mod}
use go_uring.Base.{
  ℕ, zero, suc, ◌+◌, ◌-◌, ◌%◌, ◌≤◌, ◌<◌, min, ◌≡◌, ◌≢◌, refl, sym, ap, ap₂, ◌∙◌, List, [], ◌∷◌,
  ◌++◌, length, get_or, set, take, drop, get_or-set_self, get_or-set_ne, dec_lt, arith,
}

move-mod-ne : (size r d : ℕ) → r < size → 0 < d → d < size → (r + d) % size ≢ r
move-mod-ne size r d p q s = elim (dec_lt (r + d) size) [
  | yes below ↦ omega (arith, mod-eq_of_lt below)
  | no over ↦ omega (
    arith,
    mod-eq-sub-mod {n = r + d} {m = size} (omega arith),
    mod-eq_of_lt {n = r + d - size} {m = size} (omega arith),
  )
]

-- Fewer than `size` steps round the ring do not come back to the start.
pub slot-ne : (size h i j : ℕ) → i < j → j < i + size → (h + i) % size ≢ (h + j) % size
slot-ne size h i j p q e =
    move-mod-ne size ((h + i) % size) (j - i) (mod-lt (h + i) (omega arith)) (omega arith)
      (omega arith) (mod-add-mod (h + i) size (j - i) ∙ ap (λ t. t % size) (omega arith) ∙ sym e)

pub slot-suc : (size h h' : ℕ) → h % size ≡ h' % size → suc h % size ≡ suc h' % size
slot-suc size h h' e = suc-mod h size ∙ ap (λ t. suc t % size) e ∙ sym (suc-mod h' size)

module _ {ℓ} {A : Type ℓ} (d : A) where
  abbrev pub window : List A → ℕ → ℕ → ℕ → List A
  window buf size h zero = []
  window buf size h (suc n) = get_or buf (h % size) d ∷ window buf size (suc h) n

  pub length-window : (buf : List A) (size h n : ℕ) → length (window buf size h n) ≡ n
  length-window buf size h zero = refl
  length-window buf size h (suc n) = ap suc (length-window buf size (suc h) n)

  pub window-mod :
      (buf : List A) (size h h' n : ℕ)
      → h % size ≡ h' % size
      → window buf size h n ≡ window buf size h' n
  window-mod buf size h h' zero e = refl
  window-mod buf size h h' (suc n) e =
      ap₂ ◌∷◌ (ap (λ i. get_or buf i d) e)
        (window-mod buf size (suc h) (suc h') n (slot-suc size h h' e))

  pub window-add :
      (buf : List A) (size h m n : ℕ)
      → window buf size h (m + n) ≡ window buf size h m ++ window buf size (h + m) n
  window-add buf size h zero n = ground arith
  window-add buf size h (suc m) n =
      ap (window buf size h) {y = suc (m + n)} (omega arith)
      ∙ ap (λ w. get_or buf (h % size) d ∷ w) (window-add buf size (suc h) m n)
      ∙ ap (λ t. window buf size h (suc m) ++ window buf size t n) {x = suc h + m} (omega arith)

  pub take-window :
      (buf : List A) (size h m n : ℕ) → take m (window buf size h n) ≡ window buf size h (min m n)
  take-window buf size h zero n = ground arith
  take-window buf size h (suc m) zero = ap (window buf size h) {x = 0} (omega arith)
  take-window buf size h (suc m) (suc n) =
      ap (λ w. get_or buf (h % size) d ∷ w) (take-window buf size (suc h) m n)
      ∙ ap (window buf size h) {x = suc (min m n)} (omega arith)

  pub drop-window :
      (buf : List A) (size h m n : ℕ)
      → drop m (window buf size h n) ≡ window buf size (h + m) (n - m)
  drop-window buf size h zero n = ground arith
  drop-window buf size h (suc m) zero = ground arith
  drop-window buf size h (suc m) (suc n) = ground (arith, drop-window buf size (suc h) m n)

  -- A write that lies past the window, but less than one round past its start, is not seen.
  pub window-set_past :
      (buf : List A) (size h n e : ℕ) (x : A)
      → n ≤ e
      → e < size
      → window (set buf ((h + e) % size) x) size h n ≡ window buf size h n
  window-set_past buf size h zero e x p q = refl
  window-set_past buf size h (suc n) e x p q =
      ap₂ ◌∷◌ (get_or-set_ne buf ((h + e) % size) (h % size) x d (λ c. ahead (sym c))) (
        ap (λ t. window (set buf (t % size) x) size (suc h) n) shift
        ∙ window-set_past buf size (suc h) n (e - 1) x (omega arith) (omega arith))
    where
      ahead : h % size ≢ (h + e) % size
      ahead c =
          slot-ne size h 0 e (omega arith) (omega arith) (ap (λ t. t % size) (omega arith) ∙ c)

      shift : h + e ≡ suc h + (e - 1)
      shift = omega arith

  -- A write just past the window extends it.
  pub window-set_next :
      (buf : List A) (size h n : ℕ) (x : A)
      → n < size
      → size ≤ length buf
      → window (set buf ((h + n) % size) x) size h (n + 1) ≡ window buf size h n ++ (x ∷ [])
  window-set_next buf size h n x p q =
      window-add (set buf ((h + n) % size) x) size h n 1
      ∙ ap₂ ◌++◌ (window-set_past buf size h n n x (omega arith) p) (ap (λ y. y ∷ []) stored)
    where
      stored : get_or (set buf ((h + n) % size) x) ((h + n) % size) d ≡ x
      stored = get_or-set_self buf ((h + n) % size) x d (omega (arith, mod-lt (h + n) {m = size}))
