-- ===== src/Example/Echo/Flights.antt =====
-- Operations in flight, as the entries that were queued for them: how often an entry carries a user
-- data, and how many entries there can be if each user data occurs at most once.
use go_uring.Base.{
  ℕ, zero, suc, ◌+◌, ◌≤◌, ◌<◌, ◌≡◌, refl, List, [], ◌∷◌, ◌++◌, ◌==◌, if◌then◌else◌, length, arith,
}
use go_uring.Uring.Entry.{SqEntry}

abbrev pub All {ℓ κ} : {A : Type ℓ} → (A → Type κ) → List A → Type κ
All P [] = Unit
All P (x ∷ xs) = P x × All P xs

module _ {ℓ κ} {A : Type ℓ} (P : A → Type κ) where
  pub All-append : (xs ys : List A) → All P xs → All P ys → All P (xs ++ ys)
  All-append [] ys p q = q
  All-append (x ∷ xs) ys p q = (p.0, All-append xs ys p.1 q)

  pub All-of_append : (xs ys : List A) → All P (xs ++ ys) → All P xs × All P ys
  All-of_append [] ys p = (tt, p)
  All-of_append (x ∷ xs) ys p = let rest = All-of_append xs ys p.1 in ((p.0, rest.0), rest.1)

-- How many entries carry the user data `ud`.
abbrev pub occ : ℕ → List SqEntry → ℕ
occ ud [] = 0
occ ud (e ∷ es) = (if e.user_data == ud then 1 else 0) + occ ud es

pub occ-append : (ud : ℕ) (xs ys : List SqEntry) → occ ud (xs ++ ys) ≡ occ ud xs + occ ud ys
occ-append ud [] ys = omega arith
occ-append ud (e ∷ es) ys = omega (arith, occ-append ud es ys)

-- The sum of the occurrences of the first `n` numbers.
abbrev occ_below : ℕ → List SqEntry → ℕ
occ_below zero es = 0
occ_below (suc n) es = occ n es + occ_below n es

abbrev pub IsBelow : ℕ → List SqEntry → Type 0
IsBelow n = All (λ (e : SqEntry). e.user_data < n)

occ_below-nil : (n : ℕ) → occ_below n [] ≡ 0
occ_below-nil zero = refl
occ_below-nil (suc n) = omega (arith, occ_below-nil n)

occ_below-past :
    (n : ℕ) (e : SqEntry) (es : List SqEntry)
    → n ≤ e.user_data
    → occ_below n (e ∷ es) ≡ occ_below n es
occ_below-past zero e es h = refl
occ_below-past (suc n) e es h = ground (arith, occ_below-past n e es (omega arith))

occ_below-cons :
    (n : ℕ) (e : SqEntry) (es : List SqEntry)
    → e.user_data < n
    → occ_below n (e ∷ es) ≡ suc (occ_below n es)
occ_below-cons zero e es h = absurd (omega arith)
occ_below-cons (suc n) e es h = ground (arith, occ_below-past n e es, occ_below-cons n e es)

length-occ_below : (n : ℕ) (es : List SqEntry) → IsBelow n es → length es ≡ occ_below n es
length-occ_below n [] h = omega (arith, occ_below-nil n)
length-occ_below n (e ∷ es) h = omega (arith, occ_below-cons n e es h.0, length-occ_below n es h.1)

occ_below-le : (n : ℕ) (es : List SqEntry) → ((ud : ℕ) → occ ud es ≤ 1) → occ_below n es ≤ n
occ_below-le zero es h = omega arith
occ_below-le (suc n) es h = omega (arith, h n, occ_below-le n es h)

-- Different numbers below `n` are at most `n`.
pub length-le-bound :
    (n : ℕ) (es : List SqEntry) → IsBelow n es → ((ud : ℕ) → occ ud es ≤ 1) → length es ≤ n
length-le-bound n es below once = omega (arith, length-occ_below n es below, occ_below-le n es once)
