-- ===== src/Base/Bits.antt =====
-- `&` with a mask of low ones is a remainder, `|` of disjoint fields is a sum, and `&` with a
-- single flag reads one digit, at every width.
use Prim.Native.Nat.{bitwise, digits, bit_and-bitwise, bit_or-bitwise, max}
use native.Mathlib.Nat.{two-pow-succ, one-le-pow, le_refl, div-div-eq-div-mul}
use go_uring.Base.{
  ℕ, zero, suc, ◌+◌, ◌-◌, ◌*◌, ◌/◌, ◌%◌, ◌^◌, ◌≤◌, ◌<◌, min, bit_and, bit_or, ◌≡◌, refl, ap, ◌∙◌,
  arith,
}

-- Any fuel that covers the first number gives the same digits.
module _ (low : ℕ → ℕ) (op : ℕ → ℕ → ℕ) where
  same_digits : (p q a b : ℕ) → a ≤ p → a ≤ q → digits low op p a b ≡ digits low op q a b
  same_digits zero zero zero b h k = refl
  same_digits zero (suc q) zero b h k = refl
  same_digits (suc p) zero zero b h k = refl
  same_digits (suc p) (suc q) zero b h k = refl
  same_digits zero q (suc a) b h k = absurd (omega arith)
  same_digits (suc p) zero (suc a) b h k = absurd (omega arith)
  same_digits (suc p) (suc q) (suc a) b h k =
      ap (λ d. d * 2 + op (suc a % 2) (b % 2))
        (same_digits p q (suc a / 2) (b / 2) (omega arith) (omega arith))

  lowest_digit :
      (a b : ℕ)
      → bitwise low op (suc a) b ≡ bitwise low op (suc a / 2) (b / 2) * 2 + op (suc a % 2) (b % 2)
  lowest_digit a b =
      omega (arith, same_digits a (suc a / 2) (suc a / 2) (b / 2) (omega arith) (le_refl _))

bit_and_digit : (a b : ℕ) → bit_and a b ≡ bit_and (a / 2) (b / 2) * 2 + min (a % 2) (b % 2)
bit_and_digit zero b = simp bit_and-bitwise (omega arith)
bit_and_digit (suc a) b = simp bit_and-bitwise (lowest_digit (λ d. 0) min a b)

bit_or_digit : (a b : ℕ) → bit_or a b ≡ bit_or (a / 2) (b / 2) * 2 + max (a % 2) (b % 2)
bit_or_digit zero b = simp bit_or-bitwise (omega arith)
bit_or_digit (suc a) b = simp bit_or-bitwise (lowest_digit (λ d. d) max a b)

bit_and-zero_fuel : (n a : ℕ) → a ≤ n → bit_and a 0 ≡ 0
bit_and-zero_fuel zero zero h = refl
bit_and-zero_fuel zero (suc a) h = absurd (omega arith)
bit_and-zero_fuel (suc n) zero h = refl
bit_and-zero_fuel (suc n) (suc a) h =
    omega (arith, bit_and_digit (suc a) 0, bit_and-zero_fuel n (suc a / 2) (omega arith))

pub bit_and-zero : (a : ℕ) → bit_and a 0 ≡ 0
bit_and-zero a = bit_and-zero_fuel a a (le_refl a)

bit_or-zero_fuel : (n a : ℕ) → a ≤ n → bit_or a 0 ≡ a
bit_or-zero_fuel zero zero h = refl
bit_or-zero_fuel zero (suc a) h = absurd (omega arith)
bit_or-zero_fuel (suc n) zero h = refl
bit_or-zero_fuel (suc n) (suc a) h =
    omega (arith, bit_or_digit (suc a) 0, bit_or-zero_fuel n (suc a / 2) (omega arith))

pub zero-bit_or : (b : ℕ) → bit_or 0 b ≡ b
zero-bit_or b = simp bit_or-bitwise

-- `two_pow` as an unknown: what `omega` needs of the next power.
twice_times : (k q : ℕ) → q * 2 ^ suc k ≡ q * 2 ^ k + q * 2 ^ k
twice_times k q = omega (arith, ap (λ (t : ℕ). q * t) (two-pow-succ k))

bit_and-mask_fields : (k q r : ℕ) → r < 2 ^ k → bit_and (q * 2 ^ k + r) (2 ^ k - 1) ≡ r
bit_and-mask_fields zero q r h = omega (arith, bit_and-zero (q * 2 ^ zero + r))
bit_and-mask_fields (suc k) q r h = ground (
  arith,
  bit_and_digit (q * 2 ^ suc k + r) (2 ^ suc k - 1),
  twice_times k q,
  two-pow-succ k,
  bit_and-mask_fields k q (r / 2) (omega (arith, two-pow-succ k)),
)

-- A mask of `k` low ones is the remainder by `2 ^ k`.
pub bit_and-mask : (k a : ℕ) → bit_and a (2 ^ k - 1) ≡ a % 2 ^ k
bit_and-mask k a = ground (arith, one-le-pow k 2, bit_and-mask_fields k (a / 2 ^ k) (a % 2 ^ k))

-- The digit of weight `2 ^ j`.
abbrev pub digit : ℕ → ℕ → ℕ
digit j a = a / 2 ^ j % 2

div-two_pow : (j a : ℕ) → a / 2 / 2 ^ j ≡ a / 2 ^ suc j
div-two_pow j a = div-div-eq-div-mul a 2 (2 ^ j) ∙ ap (λ t. a / t) (omega (arith, two-pow-succ j))

-- `&` with one flag keeps that digit, in its place.
pub bit_and-flag : (j a : ℕ) → bit_and a (2 ^ j) ≡ digit j a * 2 ^ j
bit_and-flag zero a = omega (arith, bit_and_digit a 1, bit_and-zero (a / 2))
bit_and-flag (suc j) a = ground (
  arith,
  bit_and_digit a (2 ^ suc j),
  two-pow-succ j,
  twice_times j (digit (suc j) a),
  div-two_pow j a,
  bit_and-flag j (a / 2),
)

pub digit-bit_or : (j a b : ℕ) → digit j (bit_or a b) ≡ max (digit j a) (digit j b)
digit-bit_or zero a b = omega (arith, bit_or_digit a b)
digit-bit_or (suc j) a b = ground (
  arith,
  bit_or_digit a b,
  div-two_pow j (bit_or a b),
  div-two_pow j a,
  div-two_pow j b,
  digit-bit_or j (a / 2) (b / 2),
)

-- Fields that do not overlap add up.
pub bit_or_fields : (k lo hi : ℕ) → lo < 2 ^ k → bit_or lo (hi * 2 ^ k) ≡ lo + hi * 2 ^ k
bit_or_fields zero lo hi h = ground (arith, zero-bit_or (hi * 1))
bit_or_fields (suc k) lo hi h = ground (
  arith,
  bit_or_digit lo (hi * 2 ^ suc k),
  twice_times k hi,
  two-pow-succ k,
  bit_or_fields k (lo / 2) hi (omega (arith, two-pow-succ k)),
)
