-- ===== src/Uring/Params/Options.antt =====
-- The flags that a list of options sets.
use go_uring.Base.{
  ℕ, ◌*◌, ◌^◌, ◌≡◌, refl, ap, Bool, false, ◌||◌, ◌==◌, List, [], ◌∷◌, bit_or, if◌then◌else◌,
  Bool-cases, inl, inr, ==_iff, arith,
}
use native.Mathlib.Nat.{one-le-pow}
use go_uring.Base.Bits.{digit, bit_and-flag, digit-bit_or}
use go_uring.Uring.Params.{
  RingParams, SetupOption, with_cq_size, with_io_poll, with_attached_wq, with_sq_poll,
  with_sq_thread_cpu, has_flag, apply_option, apply_options,
}

-- The place of an option's flag in the flag word.
abbrev pub bit_of : SetupOption → ℕ
bit_of (with_cq_size sz) = 3
bit_of with_io_poll = 0
bit_of (with_attached_wq fd) = 5
bit_of (with_sq_poll ms) = 1
bit_of (with_sq_thread_cpu cpu) = 2

apply_option-flags :
    (o : SetupOption) (p : RingParams) → (apply_option o p).flags ≡ bit_or p.flags (2 ^ bit_of o)
unfolding apply_option
apply_option-flags (with_cq_size sz) p = refl
apply_option-flags o p = refl

-- The flags of two options share a digit only if they are the same flag.
digit-bit_of :
    (o o' : SetupOption)
    → digit (bit_of o') (2 ^ bit_of o) ≡ (if bit_of o == bit_of o' then 1 else 0)
digit-bit_of (with_cq_size a) (with_cq_size b) = refl
digit-bit_of (with_cq_size a) o = refl
digit-bit_of with_io_poll (with_cq_size b) = refl
digit-bit_of with_io_poll o = refl
digit-bit_of (with_attached_wq a) (with_cq_size b) = refl
digit-bit_of (with_attached_wq a) o = refl
digit-bit_of (with_sq_poll a) (with_cq_size b) = refl
digit-bit_of (with_sq_poll a) o = refl
digit-bit_of (with_sq_thread_cpu a) (with_cq_size b) = refl
digit-bit_of (with_sq_thread_cpu a) o = refl

has_flag-digit : (f j : ℕ) → has_flag f (2 ^ j) ≡ (digit j f == 1)
unfolding has_flag
has_flag-digit f j = elim (Bool-cases (digit j f == 0)) [
  | inl zero_digit ↦
      ground
        (arith, bit_and-flag j f, ap (λ (t : ℕ). t * 2 ^ j) ((==_iff (digit j f) 0).0 zero_digit))
  | inr one_digit ↦
      let is_one : digit j f ≡ 1 = ground arith in
      ground (arith, bit_and-flag j f, one-le-pow j 2, ap (λ (t : ℕ). t * 2 ^ j) is_one)
]

-- Whether any option of the list has the flag of `o`.
abbrev pub is_given : SetupOption → List SetupOption → Bool
is_given o [] = false
is_given o (o' ∷ os) = bit_of o' == bit_of o || is_given o os

has_flag-apply_option :
    (o o' : SetupOption) (p : RingParams)
    → has_flag (apply_option o' p).flags (2 ^ bit_of o)
      ≡ (has_flag p.flags (2 ^ bit_of o) || bit_of o' == bit_of o)
has_flag-apply_option o o' p = ground (
  arith,
  has_flag-digit (apply_option o' p).flags (bit_of o),
  has_flag-digit p.flags (bit_of o),
  ap (digit (bit_of o)) (apply_option-flags o' p),
  digit-bit_or (bit_of o) p.flags (2 ^ bit_of o'),
  digit-bit_of o' o,
)

-- After the options of the list the flag of an option is set exactly if it was set before or an
-- option of its kind is in the list: no option clears or sets the flag of another kind.
pub has_flag-apply_options :
    (o : SetupOption) (os : List SetupOption) (p : RingParams)
    → has_flag (apply_options os p).flags (2 ^ bit_of o)
      ≡ (has_flag p.flags (2 ^ bit_of o) || is_given o os)
unfolding apply_options
has_flag-apply_options o [] p = ground arith
has_flag-apply_options o (o' ∷ os) p =
    ground (arith, has_flag-apply_options o os (apply_option o' p), has_flag-apply_option o o' p)
