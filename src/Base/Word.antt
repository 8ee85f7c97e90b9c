-- ===== src/Base/Word.antt =====
-- uint32 and uint64 arithmetic, modulo 2^32 and 2^64.
use native.Mathlib.Nat.{mod-mod_of_dvd, two-pow-succ, dvd_refl, dvd-add}
use Prim.Native.Nat.{◌∣◌}
use go_uring.Base.{ℕ, zero, suc, ◌+◌, ◌-◌, ◌%◌, ◌^◌, ◌≤◌, ◌≡◌, sym, subst, dec_lt, arith}

abbrev pub u32_mod : ℕ
u32_mod = 2 ^ 32

abbrev pub u64_mod : ℕ
u64_mod = 2 ^ 64

abbrev pub add32 : ℕ → ℕ → ℕ
add32 a b = (a + b) % u32_mod

-- `-` on ℕ stops at 0, so the modulus is added first.
abbrev pub sub32 : ℕ → ℕ → ℕ
sub32 a b = (a + u32_mod - b) % u32_mod

abbrev pub add64 : ℕ → ℕ → ℕ
add64 a b = (a + b) % u64_mod

two_pow-dvd : (m k : ℕ) → k ≤ m → 2 ^ k ∣ 2 ^ m
two_pow-dvd zero zero h = dvd_refl 1
two_pow-dvd zero (suc k) h = absurd (omega arith)
two_pow-dvd (suc m) k h = elim (dec_lt m k) [
  | yes last ↦ subst (λ t. 2 ^ k ∣ 2 ^ t) (omega arith) (dvd_refl (2 ^ k))
  | no more ↦
      let ih = two_pow-dvd m k (omega arith) in
      subst (λ t. 2 ^ k ∣ t) (sym (two-pow-succ m)) (dvd-add (2 ^ k) ih ih)
]

-- A ring size that is a power of two divides 2^32: an index may wrap before it is reduced.
pub u32-mod-two_pow : (k a : ℕ) → k ≤ 32 → a % u32_mod % 2 ^ k ≡ a % 2 ^ k
u32-mod-two_pow k a h = mod-mod_of_dvd (2 ^ k) a (two_pow-dvd 32 k h)
