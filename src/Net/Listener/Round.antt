-- ===== src/Net/Listener/Round.antt =====
-- `roundDurationUp`.
use native.Mathlib.Nat.{div-add-mod', mod-lt, mod-eq_of_lt}
use go_uring.Base.{ℕ, zero, suc, ◌+◌, ◌-◌, ◌*◌, ◌/◌, ◌^◌, ◌<◌, ◌≤◌, ◌≡◌, ap, arith}
use go_uring.Base.Int.{pos, negsuc, neg}
use go_uring.Net.Listener.{second, round_duration_up, int64_div}

-- The quotient is the least number of units that is not shorter than the duration.
pub rounded : (d to : ℕ) → 0 < to → (d ≤ (d + to - 1) / to * to) × ((d + to - 1) / to * to < d + to)
rounded d to h = omega (arith, div-add-mod' (d + to - 1) to, mod-lt (d + to - 1) h)

pub round_duration_up_lem :
    (d to : ℕ) → 0 < to → d + to ≤ 2 ^ 63 → round_duration_up d to ≡ pos ((d + to - 1) / to)
unfolding round_duration_up int64_div
round_duration_up_lem d to h k = ground (arith, mod-eq_of_lt {n = d + to - 1} {m = 2 ^ 64})

neg-negsuc : (n : ℕ) → 0 < n → neg n ≡ negsuc (n - 1)
neg-negsuc zero h = ground arith
neg-negsuc (suc n) h = ap negsuc (omega arith)

-- A sum that is not below 2^63 is a negative number, of at least one second.
pub round_duration_up-negative :
    (d : ℕ) → d < 2 ^ 63 → 2 ^ 63 < d + second → (n : ℕ) × (round_duration_up d second ≡ negsuc n)
unfolding round_duration_up int64_div
round_duration_up-negative d h k =
    let n = (2 ^ 64 - (d + second - 1)) / second in
    (
      n - 1,
      ground (
        arith,
        mod-eq_of_lt {n = d + second - 1} {m = 2 ^ 64},
        neg-negsuc n (omega (arith, h, k)),
      ),
    )
