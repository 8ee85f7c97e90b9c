-- ===== src/Reactor/Registry/Flatten.antt =====
-- The place of a descriptor: which shard, and which index there.
use native.Mathlib.Nat.{
  mod-lt, div-add-mod', mul-add-div_right, mul-add-mod_self_right, mod-eq_of_lt, div-eq_of_lt,
}
use go_uring.Base.{ℕ, ◌+◌, ◌*◌, ◌/◌, ◌%◌, ◌<◌, ◌≡◌, ap, ap₂, sym, ◌∙◌, arith}
use go_uring.Reactor.Registry.{CbRegistry, shard_num_and_flatten_idx}

-- The descriptor at an index of a shard: granules of `g` descriptors are dealt to `cnt` shards.
abbrev pub fd_at : ℕ → ℕ → ℕ × ℕ → ℕ
fd_at g cnt (num, idx) = (idx / g * cnt + num) * g + idx % g

quotient-rest : (g q r : ℕ) → r < g → ((q * g + r) / g ≡ q) × ((q * g + r) % g ≡ r)
quotient-rest g q r h = (
  mul-add-div_right (omega arith) q r ∙ ap (λ t. q + t) (div-eq_of_lt h) ∙ omega arith,
  mul-add-mod_self_right q g r ∙ mod-eq_of_lt h,
)

module _ {C : Type 0} (r : CbRegistry C) (g_pos : 0 < r.granularity)
    (cnt_pos : 0 < r.shard_cnt) where
  -- The descriptor can be computed back from its place.
  pub fd_at-place : (fd : ℕ) → fd_at r.granularity r.shard_cnt (shard_num_and_flatten_idx r fd) ≡ fd
  unfolding shard_num_and_flatten_idx
  fd_at-place fd =
      let g = r.granularity in
      let cnt = r.shard_cnt in
      let at = quotient-rest g (fd / g / cnt) (fd % g) (mod-lt fd g_pos) in
      ap₂ (λ q m. (q * cnt + fd / g % cnt) * g + m) at.0 at.1
      ∙ ap (λ t. t * g + fd % g) (div-add-mod' (fd / g) cnt)
      ∙ div-add-mod' fd g

  -- No two descriptors have the same place.
  pub place-injective :
      (fd fd' : ℕ) → shard_num_and_flatten_idx r fd ≡ shard_num_and_flatten_idx r fd' → fd ≡ fd'
  place-injective fd fd' e =
      sym (fd_at-place fd) ∙ ap (fd_at r.granularity r.shard_cnt) e ∙ fd_at-place fd'

  -- The shard exists.
  pub place_lt : (fd : ℕ) → (shard_num_and_flatten_idx r fd).0 < r.shard_cnt
  unfolding shard_num_and_flatten_idx
  place_lt fd = mod-lt (fd / r.granularity) cnt_pos
