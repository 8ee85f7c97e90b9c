-- ===== src/Reactor/Registry/Shards.antt =====
-- What `shard.add` and `shard.pop` do to the map and the nonce of an index, on both paths.
use go_uring.Base.{
  ℕ, ◌≡◌, refl, length, length-set, get_or, get_or-set_self, get_or-set_ne, Option, none, some,
  ◌&&◌, ◌==◌, ltb, if◌then◌else◌, arith,
}
use go_uring.Base.Word.{add32}
use go_uring.Reactor.Registry.{
  CbMap, Shard, update, empty_map, or_empty, delete, shard_add, shard_pop,
}

-- The callback, and the last nonce, of an index of a shard.
module _ {C : Type 0} where
  unfoldable pub shard_map : Shard C → ℕ → CbMap C
  shard_map sh idx =
      if ltb idx sh.boundary
      then get_or sh.callbacks idx empty_map
      else or_empty (sh.slow_callbacks idx)

  unfoldable pub shard_nonce : Shard C → ℕ → ℕ
  shard_nonce sh idx = if ltb idx sh.boundary then get_or sh.nonces idx 0 else sh.slow_nonces idx

  pub record IsShard (sh : Shard C) : Type 0 where
    pub nonces_len : length sh.nonces ≡ sh.boundary
    pub callbacks_len : length sh.callbacks ≡ sh.boundary

  module _ (sh : Shard C) (v : IsShard sh) (idx : ℕ) where
    -- What an add writes, on the fast and on the slow path.
    pub shard_add-nonce : (cb : C) → (shard_add sh idx cb).0 ≡ add32 (shard_nonce sh idx) 1
    unfolding shard_add shard_nonce
    shard_add-nonce cb = ground arith

    pub shard_add-map :
        (cb : C) (j : ℕ)
        → shard_map (shard_add sh idx cb).1 j ≡ (
            if idx == j
            then update (shard_map sh idx) (add32 (shard_nonce sh idx) 1) (some cb)
            else shard_map sh j)
    unfolding shard_add shard_map shard_nonce
    shard_add-map cb j = ground (
      arith,
      v.callbacks_len,
      get_or-set_self sh.callbacks idx
          (update (get_or sh.callbacks idx empty_map) (add32 (get_or sh.nonces idx 0) 1) (some cb))
          empty_map,
      get_or-set_ne sh.callbacks idx j
          (update (get_or sh.callbacks idx empty_map) (add32 (get_or sh.nonces idx 0) 1) (some cb))
          empty_map,
    )

    pub shard_add-counter :
        (cb : C) (j : ℕ)
        → shard_nonce (shard_add sh idx cb).1 j
          ≡ (if idx == j then add32 (shard_nonce sh idx) 1 else shard_nonce sh j)
    unfolding shard_add shard_nonce
    shard_add-counter cb j = ground (
      arith,
      v.nonces_len,
      get_or-set_self sh.nonces idx (add32 (get_or sh.nonces idx 0) 1) 0,
      get_or-set_ne sh.nonces idx j (add32 (get_or sh.nonces idx 0) 1) 0,
    )

    pub shard_add-IsShard : (cb : C) → IsShard (shard_add sh idx cb).1
    unfolding shard_add
    shard_add-IsShard cb = ground (
      arith,
      v.nonces_len,
      v.callbacks_len,
      length-set sh.nonces idx (add32 (get_or sh.nonces idx 0) 1),
      length-set sh.callbacks idx
          (update (get_or sh.callbacks idx empty_map) (add32 (get_or sh.nonces idx 0) 1) (some cb)),
    )

    pub shard_pop-result : (n : ℕ) → (shard_pop sh idx n).0 ≡ shard_map sh idx n
    unfolding shard_pop shard_map
    shard_pop-result n = ground arith

    or_empty-delete :
        (n m : ℕ) (o : Option (CbMap C))
        → or_empty (delete n o) m ≡ (if n == m then none else or_empty o m)
    or_empty-delete n m none = ground arith
    or_empty-delete n m (some f) = refl

    pub shard_pop-map :
        (n j m : ℕ)
        → shard_map (shard_pop sh idx n).1 j m
          ≡ (if idx == j && n == m then none else shard_map sh j m)
    unfolding shard_pop shard_map
    shard_pop-map n j m = ground (
      arith,
      v.callbacks_len,
      or_empty-delete n m (sh.slow_callbacks idx),
      get_or-set_self sh.callbacks idx (update (get_or sh.callbacks idx empty_map) n none)
          empty_map,
      get_or-set_ne sh.callbacks idx j (update (get_or sh.callbacks idx empty_map) n none)
          empty_map,
    )

    pub shard_pop-counter : (n j : ℕ) → shard_nonce (shard_pop sh idx n).1 j ≡ shard_nonce sh j
    unfolding shard_pop shard_nonce
    shard_pop-counter n j = ground arith

    pub shard_pop-IsShard : (n : ℕ) → IsShard (shard_pop sh idx n).1
    unfolding shard_pop
    shard_pop-IsShard n = ground (
      arith,
      v.nonces_len,
      v.callbacks_len,
      length-set sh.callbacks idx (update (get_or sh.callbacks idx empty_map) n none),
    )
