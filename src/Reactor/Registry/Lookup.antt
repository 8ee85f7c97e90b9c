-- ===== src/Reactor/Registry/Lookup.antt =====
-- The registry as a table: what `add` and `pop` do to the callback that is kept for a descriptor
-- and a nonce, and to the descriptor's last nonce.
use go_uring.Base.{
  ℕ, ℕ_discrete, ◌<◌, ◌≡◌, ◌≢◌, refl, ap, ◌∙◌, length, length-set, get_or, set, get_or-set_self,
  get_or-set_ne, Option, none, some, Bool, true, false, ◌&&◌, ◌==◌, if◌then◌else◌, arith,
}
use go_uring.Base.Word.{add32}
use go_uring.Reactor.Registry.{
  CbMap, Shard, CbRegistry, shard_add, shard_pop, no_shard, registry_add, registry_pop,
  shard_num_and_flatten_idx,
}
use go_uring.Reactor.Registry.Flatten.{place-injective, place_lt}
use go_uring.Reactor.Registry.Shards.{
  shard_map, shard_nonce, IsShard, shard_add-nonce, shard_add-map, shard_add-counter,
  shard_add-IsShard, shard_pop-result, shard_pop-map, shard_pop-counter, shard_pop-IsShard,
}

module _ {C : Type 0} where
  abbrev pub shard_of : CbRegistry C → ℕ → Shard C
  shard_of r num = get_or r.shards num no_shard

  -- The callback that is kept for a descriptor and a nonce, and the last nonce of a descriptor.
  unfoldable pub lookup : CbRegistry C → ℕ → ℕ → Option C
  lookup r fd n =
      let (num, idx) = shard_num_and_flatten_idx r fd in shard_map (shard_of r num) idx n

  unfoldable pub last_nonce : CbRegistry C → ℕ → ℕ
  last_nonce r fd =
      let (num, idx) = shard_num_and_flatten_idx r fd in shard_nonce (shard_of r num) idx

  pub record IsRegistry (r : CbRegistry C) : Type 0 where
    pub granules : 0 < r.granularity
    pub some_shard : 0 < r.shard_cnt
    pub shards_len : length r.shards ≡ r.shard_cnt
    pub each : (num : ℕ) → num < r.shard_cnt → IsShard (shard_of r num)

  module _ (r : CbRegistry C) (v : IsRegistry r) (fd : ℕ) where
    abbrev num : ℕ
    num = (shard_num_and_flatten_idx r fd).0

    abbrev idx : ℕ
    idx = (shard_num_and_flatten_idx r fd).1

    num_lt : num < r.shard_cnt
    num_lt = place_lt r v.granules v.some_shard fd

    IsShard-at : IsShard (shard_of r num)
    IsShard-at = v.each num num_lt

    -- Descriptors with the same shard and index are the same.
    same_place :
        (fd' : ℕ)
        → (num == (shard_num_and_flatten_idx r fd').0 && idx == (shard_num_and_flatten_idx r fd').1)
          ≡ (fd == fd')
    same_place fd' = elim (ℕ_discrete fd fd') [
      | yes e ↦ rw e (ground arith)
      | no ne ↦ ground (arith, apart ne)
    ]
      where
        apart :
            fd ≢ fd'
            → num ≡ (shard_num_and_flatten_idx r fd').0
            → idx ≢ (shard_num_and_flatten_idx r fd').1
        apart ne p q = ne (place-injective r v.granules v.some_shard fd fd' (λ i. (p i, q i)))

    -- The registry with the shard of `fd` replaced.
    abbrev with_shard : Shard C → CbRegistry C
    with_shard sh = record r { shards = set r.shards num sh }

    shard_of-with_shard :
        (sh : Shard C) (n : ℕ)
        → shard_of (with_shard sh) n ≡ (if num == n then sh else shard_of r n)
    shard_of-with_shard sh n = ground (
      arith,
      num_lt,
      v.shards_len,
      get_or-set_self r.shards num sh no_shard,
      get_or-set_ne r.shards num n sh no_shard,
    )

    lookup-with_shard :
        (sh : Shard C) (fd' n : ℕ)
        → let to = shard_num_and_flatten_idx r fd' in
          lookup (with_shard sh) fd' n
          ≡ (if num == to.0 then shard_map sh to.1 n else lookup r fd' n)
    unfolding lookup shard_num_and_flatten_idx
    lookup-with_shard sh fd' n =
        ap (λ s. shard_map s to.1 n) (shard_of-with_shard sh to.0) ∙ choose (num == to.0)
      where
        to : ℕ × ℕ
        to = shard_num_and_flatten_idx r fd'

        choose :
            (b : Bool)
            → shard_map (if b then sh else shard_of r to.0) to.1 n
              ≡ (if b then shard_map sh to.1 n else shard_map (shard_of r to.0) to.1 n)
        choose true = refl
        choose false = refl

    last_nonce-with_shard :
        (sh : Shard C) (fd' : ℕ)
        → let to = shard_num_and_flatten_idx r fd' in
          last_nonce (with_shard sh) fd'
          ≡ (if num == to.0 then shard_nonce sh to.1 else last_nonce r fd')
    unfolding last_nonce shard_num_and_flatten_idx
    last_nonce-with_shard sh fd' =
        ap (λ s. shard_nonce s to.1) (shard_of-with_shard sh to.0) ∙ choose (num == to.0)
      where
        to : ℕ × ℕ
        to = shard_num_and_flatten_idx r fd'

        choose :
            (b : Bool)
            → shard_nonce (if b then sh else shard_of r to.0) to.1
              ≡ (if b then shard_nonce sh to.1 else shard_nonce (shard_of r to.0) to.1)
        choose true = refl
        choose false = refl

    with_shard-IsRegistry : (sh : Shard C) → IsShard sh → IsRegistry (with_shard sh)
    with_shard-IsRegistry sh w = record {
      granules = v.granules;
      some_shard = v.some_shard;
      shards_len = length-set r.shards num sh ∙ v.shards_len;
      each = λ n h. ground (arith, shard_of-with_shard sh n, v.each n h);
    }

    -- `add` returns the successor of the descriptor's last nonce, modulo 2^32, and keeps the
    -- callback under it; the callbacks of all other descriptors and nonces stay, and so do the last
    -- nonces of the other descriptors.
    pub registry_add_lem :
        (cb : C) (fd' n' : ℕ)
        → let (n, r') = registry_add r fd cb in
          IsRegistry r'
          × (n ≡ add32 (last_nonce r fd) 1)
          × (lookup r' fd' n' ≡ (if fd == fd' && n == n' then some cb else lookup r fd' n'))
          × (last_nonce r' fd' ≡ (if fd == fd' then n else last_nonce r fd'))
    unfolding registry_add lookup last_nonce
    registry_add_lem cb fd' n' =
        let sh = shard_of r num in
        let to = shard_num_and_flatten_idx r fd' in
        (
          with_shard-IsRegistry (shard_add sh idx cb).1 (shard_add-IsShard sh IsShard-at idx cb),
          shard_add-nonce sh IsShard-at idx cb,
          ground (
            arith,
            same_place fd',
            lookup-with_shard (shard_add sh idx cb).1 fd' n',
            shard_add-nonce sh IsShard-at idx cb,
            ap (λ (f : CbMap C). f n') (shard_add-map sh IsShard-at idx cb to.1),
          ),
          ground (
            arith,
            same_place fd',
            last_nonce-with_shard (shard_add sh idx cb).1 fd',
            shard_add-nonce sh IsShard-at idx cb,
            shard_add-counter sh IsShard-at idx cb to.1,
          ),
        )

    -- `pop` returns the callback that is kept for the descriptor and the nonce, and removes it; all
    -- other callbacks and the last nonces stay.
    pub registry_pop_lem :
        (n fd' n' : ℕ)
        → let (cb, r') = registry_pop r fd n in
          IsRegistry r'
          × (cb ≡ lookup r fd n)
          × (lookup r' fd' n' ≡ (if fd == fd' && n == n' then none else lookup r fd' n'))
          × (last_nonce r' fd' ≡ last_nonce r fd')
    unfolding registry_pop lookup last_nonce
    registry_pop_lem n fd' n' =
        let sh = shard_of r num in
        let to = shard_num_and_flatten_idx r fd' in
        (
          with_shard-IsRegistry (shard_pop sh idx n).1 (shard_pop-IsShard sh IsShard-at idx n),
          shard_pop-result sh IsShard-at idx n,
          ground (
            arith,
            same_place fd',
            lookup-with_shard (shard_pop sh idx n).1 fd' n',
            shard_pop-map sh IsShard-at idx n to.1 n',
          ),
          ground (
            arith,
            last_nonce-with_shard (shard_pop sh idx n).1 fd',
            shard_pop-counter sh IsShard-at idx n to.1,
          ),
        )
