-- ===== src/Reactor/Registry.antt =====
-- reactor/registry.go: the callbacks of the network reactor, in shards. A map is a function into
-- `Option`; a callback is of any type `C`. Each method runs under the shard's lock, and the atomic
-- increment of the nonce before it touches no other field.
pub mod Flatten
pub mod Shards
pub mod Lookup
pub mod Pending
pub mod Fresh
mod Tests
use go_uring.Base.{
  ℕ, zero, suc, ◌+◌, ◌-◌, ◌*◌, ◌/◌, ◌%◌, ◌^◌, List, Option, none, some, ltb, ◌==◌, if◌then◌else◌,
  get_or, set, replicate,
}
use go_uring.Base.Word.{add32}

-- A map with one entry replaced or removed.
abbrev pub update {ℓ} : {A : Type ℓ} → (ℕ → A) → ℕ → A → ℕ → A
update m i a j = if i == j then a else m j

module _ (C : Type 0) where
  abbrev pub CbMap : Type 0
  CbMap = ℕ → Option C

  pub record Shard : Type 0 where
    pub nonces : List ℕ
    pub callbacks : List CbMap
    pub boundary : ℕ
    pub slow_callbacks : ℕ → Option CbMap
    pub slow_nonces : ℕ → ℕ

  pub record CbRegistry : Type 0 where
    pub shards : List Shard
    pub granularity : ℕ
    pub shard_cnt : ℕ

module _ {C : Type 0} where
  abbrev pub empty_map : CbMap C
  empty_map n = none

  -- A nil map reads as an empty one.
  abbrev pub or_empty : Option (CbMap C) → CbMap C
  or_empty none = empty_map
  or_empty (some m) = m

  unfoldable pub new_shard : ℕ → Shard C
  new_shard f_cap = record {
    nonces = replicate f_cap 0;
    callbacks = replicate f_cap empty_map;
    boundary = f_cap;
    slow_callbacks = λ i. none;
    slow_nonces = λ i. 0;
  }

  -- `shard.add`: the nonce, and the shard.
  unfoldable pub shard_add : Shard C → ℕ → C → ℕ × Shard C
  shard_add sh idx cb =
      let fast = add32 (get_or sh.nonces idx 0) 1 in
      let slow = add32 (sh.slow_nonces idx) 1 in
      if ltb idx sh.boundary
      then (
        fast,
        record sh {
          nonces = set sh.nonces idx fast;
          callbacks =
              set sh.callbacks idx (update (get_or sh.callbacks idx empty_map) fast (some cb));
        },
      )
      else (
        slow,
        record sh {
          slow_nonces = update sh.slow_nonces idx slow;
          slow_callbacks =
              update sh.slow_callbacks idx
                (some (update (or_empty (sh.slow_callbacks idx)) slow (some cb)));
        },
      )

  -- `delete(m, n)`, which does nothing on a nil map
  abbrev pub delete : ℕ → Option (CbMap C) → Option (CbMap C)
  delete n none = none
  delete n (some m) = some (update m n none)

  -- `shard.pop`: the callback, `none` for nil, and the shard without it.
  unfoldable pub shard_pop : Shard C → ℕ → ℕ → Option C × Shard C
  shard_pop sh idx nonce =
      if ltb idx sh.boundary
      then (
        get_or sh.callbacks idx empty_map nonce,
        record sh {
          callbacks = set sh.callbacks idx (update (get_or sh.callbacks idx empty_map) nonce none);
        },
      )
      else (
        or_empty (sh.slow_callbacks idx) nonce,
        record sh {
          slow_callbacks = update sh.slow_callbacks idx (delete nonce (sh.slow_callbacks idx));
        },
      )

  unfoldable pub new_cb_registry : ℕ → ℕ → CbRegistry C
  new_cb_registry shard_count granularity = record {
    shards = replicate shard_count (new_shard (2 ^ 16 / shard_count));
    granularity = granularity;
    shard_cnt = shard_count;
  }

  -- The shard of a descriptor, and its index there. A descriptor is not negative.
  unfoldable pub shard_num_and_flatten_idx : CbRegistry C → ℕ → ℕ × ℕ
  shard_num_and_flatten_idx r fd =
      let g_num = fd / r.granularity in
      (g_num % r.shard_cnt, g_num / r.shard_cnt * r.granularity + fd % r.granularity)

  abbrev pub no_shard : Shard C
  no_shard = record {
    nonces = List.[];
    callbacks = List.[];
    boundary = 0;
    slow_callbacks = λ i. none;
    slow_nonces = λ i. 0;
  }

  -- A shard is a pointer: what `add` and `pop` change there stays in the registry.
  unfoldable pub registry_add : CbRegistry C → ℕ → C → ℕ × CbRegistry C
  registry_add r fd cb =
      let (num, idx) = shard_num_and_flatten_idx r fd in
      let (n, sh) = shard_add (get_or r.shards num no_shard) idx cb in
      (n, record r { shards = set r.shards num sh })

  unfoldable pub registry_pop : CbRegistry C → ℕ → ℕ → Option C × CbRegistry C
  registry_pop r fd nonce =
      let (num, idx) = shard_num_and_flatten_idx r fd in
      let (cb, sh) = shard_pop (get_or r.shards num no_shard) idx nonce in
      (cb, record r { shards = set r.shards num sh })
