-- ===== src/Reactor/Registry/Fresh.antt =====
-- A new registry.
use go_uring.Base.{
  ℕ, zero, suc, ◌/◌, ◌^◌, ◌<◌, ◌≡◌, refl, ap, sym, subst, ◌∙◌, none, get_or, replicate,
  length-replicate, arith,
}
use go_uring.Reactor.Registry.{
  CbMap, CbRegistry, empty_map, no_shard, new_shard, new_cb_registry, shard_num_and_flatten_idx,
}
use go_uring.Reactor.Registry.Flatten.{place_lt}
use go_uring.Reactor.Registry.Shards.{shard_map, IsShard}
use go_uring.Reactor.Registry.Lookup.{shard_of, lookup, IsRegistry}

get_or-replicate : {A : Type 0} (n i : ℕ) (a d : A) → i < n → get_or (replicate n a) i d ≡ a
get_or-replicate zero i a d h = absurd (omega arith)
get_or-replicate (suc n) zero a d h = refl
get_or-replicate (suc n) (suc i) a d h = get_or-replicate n i a d (omega arith)

get_or-replicate_same : {A : Type 0} (n i : ℕ) (a : A) → get_or (replicate n a) i a ≡ a
get_or-replicate_same zero i a = refl
get_or-replicate_same (suc n) zero a = refl
get_or-replicate_same (suc n) (suc i) a = get_or-replicate_same n i a

module _ {C : Type 0} where
  new_shard-IsShard : (n : ℕ) → IsShard (new_shard {C = C} n)
  unfolding new_shard
  new_shard-IsShard n = record {
    nonces_len = length-replicate n 0;
    callbacks_len = length-replicate n empty_map;
  }

  new_shard-empty : (n idx m : ℕ) → shard_map (new_shard {C = C} n) idx m ≡ none
  unfolding new_shard shard_map
  new_shard-empty n idx m =
      ground (arith, ap (λ (f : CbMap C). f m) (get_or-replicate_same n idx empty_map))

  -- A registry of at least one shard is valid, and keeps no callback, when it is new.
  pub new_cb_registry_lem :
      (shard_count granularity fd n : ℕ)
      → 0 < shard_count
      → 0 < granularity
      → let r = new_cb_registry {C = C} shard_count granularity in
        IsRegistry r × (lookup r fd n ≡ none)
  unfolding new_cb_registry lookup
  new_cb_registry_lem shard_count granularity fd n some_shard granules = (valid, empty)
    where
      r : CbRegistry C
      r = new_cb_registry shard_count granularity

      shards : (num : ℕ) → num < shard_count → shard_of r num ≡ new_shard (2 ^ 16 / shard_count)
      shards num h = get_or-replicate shard_count num (new_shard (2 ^ 16 / shard_count)) no_shard h

      valid : IsRegistry r
      valid = record {
        granules = granules;
        some_shard = some_shard;
        shards_len = length-replicate shard_count (new_shard (2 ^ 16 / shard_count));
        each =
            λ num h. subst IsShard (sym (shards num h)) (new_shard-IsShard (2 ^ 16 / shard_count));
      }

      place : ℕ × ℕ
      place = shard_num_and_flatten_idx r fd

      empty : shard_map (shard_of r place.0) place.1 n ≡ none
      empty =
          ap (λ sh. shard_map sh place.1 n) (shards place.0 (place_lt r granules some_shard fd))
          ∙ new_shard-empty (2 ^ 16 / shard_count) place.1 n
