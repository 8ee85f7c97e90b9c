-- ===== src/Reactor/Registry/Tests.antt =====
-- Instances: two shards, granules of 75, callbacks that are numbers.
use go_uring.Base.{ℕ, ◌≡◌, refl, List, [], ◌∷◌, none, some, ◌&&◌, ◌==◌, if◌then◌else◌, arith}
use go_uring.Base.Word.{add32}
use go_uring.Reactor.Registry.{
  CbRegistry, new_cb_registry, registry_add, registry_pop, shard_num_and_flatten_idx,
}
use go_uring.Reactor.Registry.Lookup.{
  IsRegistry, lookup, last_nonce, registry_add_lem, registry_pop_lem,
}
use go_uring.Reactor.Registry.Pending.{Call, adds, pops}
use go_uring.Reactor.Registry.Fresh.{new_cb_registry_lem}

abbrev fresh : CbRegistry ℕ
fresh = new_cb_registry 2 75

fresh_lem : IsRegistry fresh × (lookup fresh 80 1 ≡ none)
fresh_lem = new_cb_registry_lem 2 75 80 1 (omega arith) (omega arith)

place_80 : shard_num_and_flatten_idx fresh 80 ≡ (1, 5)
unfolding shard_num_and_flatten_idx new_cb_registry
place_80 = refl

registry_add_lem_example :
    let (n, r) = registry_add fresh 80 6 in
    IsRegistry r
    × (n ≡ add32 (last_nonce fresh 80) 1)
    × (lookup r 81 1 ≡ (if 80 == 81 && n == 1 then some 6 else lookup fresh 81 1))
    × (last_nonce r 81 ≡ (if 80 == 81 then n else last_nonce fresh 81))
registry_add_lem_example = registry_add_lem fresh fresh_lem.0 80 6 81 1

registry_pop_lem_example :
    let (cb, r) = registry_pop fresh 80 1 in
    IsRegistry r
    × (cb ≡ lookup fresh 80 1)
    × (lookup r 80 1 ≡ (if 80 == 80 && 1 == 1 then none else lookup fresh 80 1))
    × (last_nonce r 80 ≡ last_nonce fresh 80)
registry_pop_lem_example = registry_pop_lem fresh fresh_lem.0 80 1 80 1

abbrev later : List (Call ℕ)
later = adds 80 8 ∷ pops 5 1 ∷ []

abbrev added : ℕ × CbRegistry ℕ
added = registry_add fresh 80 6
