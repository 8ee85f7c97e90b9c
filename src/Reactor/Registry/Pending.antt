-- ===== src/Reactor/Registry/Pending.antt =====
-- A callback waits in the registry until its own completion pops it.
use go_uring.Base.{
  ℕ, ◌+◌, ◌<◌, ◌≡◌, ap, subst, List, [], ◌∷◌, some, Bool, false, ◌&&◌, ◌||◌, ◌==◌, if◌then◌else◌,
  arith,
}
use go_uring.Base.Word.{u32_mod, sub32}
use go_uring.Reactor.Registry.{CbRegistry, registry_add, registry_pop}
use go_uring.Reactor.Registry.Lookup.{
  lookup, last_nonce, IsRegistry, registry_add_lem, registry_pop_lem,
}

-- The calls of any goroutine, in the order in which the locks are taken.
pub data Call (C : Type 0) : Type 0 where
  adds : (fd : ℕ) → C → Call C
  pops : (fd nonce : ℕ) → Call C

module _ {C : Type 0} where
  pub run_calls : List (Call C) → CbRegistry C → CbRegistry C
  run_calls [] r = r
  run_calls (adds fd cb ∷ calls) r = run_calls calls (registry_add r fd cb).1
  run_calls (pops fd n ∷ calls) r = run_calls calls (registry_pop r fd n).1

  -- The adds for a descriptor, and whether a descriptor and a nonce are popped.
  abbrev pub adds_to : ℕ → List (Call C) → ℕ
  adds_to fd [] = 0
  adds_to fd (adds fd' cb ∷ calls) = (if fd' == fd then 1 else 0) + adds_to fd calls
  adds_to fd (pops fd' n ∷ calls) = adds_to fd calls

  abbrev pub is_popped : ℕ → ℕ → List (Call C) → Bool
  is_popped fd n [] = false
  is_popped fd n (adds fd' cb ∷ calls) = is_popped fd n calls
  is_popped fd n (pops fd' n' ∷ calls) = fd' == fd && n' == n || is_popped fd n calls

  pub run_calls-IsRegistry :
      (calls : List (Call C)) (r : CbRegistry C) → IsRegistry r → IsRegistry (run_calls calls r)
  unfolding run_calls
  run_calls-IsRegistry [] r v = v
  run_calls-IsRegistry (adds fd cb ∷ calls) r v =
      run_calls-IsRegistry calls (registry_add r fd cb).1 (registry_add_lem r v fd cb 0 0).0
  run_calls-IsRegistry (pops fd n ∷ calls) r v =
      run_calls-IsRegistry calls (registry_pop r fd n).1 (registry_pop_lem r v fd n 0 0).0

  -- The distance of the last nonce from the callback's stays below 2^32.
  waits :
      (calls : List (Call C)) (r : CbRegistry C) (fd n : ℕ) (cb : C)
      → IsRegistry r
      → lookup r fd n ≡ some cb
      → last_nonce r fd < u32_mod
      → n < u32_mod
      → sub32 (last_nonce r fd) n + adds_to fd calls < u32_mod
      → is_popped fd n calls ≡ false
      → lookup (run_calls calls r) fd n ≡ some cb
  unfolding run_calls
  waits [] r fd n cb v here last word near kept = here
  waits (adds fd' cb' ∷ calls) r fd n cb v here last word near kept =
      let after = registry_add_lem r v fd' cb' fd n in
      waits calls (registry_add r fd' cb').1 fd n cb after.0 (ground (arith, after.1, after.2))
        (ground (arith, after.1, after.3)) word (ground (arith, after.1, after.3)) kept
  waits (pops fd' n' ∷ calls) r fd n cb v here last word near kept =
      let after = registry_pop_lem r v fd' n' fd n in
      waits calls (registry_pop r fd' n').1 fd n cb after.0 (ground (arith, after.2))
        (ground (arith, after.3)) word (ground (arith, after.3)) (ground arith)

  -- A callback that was added stays under the nonce that `add` returned, whatever is added and
  -- popped afterwards, as long as this nonce of this descriptor is not popped and fewer than 2^32
  -- more callbacks are added for the descriptor, after which its nonces repeat.
  pub callback_waits :
      (r r' : CbRegistry C) (fd n : ℕ) (cb : C) (calls : List (Call C))
      → IsRegistry r
      → registry_add r fd cb ≡ (n, r')
      → adds_to fd calls < u32_mod
      → is_popped fd n calls ≡ false
      → lookup (run_calls calls r') fd n ≡ some cb
  callback_waits r r' fd n cb calls v added few kept =
      let after = registry_add_lem r v fd cb fd (registry_add r fd cb).0 in
      let same = ap (λ (o : ℕ × CbRegistry C). o.0) added in
      subst (λ (o : ℕ × CbRegistry C). lookup (run_calls calls o.1) fd o.0 ≡ some cb) added
        (waits calls (registry_add r fd cb).1 fd (registry_add r fd cb).0 cb after.0
          (ground (arith, after.2)) (ground (arith, after.1, after.3)) (ground (arith, after.1))
          (ground (arith, after.1, after.3)) (rw same kept))
