-- ===== src/Reactor/Net/New.antt =====
-- `NewNet` and `checkRingReq`.
use mathlib.Core.Option.{some-injective, some-ne-none}
use go_uring.Base.{
  ℕ, ◌<◌, ◌≡◌, ◌↔◌, refl, ap, sym, ◌∙◌, true, none, some, List, [], ◌∷◌, map, length, length-map,
  Bool-cases, inl, inr, arith, subst, if◌then◌else◌,
}
use go_uring.Uring.Params.{ext_arg_feature, fast_poll_feature}
use go_uring.Uring.Ring.{Ring}
use go_uring.Reactor.Registry.{new_cb_registry}
use go_uring.Reactor.Registry.Fresh.{new_cb_registry_lem}
use go_uring.Reactor.Registry.Lookup.{lookup}
use go_uring.Reactor.Registry.Fresh.{new_cb_registry_lem}
use go_uring.Reactor.Net.{
  NetworkReactor, RingNetEventLoop, fd_per_granule, check_ring_req, all_meet, new_net,
  new_ring_net_event_loop,
}
use go_uring.Reactor.Net.Queue.{IsReactor}

-- Every ring has the features that the network reactor needs.
abbrev pub HasFeatures : List Ring → Type 0
HasFeatures [] = Unit {0}
HasFeatures (ring ∷ rings) =
    (ext_arg_feature ring.params ≡ true)
    × (fast_poll_feature ring.params ≡ true)
    × HasFeatures rings

all_meet_lem : (rings : List Ring) → HasFeatures rings → all_meet rings ≡ true
unfolding all_meet check_ring_req
all_meet_lem [] h = refl
all_meet_lem (ring ∷ rings) h = ground (arith, h.0, h.1, all_meet_lem rings h.2)

meets_all : (rings : List Ring) → all_meet rings ≡ true → HasFeatures rings
unfolding all_meet check_ring_req
meets_all [] h = tt
meets_all (ring ∷ rings) h =
    (ground (arith, h), ground (arith, h), meets_all rings (ground (arith, h)))

rings_of_loops :
    (rings : List Ring)
    → map (λ (l : RingNetEventLoop). l.ring) (map new_ring_net_event_loop rings) ≡ rings
unfolding new_ring_net_event_loop
rings_of_loops [] = refl
rings_of_loops (ring ∷ rings) = ap (λ l. ring ∷ l) (rings_of_loops rings)

module _ {C : Type 0} where
  abbrev made : List Ring → NetworkReactor C
  made rings = record {
    loops = map new_ring_net_event_loop rings;
    registry = new_cb_registry (length rings) fd_per_granule;
  }

  new_net-cases :
      (rings : List Ring)
      → new_net {C = C} rings ≡ (if all_meet rings then some (made rings) else none)
  unfolding new_net
  new_net-cases rings = refl

  new_net-succeeds : (rings : List Ring) → HasFeatures rings → new_net rings ≡ some (made rings)
  new_net-succeeds rings h = new_net-cases rings ∙ rw (all_meet_lem rings h) refl

  new_net-meets :
      (rings : List Ring) (r : NetworkReactor C)
      → new_net rings ≡ some r
      → (all_meet rings ≡ true) × (r ≡ made rings)
  new_net-meets rings r e = elim (Bool-cases (all_meet rings)) [
    | inl yes_all ↦
        (yes_all, some-injective r (made rings) (sym e ∙ new_net-cases rings ∙ rw yes_all refl))
    | inr no_all ↦ absurd (some-ne-none r (sym e ∙ new_net-cases rings ∙ rw no_all refl))
  ]

  made-IsReactor : (rings : List Ring) → 0 < length rings → IsReactor (made rings)
  unfolding new_cb_registry
  made-IsReactor rings some_ring = record {
    registry = (new_cb_registry_lem (length rings) fd_per_granule 0 0 some_ring (omega arith)).0;
    same_count = length-map new_ring_net_event_loop rings;
    granules = refl;
  }

  -- `NewNet` of at least one ring succeeds exactly if every ring has IORING_FEAT_EXT_ARG and
  -- IORING_FEAT_FAST_POLL; the reactor is valid then, with a loop for each ring, on this ring, and no
  -- callback waits.
  pub new_net_lem :
      (rings : List Ring)
      → 0 < length rings
      → (((r : NetworkReactor C) × (new_net rings ≡ some r)) ↔ HasFeatures rings)
        × ((r : NetworkReactor C) (fd n : ℕ)
            → new_net rings ≡ some r
            → IsReactor r
              × (length r.loops ≡ length rings)
              × (lookup r.registry fd n ≡ none)
              × (map (λ (l : RingNetEventLoop). l.ring) r.loops ≡ rings))
  new_net_lem rings some_ring = (
    (
      (λ ok. meets_all rings (new_net-meets rings ok.0 ok.1).0),
      (λ h. (made rings, new_net-succeeds rings h)),
    ),
    λ r fd n e.
        subst
          (λ r'.
            IsReactor r'
            × (length r'.loops ≡ length rings)
            × (lookup r'.registry fd n ≡ none)
            × (map (λ (l : RingNetEventLoop). l.ring) r'.loops ≡ rings))
          (sym (new_net-meets rings r e).1)
          (
            made-IsReactor rings some_ring,
            length-map new_ring_net_event_loop rings,
            (new_cb_registry_lem (length rings) fd_per_granule fd n some_ring (omega arith)).1,
            rings_of_loops rings,
          ),
  )
