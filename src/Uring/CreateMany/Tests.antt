-- ===== src/Uring/CreateMany/Tests.antt =====
-- Instances: four rings in two pools, and too few mappings for them.
use go_uring.Base.{ℕ, ◌/◌, ◌≡◌, refl, List, [], ◌∷◌, length, map}
use go_uring.Uring.Params.{with_cq_size, apply_options, single_mmap_feature}
use go_uring.Uring.Setup.{alloc_ring, new_ring}
use go_uring.Uring.Setup.Instance.{World, os, start, os-Tracks, os-KeepsParams}
use go_uring.Uring.CreateMany.{
  RingHandle, Made, Created, created, ring_failed, alloc_error, close_all, create_many, created_of,
}
use go_uring.Uring.CreateMany.Opened.{has_fd}
use go_uring.Uring.CreateMany.Closed.{LeftCreated, create_many_lem, create_many-close_all}
use go_uring.Uring.CreateMany.Count.{create_many-IsPools}
use go_uring.Uring.CreateMany.Pools.{IsPools}

abbrev latest_first : List RingHandle → List RingHandle
latest_first rs = rs

latest_first_visits : (rs : List RingHandle) (x : ℕ) → has_fd x (latest_first rs) ≡ has_fd x rs
latest_first_visits rs x = refl

abbrev out : ℕ → Created × World
out mappings = create_many os latest_first 4 (with_cq_size 9 ∷ []) 4 2 (start mappings)

abbrev made_of : Created → Made
made_of (created st) = st
made_of c = record { defers = []; rings = [] }

abbrev four : Made
four = made_of (out 8).0

four_made : (out 8).0 ≡ created four
unfolding create_many new_ring alloc_ring apply_options single_mmap_feature created_of
four_made = refl

-- The descriptors, and those of the rings whose workers are used.
four_rings :
    (map (λ (r : RingHandle). r.fd) four.rings ≡ 3 ∷ 4 ∷ 5 ∷ 6 ∷ [])
    × (map (λ (r : RingHandle). r.params.wq_fd) four.rings ≡ 0 ∷ 3 ∷ 0 ∷ 5 ∷ [])
unfolding create_many new_ring alloc_ring apply_options single_mmap_feature created_of
four_rings = (refl, refl)

-- The third ring cannot be mapped.
third_fails : (out 5).0 ≡ ring_failed (alloc_error 5 12)
unfolding create_many new_ring alloc_ring apply_options single_mmap_feature created_of
third_fails = refl

create_many_lem_example :
    LeftCreated os os-Tracks latest_first latest_first_visits 4 (start 5) (out 5).0 (out 5).1
create_many_lem_example =
    create_many_lem os os-Tracks latest_first latest_first_visits 4 (with_cq_size 9 ∷ []) 4 2
      (start 5)

create_many-close_all_example :
    (close_all os latest_first 4 four (out 8).1).1.is_open ≡ (start 8).is_open
create_many-close_all_example =
    create_many-close_all os os-Tracks latest_first latest_first_visits 4 (with_cq_size 9 ∷ []) 4 2
      (start 8) four four_made

create_many-IsPools_example : IsPools (4 / 2) 2 four.rings × (length four.rings ≡ 4)
create_many-IsPools_example =
    create_many-IsPools os os-KeepsParams latest_first 4 (with_cq_size 9 ∷ []) 4 2 (start 8) four
      four_made
