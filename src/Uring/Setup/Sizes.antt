-- ===== src/Uring/Setup/Sizes.antt =====
-- The sizes of the mappings.
use go_uring.Base.{◌+◌, ◌*◌, ◌≤◌, ◌<◌, ◌≡◌, true, arith}
use go_uring.Base.Word.{u32_mod}
use go_uring.Uring.Params.{RingParams, single_mmap_feature}
use go_uring.Uring.Setup.{max_entries, own_sizes, ring_sizes}

-- For at most `MaxEntries` submission entries, twice as many completion entries, and offsets of 32
-- bits, no product or sum wraps: the mapping of each ring holds its array to the last element, and
-- with IORING_FEAT_SINGLE_MMAP the one mapping of both holds both arrays.
pub ring_sizes_lem :
    (p : RingParams)
    → p.sq_entries ≤ max_entries
    → p.cq_entries ≤ 2 * max_entries
    → p.sq_offset.array < u32_mod
    → p.cq_offset.cqes < u32_mod
    → (p.sq_offset.array + 4 * p.sq_entries ≤ (ring_sizes p).0)
      × (p.cq_offset.cqes + 16 * p.cq_entries ≤ (ring_sizes p).1)
      × (single_mmap_feature p ≡ true → (ring_sizes p).0 ≡ (ring_sizes p).1)
unfolding ring_sizes own_sizes
ring_sizes_lem p sq cq array cqes = ground arith
