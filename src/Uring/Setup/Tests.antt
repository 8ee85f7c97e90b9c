-- ===== src/Uring/Setup/Tests.antt =====
-- Instances: a kernel with one mapping for both rings, on which one or two mappings can be made.
use go_uring.Base.{
  ℕ, ◌+◌, ◌*◌, ◌≤◌, ◌≡◌, arith, true, false, refl, some, inr, [], length-replicate, replicate,
  if◌then◌else◌, ◌==◌,
}
use go_uring.Uring.Params.{RingParams, single_mmap_feature, zero_params}
use go_uring.Uring.Entry.{zero_entry, zero_event}
use go_uring.Uring.Sq.Inv.{IsValid as IsSqValid, pending}
use go_uring.Uring.Cq.Inv.{IsValid as IsCqValid, ready}
use go_uring.Uring.Setup.Load.{Memory, load_sq, load_cq}
use go_uring.Uring.Setup.Pointers.{first_mapping, cq_mapping}
use go_uring.Uring.Setup.Fresh.{IsFresh, alloc_ring-IsValid}
use go_uring.Uring.Setup.{
  ring_sizes, alloc_ring, close_ring, new_ring, Mapping, SqPointers, CqPointers, sq_pointers,
  cq_pointers,
}
use go_uring.Uring.Setup.Memory.{set}
use go_uring.Uring.Setup.Close.{close_ring_leaks}
use go_uring.Uring.Setup.New.{IsNew, new_ring_lem}
use go_uring.Uring.Setup.Instance.{os, start, os-Tracks}
use go_uring.Uring.Setup.Sizes.{ring_sizes_lem}

abbrev params : RingParams
params = record zero_params {
  sq_entries = 8;
  cq_entries = 16;
  features = 1;
  sq_offset = record zero_params.sq_offset { array = 320 };
  cq_offset = record zero_params.cq_offset { cqes = 64 };
}

ring_sizes_lem_example :
    (320 + 4 * 8 ≤ (ring_sizes params).0)
    × (64 + 16 * 16 ≤ (ring_sizes params).1)
    × (single_mmap_feature params ≡ true → (ring_sizes params).0 ≡ (ring_sizes params).1)
ring_sizes_lem_example =
    ring_sizes_lem params (omega arith) (omega arith) (omega arith) (omega arith)

abbrev buffers : Mapping
buffers = record { sq_buff = some 100; cq_buff = some 100; sqe_buff = some 101 }

allocated :
    (alloc_ring os 3 params (start 2)).0
    ≡ inr (buffers, sq_pointers 100 params.sq_offset, cq_pointers 100 params.cq_offset)
unfolding alloc_ring single_mmap_feature
allocated = refl

close_ring_leaks_example :
    let w' = (close_ring os 3 buffers (alloc_ring os 3 params (start 2)).1).1 in
    (sqe : ℕ) × (some 101 ≡ some sqe)
    × ((start 2).is_mapped sqe ≡ false)
    × (w'.is_mapped ≡ set sqe true (start 2).is_mapped)
    × (w'.is_open ≡ set 3 false (start 2).is_open)
close_ring_leaks_example =
    close_ring_leaks os os-Tracks 3 params (start 2) buffers (sq_pointers 100 params.sq_offset)
      (cq_pointers 100 params.cq_offset) allocated

new_ring_lem_example :
    let (out, w') = new_ring os 4 [] (start 1) in IsNew os os-Tracks (start 1) w' out
new_ring_lem_example = new_ring_lem os os-Tracks 4 [] (start 1)

-- A ring of 8 entries and 16 completions, as the kernel leaves it.
abbrev laid_out : RingParams
laid_out = record params {
  sq_offset = record {
    head = 0;
    tail = 4;
    ring_mask = 8;
    ring_entries = 12;
    flags = 16;
    dropped = 20;
    array = 320;
  };
  cq_offset = record {
    head = 24;
    tail = 28;
    ring_msk = 32;
    ring_entries = 36;
    overflow = 40;
    cqes = 64;
    flags = 0;
  };
}

abbrev memory : Memory
memory = record {
  word = λ addr.
      if addr == 108
      then 7
      else if addr == 112
      then 8
      else if addr == 132
      then 15
      else if addr == 136
      then 16
      else 0;
  events = λ addr n. replicate n zero_event;
  entries = λ addr n. replicate n zero_entry;
}

abbrev sq_ptrs : SqPointers
sq_ptrs = record {
  head = 100;
  tail = 104;
  ring_mask = 108;
  ring_entries = 112;
  flags = 116;
  dropped = 120;
  array = 420;
}

abbrev cq_ptrs : CqPointers
cq_ptrs = record {
  head = 124;
  tail = 128;
  ring_mask = 132;
  ring_entries = 136;
  overflow = 140;
  cqe_buff = 164;
  flags = 0;
}

memory-IsFresh : IsFresh 3 4 memory 100 100 laid_out
memory-IsFresh = record {
  sq_head = refl;
  sq_tail = refl;
  sq_mask = refl;
  sq_entries = refl;
  cq_head = refl;
  cq_tail = refl;
  cq_mask = refl;
  cq_entries = refl;
  all_events = λ addr n. length-replicate n zero_event;
  all_entries = λ addr n. length-replicate n zero_entry;
}

laid_out-allocated : (alloc_ring os 3 laid_out (start 2)).0 ≡ inr (buffers, sq_ptrs, cq_ptrs)
unfolding alloc_ring single_mmap_feature sq_pointers cq_pointers
laid_out-allocated = refl

laid_out-shared : cq_mapping os 3 laid_out 100 (first_mapping os 3 laid_out (start 2)).1 ≡ inr 100
unfolding single_mmap_feature
laid_out-shared = refl

alloc_ring-IsValid_example :
    IsSqValid 3 (load_sq memory buffers sq_ptrs)
    × IsCqValid 4 (load_cq memory cq_ptrs)
    × (pending 8 (load_sq memory buffers sq_ptrs) ≡ record { submitted = []; prepared = [] })
    × (ready 16 (load_cq memory cq_ptrs) ≡ [])
alloc_ring-IsValid_example =
    alloc_ring-IsValid os 3 laid_out 100 100 (start 2) buffers sq_ptrs cq_ptrs laid_out-allocated
      refl laid_out-shared memory-IsFresh (omega arith) (omega arith)
