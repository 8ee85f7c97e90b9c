-- ===== src/Uring/Setup.antt =====
-- uring/setup.go and New and Close of uring/ring.go: the memory of a ring. The system calls are a
-- parameter: functions on a state `K` of the system.
pub mod Sizes
pub mod Memory
pub mod Alloc
pub mod Close
pub mod New
pub mod Made
pub mod Instance
pub mod Load
pub mod Pointers
pub mod Fresh
mod Tests
use go_uring.Base.{
  ℕ, ◌+◌, ◌*◌, ◌%◌, ◌^◌, Bool, true, false, Option, none, some, ◌⊎◌, inl, inr, List, ltb, ◌==◌,
  if◌then◌else◌, ◌||◌,
}
use go_uring.Base.Word.{u32_mod, u64_mod}
use go_uring.Uring.Params.{
  RingParams, SqRingParams, CqRingParams, SetupOption, single_mmap_feature, apply_options,
  zero_params,
}

-- `MaxEntries`, and the offsets of the three mappings.
abbrev pub max_entries : ℕ
max_entries = 2 ^ 15

abbrev pub cq_ring_offset : ℕ
cq_ring_offset = 2 ^ 27

abbrev pub sqes_offset : ℕ
sqes_offset = 2 ^ 28

-- The sizes of the two rings: first each for itself, then the larger one for both if they share a
-- mapping. An index is 4 bytes, a completion 16.
unfoldable pub own_sizes : RingParams → ℕ × ℕ
own_sizes p = (
  (p.sq_offset.array + p.sq_entries * 4 % u32_mod) % u64_mod,
  (p.cq_offset.cqes + p.cq_entries * 16 % u32_mod) % u64_mod,
)

unfoldable pub ring_sizes : RingParams → ℕ × ℕ
unfolding own_sizes single_mmap_feature
ring_sizes p =
    let (sq, cq) = own_sizes p in
    let larger = if ltb sq cq then cq else sq in
    if single_mmap_feature p then (larger, larger) else (sq, cq)

-- The addresses of the fields that the Go structs point to.
pub record SqPointers : Type 0 where
  pub head : ℕ
  pub tail : ℕ
  pub ring_mask : ℕ
  pub ring_entries : ℕ
  pub flags : ℕ
  pub dropped : ℕ
  pub array : ℕ

pub record CqPointers : Type 0 where
  pub head : ℕ
  pub tail : ℕ
  pub ring_mask : ℕ
  pub ring_entries : ℕ
  pub overflow : ℕ
  pub cqe_buff : ℕ
  pub flags : ℕ

unfoldable pub sq_pointers : ℕ → SqRingParams → SqPointers
sq_pointers start o = record {
  head = start + o.head;
  tail = start + o.tail;
  ring_mask = start + o.ring_mask;
  ring_entries = start + o.ring_entries;
  flags = start + o.flags;
  dropped = start + o.dropped;
  array = start + o.array;
}

-- `kFlags` stays 0 if the kernel gives no offset for it.
unfoldable pub cq_pointers : ℕ → CqRingParams → CqPointers
cq_pointers start o = record {
  head = start + o.head;
  tail = start + o.tail;
  ring_mask = start + o.ring_msk;
  ring_entries = start + o.ring_entries;
  overflow = start + o.overflow;
  cqe_buff = start + o.cqes;
  flags = if o.flags == 0 then 0 else start + o.flags;
}

-- EINVAL
abbrev pub einval : ℕ
einval = 22

-- What is mapped, and what it holds; `none` for a nil buffer.
pub record Mapping : Type 0 where
  pub sq_buff : Option ℕ
  pub cq_buff : Option ℕ
  pub sqe_buff : Option ℕ

-- `joinErr`, on errors as errnos: the first one is wrapped.
unfoldable pub join_err : Option ℕ → Option ℕ → Option ℕ
join_err none e = e
join_err (some e) e' = some e

-- What `New` returns: an error alone, or the ring, with an error if `allocRing` failed.
pub data NewRing : Type 0 where
  too_many_entries : NewRing
  setup_failed : (errno : ℕ) → NewRing
  made : (fd : ℕ) → RingParams → ℕ ⊎ (Mapping × SqPointers × CqPointers) → NewRing

-- The system calls on a ring: an errno, or the descriptor with the parameters, or the address.
pub record Os (K : Type 0) : Type 0 where
  pub setup : (entries : ℕ) → RingParams → K → (ℕ ⊎ (ℕ × RingParams)) × K
  pub mmap : (fd offset size : ℕ) → K → (ℕ ⊎ ℕ) × K
  pub munmap : (buff : ℕ) → K → Option ℕ × K
  pub close : (fd : ℕ) → K → Option ℕ × K

-- The way on after a result, and what undoes the earlier steps after an error.
unfoldable pub and_then :
    {E X Y K : Type 0} → (E ⊎ X) × K → (undo : K → K) → (X → K → (E ⊎ Y) × K) → (E ⊎ Y) × K
and_then (inl e, w) undo k = (inl e, undo w)
and_then (inr x, w) undo k = k x w

unfoldable pub is_same : Option ℕ → Option ℕ → Bool
is_same none none = true
is_same none (some b) = false
is_same (some a) none = false
is_same (some a) (some b) = a == b

abbrev pub AllocRing : Type 0
AllocRing = ℕ ⊎ (Mapping × SqPointers × CqPointers)

module _ {K : Type 0} (os : Os K) where
  -- `syscall.Munmap`, which refuses a nil buffer with EINVAL.
  unmap_buff : Option ℕ → K → Option ℕ × K
  unmap_buff none w = (some einval, w)
  unmap_buff (some buff) w = os.munmap buff w

  -- `freeRing`: the completion ring is unmapped if it has a mapping of its own.
  unfoldable pub free_ring : Mapping → K → Option ℕ × K
  unfolding unmap_buff join_err is_same
  free_ring m w =
      let (e, w') = unmap_buff m.sq_buff w in
      let (e', w'') = unmap_buff m.cq_buff w' in
      if is_same m.cq_buff none || is_same m.cq_buff m.sq_buff
      then (e, w')
      else (join_err e e', w'')

  -- The steps of `allocRing`: the entries, before them the completion ring.
  map_entries : ℕ → RingParams → (sq cq : ℕ) → K → AllocRing × K
  unfolding and_then free_ring sq_pointers cq_pointers
  map_entries fd p sq cq w =
      and_then (os.mmap fd sqes_offset (p.sq_entries * 64) w)
        (λ w'. (free_ring (record { sq_buff = some sq; cq_buff = some cq; sqe_buff = none }) w').1)
        (λ buff w'. (
          inr (
            record { sq_buff = some sq; cq_buff = some cq; sqe_buff = some buff },
            sq_pointers sq p.sq_offset,
            cq_pointers cq p.cq_offset,
          ),
          w',
        ))

  map_cq : ℕ → RingParams → (sq : ℕ) → K → AllocRing × K
  unfolding and_then map_entries ring_sizes free_ring single_mmap_feature
  map_cq fd p sq w =
      and_then
        (if single_mmap_feature p
          then (inr sq, w)
          else os.mmap fd cq_ring_offset (ring_sizes p).1 w)
        (λ w'. (free_ring (record { sq_buff = some sq; cq_buff = none; sqe_buff = none }) w').1)
        (map_entries fd p sq)

  -- `allocRing`
  unfoldable pub alloc_ring : ℕ → RingParams → K → AllocRing × K
  unfolding and_then map_cq ring_sizes
  alloc_ring fd p w = and_then (os.mmap fd 0 (ring_sizes p).0 w) (λ w'. w') (map_cq fd p)

  -- `Close`
  unfoldable pub close_ring : ℕ → Mapping → K → Option ℕ × K
  unfolding free_ring join_err
  close_ring fd m w =
      let (e, w') = free_ring m w in let (e', w'') = os.close fd w' in (join_err e e', w'')

  -- `New`, after io_uring_setup(2) and from its start.
  new_ring_with : (ℕ ⊎ (ℕ × RingParams)) × K → NewRing × K
  unfolding alloc_ring
  new_ring_with (inl e, w) = (setup_failed e, w)
  new_ring_with (inr (fd, p), w) = let (out, w') = alloc_ring fd p w in (made fd p out, w')

  unfoldable pub new_ring : (entries : ℕ) → List SetupOption → K → NewRing × K
  unfolding new_ring_with apply_options
  new_ring entries opts w =
      if ltb max_entries entries
      then (too_many_entries, w)
      else new_ring_with (os.setup entries (apply_options opts zero_params) w)
