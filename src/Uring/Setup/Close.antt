-- ===== src/Uring/Setup/Close.antt =====
-- What `Close` leaves of a ring, and which descriptors the calls leave open.
use go_uring.Base.{
  ℕ, ◌*◌, ◌≡◌, ◌≢◌, refl, ap, ◌∙◌, Bool, true, false, Option, none, some, ◌⊎◌, inl, inr, ◌==◌,
  arith, Bool-cases, fun_ext, subst, ◌||◌,
}
use go_uring.Uring.Params.{RingParams, single_mmap_feature}
use go_uring.Uring.Setup.{
  Os, Mapping, SqPointers, CqPointers, and_then, is_same, unmap_buff, free_ring, map_entries,
  map_cq, alloc_ring, sqes_offset, cq_ring_offset, ring_sizes, close_ring,
}
use go_uring.Uring.Setup.Memory.{Tracks, set, Sum-cases, free_ring-own, free_ring-shared}
use go_uring.Uring.Setup.Alloc.{IsAllocated, alloc_ring-Allocated}

module _ (sq cq sqe : ℕ) (f : ℕ → Bool) (hs : f sq ≡ false) (other_sq : sqe ≢ sq) where
  entries_left_shared :
      (cq == sq) ≡ true → set sq false (set sqe true (set cq true (set sq true f))) ≡ set sqe true f
  entries_left_shared same = fun_ext (λ x. at x)
    where
      at : (x : ℕ) → set sq false (set sqe true (set cq true (set sq true f))) x ≡ set sqe true f x
      at x = grind arith

  entries_left_own :
      f cq ≡ false
      → sqe ≢ cq
      → set cq false (set sq false (set sqe true (set cq true (set sq true f)))) ≡ set sqe true f
  entries_left_own hc other_cq = fun_ext (λ x. at x)
    where
      at :
          (x : ℕ)
          → set cq false (set sq false (set sqe true (set cq true (set sq true f)))) x
            ≡ set sqe true f x
      at x = grind arith

module _ {K : Type 0} (os : Os K) {mapped opened : K → ℕ → Bool} (t : Tracks os mapped opened) where
  unmap_buff-opened : (b : Option ℕ) (w : K) → opened (unmap_buff os b w).1 ≡ opened w
  unfolding unmap_buff
  unmap_buff-opened none w = refl
  unmap_buff-opened (some b) w = t.munmap_keeps b w

  free_ring-opened : (m : Mapping) (w : K) → opened (free_ring os m w).1 ≡ opened w
  unfolding free_ring
  free_ring-opened m w = elim (Bool-cases (is_same m.cq_buff none || is_same m.cq_buff m.sq_buff)) [
    | inl shared ↦ rw shared (unmap_buff-opened m.sq_buff w)
    | inr own ↦
        rw own (
          unmap_buff-opened m.cq_buff (unmap_buff os m.sq_buff w).1 ∙ unmap_buff-opened m.sq_buff w)
  ]

  map_entries-opened :
      (fd : ℕ) (p : RingParams) (sq cq : ℕ) (w : K)
      → opened (map_entries os fd p sq cq w).1 ≡ opened w
  unfolding map_entries
  map_entries-opened fd p sq cq w = elim (Sum-cases mapping.0) [
    | inl (e, failed) ↦ rw failed (
        free_ring-opened (record { sq_buff = some sq; cq_buff = some cq; sqe_buff = none })
          mapping.1
        ∙ kept)
    | inr (a, made) ↦ rw made kept
  ]
    where
      mapping : (ℕ ⊎ ℕ) × K
      mapping = os.mmap fd sqes_offset (p.sq_entries * 64) w

      kept : opened mapping.1 ≡ opened w
      kept = t.mmap_keeps fd sqes_offset (p.sq_entries * 64) w

  map_own-opened :
      (fd : ℕ) (p : RingParams) (sq size : ℕ) (w : K)
      → opened
          (and_then
            (os.mmap fd cq_ring_offset size w)
            (λ w'.
              (free_ring os (record { sq_buff = some sq; cq_buff = none; sqe_buff = none }) w').1)
            (map_entries os fd p sq)).1
        ≡ opened w
  unfolding and_then
  map_own-opened fd p sq size w = elim (Sum-cases mapping.0) [
    | inl (e, failed) ↦ rw failed (
        free_ring-opened (record { sq_buff = some sq; cq_buff = none; sqe_buff = none }) mapping.1
        ∙ kept)
    | inr (a, made) ↦ rw made (map_entries-opened fd p sq a mapping.1 ∙ kept)
  ]
    where
      mapping : (ℕ ⊎ ℕ) × K
      mapping = os.mmap fd cq_ring_offset size w

      kept : opened mapping.1 ≡ opened w
      kept = t.mmap_keeps fd cq_ring_offset size w

  map_cq-opened :
      (fd : ℕ) (p : RingParams) (sq : ℕ) (w : K) → opened (map_cq os fd p sq w).1 ≡ opened w
  unfolding map_cq
  map_cq-opened fd p sq w = elim (Bool-cases (single_mmap_feature p)) [
    | inl single ↦ rw single (map_entries-opened fd p sq sq w)
    | inr own ↦ rw own (map_own-opened fd p sq _ w)
  ]

  -- `allocRing` opens and closes nothing.
  pub alloc_ring-opened :
      (fd : ℕ) (p : RingParams) (w : K) → opened (alloc_ring os fd p w).1 ≡ opened w
  unfolding alloc_ring
  alloc_ring-opened fd p w = elim (Sum-cases mapping.0) [
    | inl (e, failed) ↦ rw failed kept
    | inr (a, made) ↦ rw made (map_cq-opened fd p a mapping.1 ∙ kept)
  ]
    where
      mapping : (ℕ ⊎ ℕ) × K
      mapping = os.mmap fd 0 (ring_sizes p).0 w

      kept : opened mapping.1 ≡ opened w
      kept = t.mmap_keeps fd 0 (ring_sizes p).0 w

  pub close_ring-opened :
      (fd : ℕ) (m : Mapping) (w : K) → opened (close_ring os fd m w).1 ≡ set fd false (opened w)
  unfolding close_ring
  close_ring-opened fd m w =
      t.close_closes fd (free_ring os m w).1 ∙ ap (set fd false) (free_ring-opened m w)

  close_ring-mapped :
      (fd : ℕ) (m : Mapping) (w : K) → mapped (close_ring os fd m w).1 ≡ mapped (free_ring os m w).1
  unfolding close_ring
  close_ring-mapped fd m w = t.close_keeps fd (free_ring os m w).1

  -- `free` on what `allocRing` has mapped.
  free_ring_leaves :
      (sq cq sqe : ℕ) (f : ℕ → Bool) (w : K)
      → f sq ≡ false
      → f cq ≡ false
      → (sqe ≢ sq) × (sqe ≢ cq)
      → mapped w ≡ set sqe true (set cq true (set sq true f))
      → mapped
          (free_ring os (record { sq_buff = some sq; cq_buff = some cq; sqe_buff = some sqe }) w).1
        ≡ set sqe true f
  free_ring_leaves sq cq sqe f w hs hc other now = elim (Bool-cases (cq == sq)) [
    | inl same ↦
        (free_ring-shared os t sq cq (some sqe) w sq_mapped same).1
        ∙ ap (set sq false) now
        ∙ entries_left_shared sq cq sqe f hs other.0 same
    | inr own ↦
        (free_ring-own os t sq cq (some sqe) w sq_mapped cq_mapped own).1
        ∙ ap (λ g. set cq false (set sq false g)) now
        ∙ entries_left_own sq cq sqe f hs other.0 hc other.1
  ]
    where
      sq_mapped : mapped w sq ≡ true
      sq_mapped = rw now (ground arith)

      cq_mapped : mapped w cq ≡ true
      cq_mapped = rw now (ground arith)

  -- `Close` of a ring that `allocRing` has set up releases the descriptor and unmaps the rings; the
  -- entries stay mapped.
  pub close_ring_leaks :
      (fd : ℕ) (p : RingParams) (w : K) (m : Mapping) (ps : SqPointers) (pc : CqPointers)
      → (alloc_ring os fd p w).0 ≡ inr (m, ps, pc)
      → let w' = (close_ring os fd m (alloc_ring os fd p w).1).1 in
        (sqe : ℕ) × (m.sqe_buff ≡ some sqe)
        × (mapped w sqe ≡ false)
        × (mapped w' ≡ set sqe true (mapped w))
        × (opened w' ≡ set fd false (opened w))
  close_ring_leaks fd p w m ps pc made = closed (
      subst (IsAllocated (mapped w) (mapped w1)) made
        (alloc_ring-Allocated os t (mapped w) fd p w refl))
    where
      w1 : K
      w1 = (alloc_ring os fd p w).1

      closed :
          IsAllocated (mapped w) (mapped w1) (inr (m, ps, pc))
          → (sqe : ℕ) × (m.sqe_buff ≡ some sqe)
            × (mapped w sqe ≡ false)
            × (mapped (close_ring os fd m w1).1 ≡ set sqe true (mapped w))
            × (opened (close_ring os fd m w1).1 ≡ set fd false (opened w))
      closed (sq, cq, sqe, named, hs, hc, hsqe, other, now) = (
        sqe,
        ap (λ m'. m'.sqe_buff) named,
        hsqe,
        close_ring-mapped fd m w1
            ∙ ap (λ m'. mapped (free_ring os m' w1).1) named
            ∙ free_ring_leaves sq cq sqe (mapped w) w1 hs hc other now,
        close_ring-opened fd m w1 ∙ ap (set fd false) (alloc_ring-opened fd p w),
      )
