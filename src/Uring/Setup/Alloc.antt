-- ===== src/Uring/Setup/Alloc.antt =====
-- `allocRing` on every outcome of its calls.
use go_uring.Base.{
  ℕ, ◌*◌, ◌≡◌, ◌≢◌, refl, sym, ap, ◌∙◌, Bool, true, false, none, some, ◌⊎◌, inl, inr, ◌==◌, arith,
  Bool-cases, fun_ext,
}
use go_uring.Uring.Params.{RingParams, single_mmap_feature}
use go_uring.Uring.Setup.{
  Os, AllocRing, and_then, free_ring, map_entries, map_cq, alloc_ring, ring_sizes, sqes_offset,
  cq_ring_offset,
}
use go_uring.Uring.Setup.Memory.{
  Tracks, set, Sum-cases, set_back, set_back_own, set_back_shared, free_ring-own, free_ring-one,
  free_ring-shared,
}

-- What is mapped after `allocRing`, if `before` was mapped before: no more after an error; after a
-- success what the ring names, of which the entries have an address of their own.
abbrev pub IsAllocated : (before after : ℕ → Bool) → AllocRing → Type 0
IsAllocated before after (inl e) = after ≡ before
IsAllocated before after (inr (m, sq_p, cq_p)) =
    (sq cq sqe : ℕ) × (m ≡ record { sq_buff = some sq; cq_buff = some cq; sqe_buff = some sqe })
    × (before sq ≡ false)
    × (before cq ≡ false)
    × (before sqe ≡ false)
    × ((sqe ≢ sq) × (sqe ≢ cq))
    × (after ≡ set sqe true (set cq true (set sq true before)))

outside :
    (sq cq a : ℕ) (f : ℕ → Bool)
    → set cq true (set sq true f) a ≡ false
    → (f a ≡ false) × ((a ≢ sq) × (a ≢ cq))
outside sq cq a f h = grind arith

twice : (sq : ℕ) (f : ℕ → Bool) → set sq true (set sq true f) ≡ set sq true f
twice sq f = fun_ext (λ x. at x)
  where
    at : (x : ℕ) → set sq true (set sq true f) x ≡ set sq true f x
    at x = grind arith

module _ {K : Type 0} (os : Os K) {mapped opened : K → ℕ → Bool} (t : Tracks os mapped opened)
    (before : ℕ → Bool) where
  abbrev Allocated : AllocRing × K → Type 0
  Allocated out = IsAllocated before (mapped out.1) out.0

  free_rings :
      (sq cq : ℕ) (w : K)
      → before sq ≡ false
      → before cq ≡ false
      → mapped w ≡ set cq true (set sq true before)
      → mapped (free_ring os (record { sq_buff = some sq; cq_buff = some cq; sqe_buff = none }) w).1
        ≡ before
  free_rings sq cq w hs hc now = elim (Bool-cases (cq == sq)) [
    | inl same ↦
        (free_ring-shared os t sq cq none w sq_mapped same).1
        ∙ ap (set sq false) now
        ∙ set_back_shared sq cq before hs same
    | inr other ↦
        (free_ring-own os t sq cq none w sq_mapped cq_mapped other).1
        ∙ ap (λ f. set cq false (set sq false f)) now
        ∙ set_back_own sq cq before hs hc
  ]
    where
      sq_mapped : mapped w sq ≡ true
      sq_mapped = rw now (ground arith)

      cq_mapped : mapped w cq ≡ true
      cq_mapped = rw now (ground arith)

  map_entries-Allocated :
      (fd : ℕ) (p : RingParams) (sq cq : ℕ) (w : K)
      → before sq ≡ false
      → before cq ≡ false
      → mapped w ≡ set cq true (set sq true before)
      → Allocated (map_entries os fd p sq cq w)
  unfolding map_entries and_then
  map_entries-Allocated fd p sq cq w hs hc now = elim (Sum-cases mapping.0) [
    | inl (e, failed) ↦
        rw failed
          (free_rings sq cq mapping.1 hs hc (t.mmap_fails fd sqes_offset size w e failed ∙ now))
    | inr (a, made) ↦ rw made (
      sq,
      cq,
      a,
      refl,
      hs,
      hc,
      (fresh a made).0,
      (fresh a made).1,
      (t.mmap_new fd sqes_offset size w a made).1 ∙ ap (set a true) now,
    )
  ]
    where
      size : ℕ
      size = p.sq_entries * 64

      mapping : (ℕ ⊎ ℕ) × K
      mapping = os.mmap fd sqes_offset size w

      fresh : (a : ℕ) → mapping.0 ≡ inr a → (before a ≡ false) × ((a ≢ sq) × (a ≢ cq))
      fresh a made =
          outside sq cq a before
            (sym (ap (λ f. f a) now) ∙ (t.mmap_new fd sqes_offset size w a made).0)

  map_own-Allocated :
      (fd : ℕ) (p : RingParams) (sq size : ℕ) (w : K)
      → before sq ≡ false
      → mapped w ≡ set sq true before
      → Allocated (
          and_then
            (os.mmap fd cq_ring_offset size w)
            (λ w'.
              (free_ring os (record { sq_buff = some sq; cq_buff = none; sqe_buff = none }) w').1)
            (map_entries os fd p sq))
  unfolding and_then
  map_own-Allocated fd p sq size w hs now = elim (Sum-cases mapping.0) [
    | inl (e, failed) ↦ rw failed (freed e failed)
    | inr (a, made) ↦ rw made (own_mapping a made)
  ]
    where
      mapping : (ℕ ⊎ ℕ) × K
      mapping = os.mmap fd cq_ring_offset size w

      freed :
          (e : ℕ)
          → mapping.0 ≡ inl e
          → mapped
              (free_ring os
                (record { sq_buff = some sq; cq_buff = none; sqe_buff = none })
                mapping.1).1
            ≡ before
      freed e failed =
          (free_ring-one os t sq sq none mapping.1 (ap (λ f. f sq) kept ∙ (ground arith))).1
          ∙ ap (set sq false) kept
          ∙ set_back sq before hs
        where
          kept : mapped mapping.1 ≡ set sq true before
          kept = t.mmap_fails fd cq_ring_offset size w e failed ∙ now

      own_mapping : (a : ℕ) → mapping.0 ≡ inr a → Allocated (map_entries os fd p sq a mapping.1)
      own_mapping a made =
          map_entries-Allocated fd p sq a mapping.1 hs
            (outside sq sq a before (sym (ap (λ f. f a) (now ∙ sym (twice sq before))) ∙ new.0)).0
            (new.1 ∙ ap (set a true) now)
        where
          new : (mapped w a ≡ false) × (mapped mapping.1 ≡ set a true (mapped w))
          new = t.mmap_new fd cq_ring_offset size w a made

  map_cq-Allocated :
      (fd : ℕ) (p : RingParams) (sq : ℕ) (w : K)
      → before sq ≡ false
      → mapped w ≡ set sq true before
      → Allocated (map_cq os fd p sq w)
  unfolding map_cq and_then
  map_cq-Allocated fd p sq w hs now = elim (Bool-cases (single_mmap_feature p)) [
    | inl single ↦
        rw single (map_entries-Allocated fd p sq sq w hs hs (now ∙ sym (twice sq before)))
    | inr own ↦ rw own (map_own-Allocated fd p sq _ w hs now)
  ]

  pub alloc_ring-Allocated :
      (fd : ℕ) (p : RingParams) (w : K) → mapped w ≡ before → Allocated (alloc_ring os fd p w)
  unfolding alloc_ring and_then
  alloc_ring-Allocated fd p w now = elim (Sum-cases mapping.0) [
    | inl (e, failed) ↦ rw failed (t.mmap_fails fd 0 (ring_sizes p).0 w e failed ∙ now)
    | inr (a, made) ↦ rw made (
        map_cq-Allocated fd p a mapping.1
          (sym (ap (λ f. f a) now) ∙ (t.mmap_new fd 0 (ring_sizes p).0 w a made).0)
          ((t.mmap_new fd 0 (ring_sizes p).0 w a made).1 ∙ ap (set a true) now))
  ]
    where
      mapping : (ℕ ⊎ ℕ) × K
      mapping = os.mmap fd 0 (ring_sizes p).0 w
