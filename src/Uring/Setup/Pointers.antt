-- ===== src/Uring/Setup/Pointers.antt =====
-- Where the pointers that `allocRing` makes point to: from the addresses that mmap(2) gave, at the
-- offsets that io_uring_setup(2) wrote.
use go_uring.Base.{
  ℕ, ◌+◌, ◌*◌, ◌≡◌, refl, sym, ap, ◌∙◌, subst, some, ◌⊎◌, inl, inr, Bool, true, false, Bool-cases,
  if◌then◌else◌,
}
use go_uring.Uring.Params.{RingParams, single_mmap_feature}
use go_uring.Uring.Setup.{
  Os, Mapping, SqPointers, CqPointers, AllocRing, and_then, map_entries, map_cq, alloc_ring,
  ring_sizes, sq_pointers, cq_pointers, sqes_offset, cq_ring_offset,
}
use go_uring.Uring.Setup.Memory.{Sum-cases}

inr-inj : {a b : ℕ} → ◌≡◌ {A = ℕ ⊎ ℕ} (inr a) (inr b) → a ≡ b
inr-inj e = cc

if-first :
    {A B : Type 0} (b : Bool) (x y : A × B) → (if b then x else y).0 ≡ (if b then x.0 else y.0)
if-first true x y = refl
if-first false x y = refl

module _ {X Y K : Type 0} where
  -- What succeeds has succeeded in its first step, and goes on from there.
  and_then-made :
      (m : (ℕ ⊎ X) × K) (undo : K → K) (k : X → K → (ℕ ⊎ Y) × K) (y : Y)
      → (and_then m undo k).0 ≡ inr y
      → (x : X) × (m.0 ≡ inr x)
  unfolding and_then
  and_then-made (inl e, w) undo k y h = absurd (let no : ◌≡◌ {A = ℕ ⊎ Y} (inl e) (inr y) = h in cc)
  and_then-made (inr x, w) undo k y h = (x, refl)

  and_then-goes_on :
      (m : (ℕ ⊎ X) × K) (undo : K → K) (k : X → K → (ℕ ⊎ Y) × K) (x : X)
      → m.0 ≡ inr x
      → and_then m undo k ≡ k x m.1
  unfolding and_then
  and_then-goes_on (inl e, w) undo k x h =
      absurd (let no : ◌≡◌ {A = ℕ ⊎ X} (inl e) (inr x) = h in cc)
  and_then-goes_on (inr z, w) undo k x h =
      let same : ◌≡◌ {A = ℕ ⊎ X} (inr z) (inr x) = h in ap (λ y. k y w) cc

module _ {K : Type 0} (os : Os K) (fd : ℕ) (p : RingParams) where
  -- The mapping at offset 0, and that of the completion ring: the same, or at its own offset.
  abbrev pub first_mapping : K → (ℕ ⊎ ℕ) × K
  first_mapping w = os.mmap fd 0 (ring_sizes p).0 w

  abbrev pub cq_mapping : (sq : ℕ) → K → ℕ ⊎ ℕ
  cq_mapping sq w =
      if single_mmap_feature p then inr sq else (os.mmap fd cq_ring_offset (ring_sizes p).1 w).0

  -- The pointers of a ring whose mappings are at `sq` and `cq`.
  abbrev pub PointsTo : (sq cq : ℕ) → AllocRing → Type 0
  PointsTo sq cq (inl e) = Unit {0}
  PointsTo sq cq (inr (m, ps, pc)) =
      (sqe : ℕ) × (m ≡ record { sq_buff = some sq; cq_buff = some cq; sqe_buff = some sqe })
      × (ps ≡ record {
        head = sq + p.sq_offset.head;
        tail = sq + p.sq_offset.tail;
        ring_mask = sq + p.sq_offset.ring_mask;
        ring_entries = sq + p.sq_offset.ring_entries;
        flags = sq + p.sq_offset.flags;
        dropped = sq + p.sq_offset.dropped;
        array = sq + p.sq_offset.array;
      })
      × (pc.head ≡ cq + p.cq_offset.head)
      × (pc.tail ≡ cq + p.cq_offset.tail)
      × (pc.ring_mask ≡ cq + p.cq_offset.ring_msk)
      × (pc.ring_entries ≡ cq + p.cq_offset.ring_entries)
      × (pc.cqe_buff ≡ cq + p.cq_offset.cqes)

  map_cq-mapped :
      (sq : ℕ) (w : K) (out : Mapping × SqPointers × CqPointers)
      → (map_cq os fd p sq w).0 ≡ inr out
      → (cq : ℕ) × (cq_mapping sq w ≡ inr cq)
  unfolding map_cq
  map_cq-mapped sq w out h =
      let (cq, made) = and_then-made _ _ (map_entries os fd p sq) out h in
      (cq, sym (if-first (single_mmap_feature p) (inr sq, w) _) ∙ made)

  map_entries-PointsTo : (sq cq : ℕ) (w : K) → PointsTo sq cq (map_entries os fd p sq cq w).0
  unfolding map_entries and_then sq_pointers cq_pointers
  map_entries-PointsTo sq cq w = elim (Sum-cases (os.mmap fd sqes_offset (p.sq_entries * 64) w).0) [
    | inl (e, failed) ↦ rw failed tt
    | inr (a, mapped) ↦ rw mapped (a, refl, refl, refl, refl, refl, refl, refl)
  ]

  map_cq-PointsTo :
      (sq cq : ℕ) (w : K) → cq_mapping sq w ≡ inr cq → PointsTo sq cq (map_cq os fd p sq w).0
  unfolding map_cq and_then
  map_cq-PointsTo sq cq w = elim (Bool-cases (single_mmap_feature p)) [
    | inl single ↦ rw single (λ h.
        subst (λ c. PointsTo sq c (map_entries os fd p sq sq w).0) (inr-inj h)
          (map_entries-PointsTo sq sq w))
    | inr own ↦ rw own (λ h. rw h (map_entries-PointsTo sq cq _))
  ]

  pub alloc_ring-PointsTo :
      (sq cq : ℕ) (w : K)
      → (first_mapping w).0 ≡ inr sq
      → cq_mapping sq (first_mapping w).1 ≡ inr cq
      → PointsTo sq cq (alloc_ring os fd p w).0
  unfolding alloc_ring and_then
  alloc_ring-PointsTo sq cq w h h' = rw h (map_cq-PointsTo sq cq (first_mapping w).1 h')

  -- A ring that is set up has both mappings.
  pub alloc_ring-mapped :
      (w : K) (out : Mapping × SqPointers × CqPointers)
      → (alloc_ring os fd p w).0 ≡ inr out
      → (sq : ℕ) × (cq : ℕ) × ((first_mapping w).0 ≡ inr sq)
        × (cq_mapping sq (first_mapping w).1 ≡ inr cq)
  unfolding alloc_ring
  alloc_ring-mapped w out h =
      let (sq, made) = and_then-made (first_mapping w) (λ w'. w') (map_cq os fd p) out h in
      let (cq, made') = map_cq-mapped sq (first_mapping w).1 out (
        sym (
          ap (λ (o : AllocRing × K). o.0)
            (and_then-goes_on (first_mapping w) (λ w'. w') (map_cq os fd p) sq made))
        ∙ h) in
      (sq, cq, made, made')
