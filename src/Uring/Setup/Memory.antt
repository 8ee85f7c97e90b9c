-- ===== src/Uring/Setup/Memory.antt =====
-- What is mapped and what is open before and after the calls of a ring's set-up.
use go_uring.Base.{
  ℕ, ◌≡◌, refl, ap, ◌∙◌, Bool, true, false, Option, none, some, ◌⊎◌, inl, inr, ◌==◌, if◌then◌else◌,
  arith, fun_ext,
}
use go_uring.Uring.Params.{RingParams}
use go_uring.Uring.Setup.{Os, Mapping, is_same, unmap_buff, join_err, free_ring}

-- A set of numbers with one of them put in or taken out.
abbrev pub set : ℕ → Bool → (ℕ → Bool) → ℕ → Bool
set a b f x = if x == a then b else f x

-- What the manuals of mmap(2), munmap(2), close(2) and io_uring_setup(2) say of the mappings, by their
-- addresses, and of the open descriptors. A failed call changes neither, except that close(2) always
-- releases the descriptor; unmapping what is mapped succeeds.
pub record Tracks {K : Type 0} (os : Os K) (mapped opened : K → ℕ → Bool) : Type 0 where
  pub mmap_new :
      (fd offset size : ℕ) (w : K) (a : ℕ)
      → (os.mmap fd offset size w).0 ≡ inr a
      → (mapped w a ≡ false) × (mapped (os.mmap fd offset size w).1 ≡ set a true (mapped w))
  pub mmap_fails :
      (fd offset size : ℕ) (w : K) (e : ℕ)
      → (os.mmap fd offset size w).0 ≡ inl e
      → mapped (os.mmap fd offset size w).1 ≡ mapped w
  pub munmap_mapped :
      (a : ℕ) (w : K)
      → mapped w a ≡ true
      → ((os.munmap a w).0 ≡ none) × (mapped (os.munmap a w).1 ≡ set a false (mapped w))
  pub close_keeps : (fd : ℕ) (w : K) → mapped (os.close fd w).1 ≡ mapped w
  pub close_closes : (fd : ℕ) (w : K) → opened (os.close fd w).1 ≡ set fd false (opened w)
  pub mmap_keeps : (fd offset size : ℕ) (w : K) → opened (os.mmap fd offset size w).1 ≡ opened w
  pub munmap_keeps : (a : ℕ) (w : K) → opened (os.munmap a w).1 ≡ opened w
  pub setup_opens :
      (n : ℕ) (p : RingParams) (w : K) (fd : ℕ) (p' : RingParams)
      → (os.setup n p w).0 ≡ inr (fd, p')
      → (opened w fd ≡ false) × (opened (os.setup n p w).1 ≡ set fd true (opened w))
  pub setup_fails :
      (n : ℕ) (p : RingParams) (w : K) (e : ℕ)
      → (os.setup n p w).0 ≡ inl e
      → opened (os.setup n p w).1 ≡ opened w
  pub setup_keeps : (n : ℕ) (p : RingParams) (w : K) → mapped (os.setup n p w).1 ≡ mapped w

pub Sum-cases {ℓ} : {E X : Type ℓ} (s : E ⊎ X) → ((e : E) × (s ≡ inl e)) ⊎ ((x : X) × (s ≡ inr x))
Sum-cases (inl e) = inl (e, refl)
Sum-cases (inr x) = inr (x, refl)

pub set_back : (sq : ℕ) (f : ℕ → Bool) → f sq ≡ false → set sq false (set sq true f) ≡ f
set_back sq f hs = fun_ext (λ x. at x)
  where
    at : (x : ℕ) → set sq false (set sq true f) x ≡ f x
    at x = grind arith

module _ (sq cq : ℕ) (f : ℕ → Bool) (hs : f sq ≡ false) where
  pub set_back_own : f cq ≡ false → set cq false (set sq false (set cq true (set sq true f))) ≡ f
  set_back_own hc = fun_ext (λ x. at x)
    where
      at : (x : ℕ) → set cq false (set sq false (set cq true (set sq true f))) x ≡ f x
      at x = grind arith

  pub set_back_shared : (cq == sq) ≡ true → set sq false (set cq true (set sq true f)) ≡ f
  set_back_shared same = fun_ext (λ x. at x)
    where
      at : (x : ℕ) → set sq false (set cq true (set sq true f)) x ≡ f x
      at x = grind arith

module _ {K : Type 0} (os : Os K) {mapped opened : K → ℕ → Bool} (t : Tracks os mapped opened) where
  module _ (sq cq : ℕ) (sqe : Option ℕ) (w : K) (hs : mapped w sq ≡ true) where
    abbrev pub two : Option ℕ → Mapping
    two c = record { sq_buff = some sq; cq_buff = c; sqe_buff = sqe }

    abbrev pub freed : Option ℕ → Option ℕ × K
    freed c = free_ring os (two c) w

    pub free_ring-own :
        mapped w cq ≡ true
        → (cq == sq) ≡ false
        → ((freed (some cq)).0 ≡ none)
          × (mapped (freed (some cq)).1 ≡ set cq false (set sq false (mapped w)))
    unfolding free_ring unmap_buff join_err is_same
    free_ring-own hc other = rw other (rw one.0 two_.0, two_.1 ∙ ap (set cq false) one.1)
      where
        one : ((os.munmap sq w).0 ≡ none) × (mapped (os.munmap sq w).1 ≡ set sq false (mapped w))
        one = t.munmap_mapped sq w hs

        two_ :
            ((os.munmap cq (os.munmap sq w).1).0 ≡ none)
            × (mapped (os.munmap cq (os.munmap sq w).1).1
                ≡ set cq false (mapped (os.munmap sq w).1))
        two_ = t.munmap_mapped cq (os.munmap sq w).1 (rw (one.1, other) hc)

    pub free_ring-one : ((freed none).0 ≡ none) × (mapped (freed none).1 ≡ set sq false (mapped w))
    unfolding free_ring unmap_buff join_err is_same
    free_ring-one = t.munmap_mapped sq w hs

    pub free_ring-shared :
        (cq == sq) ≡ true
        → ((freed (some cq)).0 ≡ none) × (mapped (freed (some cq)).1 ≡ set sq false (mapped w))
    unfolding free_ring unmap_buff join_err is_same
    free_ring-shared same = rw same (t.munmap_mapped sq w hs)
