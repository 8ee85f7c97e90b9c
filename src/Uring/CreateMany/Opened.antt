-- ===== src/Uring/CreateMany/Opened.antt =====
-- The descriptors that are open while `CreateMany` runs.
use go_uring.Base.{
  ℕ, ◌≡◌, refl, ap, ◌∙◌, Bool, true, false, ◌⊎◌, inl, inr, List, [], ◌∷◌, ◌==◌, if◌then◌else◌, ◌||◌,
  arith,
}
use go_uring.Uring.Params.{SetupOption}
use go_uring.Uring.Setup.{Os, NewRing, too_many_entries, setup_failed, made, new_ring, close_ring}
use go_uring.Uring.Setup.Memory.{Tracks, set}
use go_uring.Uring.Setup.New.{IsNew, new_ring_lem}
use go_uring.Uring.Setup.Close.{close_ring-opened}
use go_uring.Uring.CreateMany.{
  RingHandle, RingError, entries_error, setup_error, alloc_error, ring_of, Made, without, add_made,
  close_each, close_all,
}

-- Whether a ring with this descriptor is in the list.
abbrev pub has_fd : ℕ → List RingHandle → Bool
has_fd x [] = false
has_fd x (r ∷ rs) = x == r.fd || has_fd x rs

pub has_fd-without :
    (x fd : ℕ) (rs : List RingHandle)
    → (x == fd || has_fd x (without fd rs)) ≡ (x == fd || has_fd x rs)
has_fd-without x fd [] = refl
has_fd-without x fd (r ∷ rs) = let ih = has_fd-without x fd rs in grind arith

module _ {K : Type 0} (os : Os K) {mapped opened : K → ℕ → Bool} (t : Tracks os mapped opened) where
  -- After an error, what is open: no more than before, and the ring whose `allocRing` failed.
  abbrev pub LeftOpen : K → RingError → K → Type 0
  LeftOpen w0 entries_error w' = opened w' ≡ opened w0
  LeftOpen w0 (setup_error e) w' = opened w' ≡ opened w0
  LeftOpen w0 (alloc_error fd e) w' = (opened w0 fd ≡ false) × (opened w' ≡ set fd true (opened w0))

  abbrev pub Opens : K → RingError ⊎ RingHandle → K → Type 0
  Opens w (inl e) w' = LeftOpen w e w'
  Opens w (inr r) w' = (opened w r.fd ≡ false) × (opened w' ≡ set r.fd true (opened w))

  pub IsNew-Opens : (w w' : K) (out : NewRing) → IsNew os t w w' out → Opens w (ring_of out) w'
  unfolding ring_of
  IsNew-Opens w w' too_many_entries h = h.0
  IsNew-Opens w w' (setup_failed e) h = h.0
  IsNew-Opens w w' (made fd p (inl e)) h = (h.0, h.1)
  IsNew-Opens w w' (made fd p (inr (m, sq, cq))) h = (h.0, h.1)

  pub new_ring-Opens :
      (entries : ℕ) (opts : List SetupOption) (w : K)
      → let (out, w') = new_ring os entries opts w in Opens w (ring_of out) w'
  new_ring-Opens entries opts w =
      IsNew-Opens w (new_ring os entries opts w).1 (new_ring os entries opts w).0
        (new_ring_lem os t entries opts w)

  module _ (order : List RingHandle → List RingHandle)
      (visits : (rs : List RingHandle) (x : ℕ) → has_fd x (order rs) ≡ has_fd x rs)
      (entries : ℕ) where
    close_each-opened :
        (rs : List RingHandle) (w : K) (x : ℕ)
        → opened (close_each os order entries rs w).1 x
          ≡ (if has_fd x rs then false else opened w x)
    unfolding close_each
    close_each-opened [] w x = refl
    close_each-opened (r ∷ rs) w x =
        let w' = (close_ring os r.fd r.mapping w).1 in
        let ih = close_each-opened rs w' x in
        let c = ap (λ f. f x) (close_ring-opened os t r.fd r.mapping w) in ih ∙ grind arith

    -- What is open while `CreateMany` runs from `w0`: the rings that it has to close, and what was open.
    unfoldable pub Opened : K → Made → K → Type 0
    Opened w0 st w =
        (x : ℕ)
        → (opened w x ≡ (has_fd x st.defers || opened w0 x))
          × (has_fd x st.defers ≡ true → opened w0 x ≡ false)

    -- Closing what it has to close from `w'`, in which a ring may be open that it does not know.
    pub close_all-opened :
        (w0 : K) (st : Made) (w w' : K) (x : ℕ)
        → Opened w0 st w
        → (opened w' x ≡ opened w x)
        → opened (close_all os order entries st w').1 x ≡ opened w0 x
    unfolding close_all Opened
    close_all-opened w0 st w w' x h same =
        let hx = h x in
        let v = visits st.defers x in close_each-opened (order st.defers) w' x ∙ grind arith

    pub close_all-extra :
        (w0 : K) (st : Made) (w w' : K) (fd x : ℕ)
        → Opened w0 st w
        → opened w fd ≡ false
        → opened w' ≡ set fd true (opened w)
        → opened (close_all os order entries st w').1 x ≡ set fd true (opened w0) x
    unfolding close_all Opened
    close_all-extra w0 st w w' fd x h fresh now =
        let hx = h x in
        let v = visits st.defers x in
        let nx = ap (λ f. f x) now in close_each-opened (order st.defers) w' x ∙ grind arith

    pub before_new :
        (w0 : K) (st : Made) (w : K) (fd : ℕ)
        → Opened w0 st w
        → opened w fd ≡ false
        → opened w0 fd ≡ false
    unfolding Opened
    before_new w0 st w fd h fresh = let hx = h fd in grind arith

    pub add_made-Opened :
        (w0 : K) (st : Made) (w w' : K) (r : RingHandle)
        → Opened w0 st w
        → opened w r.fd ≡ false
        → opened w' ≡ set r.fd true (opened w)
        → Opened w0 (add_made r st) w'
    unfolding Opened add_made
    add_made-Opened w0 st w w' r h fresh now = λ x. at x
      where
        at :
            (x : ℕ)
            → (opened w' x ≡ (has_fd x (r ∷ without r.fd st.defers) || opened w0 x))
              × (has_fd x (r ∷ without r.fd st.defers) ≡ true → opened w0 x ≡ false)
        at x =
            let hx = h x in
            let nx = ap (λ f. f x) now in
            let u = has_fd-without x r.fd st.defers in (grind arith, λ e. grind arith)
