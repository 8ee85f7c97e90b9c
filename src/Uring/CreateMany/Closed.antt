-- ===== src/Uring/CreateMany/Closed.antt =====
-- Which descriptors `CreateMany` leaves open.
use go_uring.Base.{
  ℕ, zero, suc, ◌+◌, ◌-◌, ◌≡◌, refl, ap, subst, Bool, true, false, ◌⊎◌, inl, inr, List, [], ◌∷◌,
  ◌++◌, ltb, ◌==◌, ◌||◌, arith, Bool-cases, fun_ext, ◌/◌, ◌%◌,
}
use go_uring.Uring.Params.{SetupOption, with_attached_wq}
use go_uring.Uring.Setup.{Os, new_ring, and_then}
use go_uring.Uring.Setup.Memory.{Tracks}
use go_uring.Uring.CreateMany.Opened.{
  has_fd, LeftOpen, Opens, new_ring-Opens, Opened, close_all-opened, close_all-extra,
  add_made-Opened, before_new,
}
use go_uring.Uring.CreateMany.{
  RingHandle, RingError, entries_error, setup_error, alloc_error, ring_of, Made, add_made, Created,
  panicked, not_enough, not_multiple, ring_failed, created, created_of, close_all, add_ring,
  attached, pool, pools, create_many,
}

module _ {K : Type 0} (os : Os K) {mapped opened : K → ℕ → Bool} (t : Tracks os mapped opened) where
  module _ (order : List RingHandle → List RingHandle)
      (visits : (rs : List RingHandle) (x : ℕ) → has_fd x (order rs) ≡ has_fd x rs)
      (entries : ℕ) where
    -- What is open after a part of `CreateMany`.
    Left : {X : Type 0} → (X → Made) → K → (RingError ⊎ X) × K → Type 0
    Left made_of w0 (inl e, w') = LeftOpen os t w0 e w'
    Left made_of w0 (inr x, w') = Opened os t order visits entries w0 (made_of x) w'

    abbrev LeftAdded : K → (RingError ⊎ (RingHandle × Made)) × K → Type 0
    LeftAdded w0 out = Left (λ (x : RingHandle × Made). x.1) w0 out

    abbrev LeftMade : K → (RingError ⊎ Made) × K → Type 0
    LeftMade w0 out = Left (λ (st : Made). st) w0 out

    abbrev after_new : Made → (RingError ⊎ RingHandle) × K → (RingError ⊎ (RingHandle × Made)) × K
    after_new st out =
        and_then out (λ w''. (close_all os order entries st w'').1)
          (λ r w''. (inr (r, add_made r st), w''))

    after_new-Left :
        (w0 : K) (st : Made) (w : K) (out : RingError ⊎ RingHandle) (w' : K)
        → Opened os t order visits entries w0 st w
        → Opens os t w out w'
        → LeftAdded w0 (after_new st (out, w'))
    unfolding Left and_then
    after_new-Left w0 st w (inl entries_error) w' h o =
        fun_ext (λ x. close_all-opened os t order visits entries w0 st w w' x h (ap (λ f. f x) o))
    after_new-Left w0 st w (inl (setup_error e)) w' h o =
        fun_ext (λ x. close_all-opened os t order visits entries w0 st w w' x h (ap (λ f. f x) o))
    after_new-Left w0 st w (inl (alloc_error fd e)) w' h o = (
      before_new os t order visits entries w0 st w fd h o.0,
      fun_ext (λ x. close_all-extra os t order visits entries w0 st w w' fd x h o.0 o.1),
    )
    after_new-Left w0 st w (inr r) w' h o =
        add_made-Opened os t order visits entries w0 st w w' r h o.0 o.1

    add_ring-Left :
        (w0 : K) (opts : List SetupOption) (st : Made) (w : K)
        → Opened os t order visits entries w0 st w
        → LeftAdded w0 (add_ring os order entries opts st w)
    unfolding add_ring
    add_ring-Left w0 opts st w h =
        after_new-Left w0 st w (ring_of (new_ring os entries opts w).0)
          (new_ring os entries opts w).1 h (new_ring-Opens os t entries opts w)

    -- The way on from a part that left no error.
    and_then-Left :
        {X : Type 0} (made_of : X → Made) (w0 : K) (out : (RingError ⊎ X) × K)
        (k : X → K → (RingError ⊎ Made) × K)
        → Left made_of w0 out
        → ((x : X) (w : K)
            → Opened os t order visits entries w0 (made_of x) w
            → LeftMade w0 (k x w))
        → LeftMade w0 (and_then out (λ w. w) k)
    unfolding Left and_then
    and_then-Left made_of w0 (inl e, w) k h next = h
    and_then-Left made_of w0 (inr x, w) k h next = next x w h

    module _ (opts : List SetupOption) (w0 : K) where
      attached-Left :
          (main_fd n : ℕ) (st : Made) (w : K)
          → Opened os t order visits entries w0 st w
          → LeftMade w0 (attached os order entries opts main_fd n st w)
      unfolding attached Left
      attached-Left main_fd zero st w h = h
      attached-Left main_fd (suc n) st w h =
          and_then-Left (λ (x : RingHandle × Made). x.1) w0
            (add_ring os order entries (opts ++ (with_attached_wq main_fd ∷ [])) st w)
            (λ added. attached os order entries opts main_fd n added.1)
            (add_ring-Left w0 (opts ++ (with_attached_wq main_fd ∷ [])) st w h)
            (λ added w'. attached-Left main_fd n added.1 w')

      pool-Left :
          (per_pool : ℕ) (st : Made) (w : K)
          → Opened os t order visits entries w0 st w
          → LeftMade w0 (pool os order entries opts per_pool st w)
      unfolding pool
      pool-Left per_pool st w h =
          and_then-Left (λ (x : RingHandle × Made). x.1) w0 (add_ring os order entries opts st w)
            (λ added. attached os order entries opts added.0.fd (per_pool - 1) added.1)
            (add_ring-Left w0 opts st w h)
            (λ added w'. attached-Left added.0.fd (per_pool - 1) added.1 w')

      pools-Left :
          (fuel count per_pool i : ℕ) (st : Made) (w : K)
          → Opened os t order visits entries w0 st w
          → LeftMade w0 (pools os order entries opts fuel count per_pool i st w)
      unfolding pools Left
      pools-Left zero count per_pool i st w h = h
      pools-Left (suc fuel) count per_pool i st w h = elim (Bool-cases (ltb i count)) [
        | inl more ↦ rw more (
            and_then-Left (λ (st : Made). st) w0 (pool os order entries opts per_pool st w)
              (pools os order entries opts fuel count per_pool (i + (per_pool - 1) + 1))
              (pool-Left per_pool st w h)
              (λ st' w'. pools-Left fuel count per_pool (i + (per_pool - 1) + 1) st' w'))
        | inr done ↦ rw done h
      ]

    -- What `CreateMany` leaves open, from `w0`: after an error no more than before, and the ring whose
    -- `allocRing` failed; after a success its rings as well.
    abbrev pub LeftCreated : K → Created → K → Type 0
    LeftCreated w0 panicked w' = opened w' ≡ opened w0
    LeftCreated w0 not_enough w' = opened w' ≡ opened w0
    LeftCreated w0 not_multiple w' = opened w' ≡ opened w0
    LeftCreated w0 (ring_failed e) w' = LeftOpen os t w0 e w'
    LeftCreated w0 (created st) w' =
        (x : ℕ)
        → (opened w' x ≡ (has_fd x st.defers || opened w0 x))
          × (has_fd x st.defers ≡ true → opened w0 x ≡ false)

    created_of-LeftCreated :
        (w0 : K) (out : RingError ⊎ Made) (w' : K)
        → LeftMade w0 (out, w')
        → LeftCreated w0 (created_of out) w'
    unfolding created_of Left Opened
    created_of-LeftCreated w0 (inl e) w' h = h
    created_of-LeftCreated w0 (inr st) w' h = h

    -- Whatever fails, `CreateMany` has closed what it opened but for the ring whose `allocRing`
    -- failed; if nothing fails, what is open is what was open before and the rings that the returned
    -- function closes.
    pub create_many_lem :
        (opts : List SetupOption) (count wp_count : ℕ) (w : K)
        → let (out, w') = create_many os order entries opts count wp_count w in LeftCreated w out w'
    unfolding create_many Opened
    create_many_lem opts count wp_count w = elim (Bool-cases (ltb count wp_count)) [
      | inl few ↦ rw few refl
      | inr enough ↦ rw enough (elim (Bool-cases (wp_count == 0)) [
        | inl none_ ↦ rw none_ refl
        | inr some_ ↦ rw some_ (elim (Bool-cases (count % wp_count == 0)) [
          | inl multiple ↦ rw multiple (created_of-LeftCreated w out.0 out.1 left)
          | inr rest ↦ rw rest refl
        ])
      ])
    ]
      where
        start : Made
        start = record { defers = []; rings = [] }

        out : (RingError ⊎ Made) × K
        out = pools os order entries opts count count (count / wp_count) 0 start w

        left : LeftMade w out
        left =
            pools-Left opts w count count (count / wp_count) 0 start w
              (λ x. (refl, λ e. ground arith))

    -- When `CreateMany` has created rings, the function that it returns with them closes all of them and
    -- nothing else, in whatever order the map is visited.
    pub create_many-close_all :
        (opts : List SetupOption) (count wp_count : ℕ) (w : K) (st : Made)
        → (create_many os order entries opts count wp_count w).0 ≡ created st
        → opened
            (close_all os order entries st (create_many os order entries opts count wp_count w).1).1
          ≡ opened w
    unfolding Opened
    create_many-close_all opts count wp_count w st success =
        fun_ext (λ x. close_all-opened os t order visits entries w st w' w' x open_then refl)
      where
        w' : K
        w' = (create_many os order entries opts count wp_count w).1

        open_then : Opened os t order visits entries w st w'
        open_then = subst (λ o. LeftCreated w o w') success (create_many_lem opts count wp_count w)
