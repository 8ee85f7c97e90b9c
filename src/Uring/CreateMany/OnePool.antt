-- ===== src/Uring/CreateMany/OnePool.antt =====
-- The rings that one pool of `CreateMany` adds.
use go_uring.Base.{
  ℕ, zero, suc, ◌-◌, ◌≡◌, refl, sym, ap, ◌∙◌, inl, inr, List, [], ◌∷◌, ◌++◌, length, append-nil,
  append_assoc,
}
use go_uring.Uring.Params.{SetupOption, with_attached_wq, apply_options, zero_params}
use go_uring.Uring.Setup.{Os, NewRing, too_many_entries, setup_failed, made, new_ring, and_then}
use go_uring.Uring.Setup.Made.{KeepsParams, HasParams, new_ring-HasParams}
use go_uring.Uring.CreateMany.{
  RingHandle, ring_of, Made, add_made, close_all, add_ring, attached, pool,
}
use go_uring.Uring.CreateMany.Pools.{AreAttached, AddsPool, HasParams-IsAttached}
use go_uring.Uring.CreateMany.Ends.{Ends, and_then-Ends, map-Ends}

module _ {K : Type 0} (os : Os K) (keeps : KeepsParams os)
    (order : List RingHandle → List RingHandle) (entries : ℕ) where
  -- One ring more, made with the options.
  abbrev Adds : List SetupOption → Made → RingHandle × Made → Type 0
  Adds opts st (r, st') =
      (r.params.flags ≡ (apply_options opts zero_params).flags)
      × (r.params.wq_fd ≡ (apply_options opts zero_params).wq_fd)
      × (st'.rings ≡ st.rings ++ (r ∷ []))

  HasParams-Adds :
      (opts : List SetupOption) (st : Made) (out : NewRing) (w : K) (undo : K → K)
      → HasParams opts out
      → Ends
          (Adds opts st)
          (and_then (ring_of out, w) undo (λ r w''. (inr (r, add_made r st), w'')))
  unfolding Ends and_then ring_of add_made
  HasParams-Adds opts st too_many_entries w undo h = tt
  HasParams-Adds opts st (setup_failed e) w undo h = tt
  HasParams-Adds opts st (made fd p (inl e)) w undo h = tt
  HasParams-Adds opts st (made fd p (inr (m, sq, cq))) w undo h = (h.0, h.1, refl)

  add_ring-Adds :
      (opts : List SetupOption) (st : Made) (w : K)
      → Ends (Adds opts st) (add_ring os order entries opts st w)
  unfolding add_ring
  add_ring-Adds opts st w =
      HasParams-Adds opts st (new_ring os entries opts w).0 (new_ring os entries opts w).1
        (λ w''. (close_all os order entries st w'').1) (new_ring-HasParams os keeps entries opts w)

  module _ (opts : List SetupOption) where
    abbrev Attaches : (main_fd n : ℕ) → Made → Made → Type 0
    Attaches main_fd n st st' =
        (others : List RingHandle) × (length others ≡ n)
        × AreAttached main_fd others
        × (st'.rings ≡ st.rings ++ others)

    attached-Attaches :
        (main_fd n : ℕ) (st : Made) (w : K)
        → Ends (Attaches main_fd n st) (attached os order entries opts main_fd n st w)
    unfolding attached Ends
    attached-Attaches main_fd zero st w = ([], refl, tt, sym (append-nil st.rings))
    attached-Attaches main_fd (suc n) st w =
        and_then-Ends (Adds more st) (Attaches main_fd (suc n) st)
          (add_ring os order entries more st w) (λ w'. w')
          (λ added. attached os order entries opts main_fd n added.1) (add_ring-Adds more st w)
          (λ added w' a.
            map-Ends (Attaches main_fd n added.1) (Attaches main_fd (suc n) st)
              (attached os order entries opts main_fd n added.1 w')
              (attached-Attaches main_fd n added.1 w') (attach added a))
      where
        more : List SetupOption
        more = opts ++ (with_attached_wq main_fd ∷ [])

        attach :
            (added : RingHandle × Made)
            → Adds more st added
            → (st' : Made) → Attaches main_fd n added.1 st'
            → Attaches main_fd (suc n) st st'
        attach (r, st1) a st' (others, len, are, eq) = (
          r ∷ others,
          ap suc len,
          (HasParams-IsAttached main_fd opts r.params a.0 a.1, are),
          eq ∙ ap (λ rs. rs ++ others) a.2 ∙ append_assoc st.rings (r ∷ []) others,
        )

    pub pool-AddsPool :
        (per_pool : ℕ) (st : Made) (w : K)
        → Ends (AddsPool (per_pool - 1) st) (pool os order entries opts per_pool st w)
    unfolding pool
    pool-AddsPool per_pool st w =
        and_then-Ends (Adds opts st) (AddsPool (per_pool - 1) st)
          (add_ring os order entries opts st w) (λ w'. w')
          (λ added. attached os order entries opts added.0.fd (per_pool - 1) added.1)
          (add_ring-Adds opts st w)
          (λ added w' a.
            map-Ends (Attaches added.0.fd (per_pool - 1) added.1) (AddsPool (per_pool - 1) st)
              (attached os order entries opts added.0.fd (per_pool - 1) added.1 w')
              (attached-Attaches added.0.fd (per_pool - 1) added.1 w') (led added a))
      where
        led :
            (added : RingHandle × Made)
            → Adds opts st added
            → (st' : Made) → Attaches added.0.fd (per_pool - 1) added.1 st'
            → AddsPool (per_pool - 1) st st'
        led (r, st1) a st' (others, len, are, eq) = (
          r,
          others,
          len,
          are,
          eq ∙ ap (λ rs. rs ++ others) a.2 ∙ append_assoc st.rings (r ∷ []) others,
        )
