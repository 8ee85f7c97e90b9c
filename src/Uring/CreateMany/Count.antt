-- ===== src/Uring/CreateMany/Count.antt =====
-- The number of the rings that `CreateMany` creates, and their pools.
use go_uring.Base.{
  ℕ, zero, suc, ◌+◌, ◌-◌, ◌*◌, ◌/◌, ◌%◌, ◌<◌, ◌≤◌, ◌≡◌, sym, ap, subst, ◌∙◌, true, false, ◌⊎◌, inl,
  inr, List, [], ◌∷◌, ◌++◌, ltb, ◌==◌, arith, Bool-cases, length, append-nil, append_assoc,
}
use native.Mathlib.Nat.{div-add-mod'}
use go_uring.Uring.Params.{SetupOption}
use go_uring.Uring.Setup.{Os}
use go_uring.Uring.Setup.Made.{KeepsParams}
use go_uring.Uring.CreateMany.{
  RingHandle, RingError, Made, Created, created, created_of, pool, pools, create_many,
}
use go_uring.Uring.CreateMany.Pools.{AddsPool, IsPools, no_pools, next_pool, IsPools-length}
use go_uring.Uring.CreateMany.Ends.{Ends, and_then-Ends, map-Ends}
use go_uring.Uring.CreateMany.OnePool.{pool-AddsPool}

multiple_of : (q n r m : ℕ) → q * n + r ≡ m → n ≤ m → 0 < n → r ≡ 0 → (0 < q) × (n * q ≡ m)
multiple_of zero n r m e f g h = absurd (omega arith)
multiple_of (suc q) n r m e f g h = (omega arith, ground arith)

module _ {K : Type 0} (os : Os K) (keeps : KeepsParams os)
    (order : List RingHandle → List RingHandle) (entries : ℕ) where
  module _ (opts : List SetupOption) where
    abbrev AddsPools : (per_pool n : ℕ) → Made → Made → Type 0
    AddsPools per_pool n st st' =
        (rs : List RingHandle) × IsPools per_pool n rs × (st'.rings ≡ st.rings ++ rs)

    pools-AddsPools :
        (fuel count per_pool i n : ℕ) (st : Made) (w : K)
        → 0 < per_pool
        → i + n * per_pool ≡ count
        → n ≤ fuel
        → Ends (AddsPools per_pool n st) (pools os order entries opts fuel count per_pool i st w)
    unfolding pools Ends
    pools-AddsPools zero count per_pool i zero st w p e f =
        ([], no_pools, sym (append-nil st.rings))
    pools-AddsPools zero count per_pool i (suc n) st w p e f = absurd (omega arith)
    pools-AddsPools (suc fuel) count per_pool i zero st w p e f =
        let done : ltb i count ≡ false = ground arith in
        rw done ([], no_pools, sym (append-nil st.rings))
    pools-AddsPools (suc fuel) count per_pool i (suc n) st w p e f =
        let more : ltb i count ≡ true = ground arith in
        rw more (
          and_then-Ends (AddsPool (per_pool - 1) st) (AddsPools per_pool (suc n) st)
            (pool os order entries opts per_pool st w) (λ w'. w')
            (pools os order entries opts fuel count per_pool (i + (per_pool - 1) + 1))
            (pool-AddsPool os keeps order entries opts per_pool st w)
            (λ st1 w' a.
              map-Ends (AddsPools per_pool n st1) (AddsPools per_pool (suc n) st)
                (pools os order entries opts fuel count per_pool (i + (per_pool - 1) + 1) st1 w')
                (pools-AddsPools fuel count per_pool (i + (per_pool - 1) + 1) n st1 w' p
                  (ground arith) (omega arith))
                (followed st1 a)))
      where
        followed :
            (st1 : Made)
            → AddsPool (per_pool - 1) st st1
            → (st' : Made) → AddsPools per_pool n st1 st'
            → AddsPools per_pool (suc n) st st'
        followed st1 (main, others, len, are, eq) st' (rest, ps, eq') = (
          main ∷ others ++ rest,
          next_pool n main others rest (omega arith) are ps,
          eq' ∙ ap (λ rs. rs ++ rest) eq ∙ append_assoc st.rings (main ∷ others) rest,
        )

    ArePools : (count wp_count : ℕ) → Created → Type 0
    ArePools count wp_count (created st) =
        IsPools (count / wp_count) wp_count st.rings × (length st.rings ≡ count)
    ArePools count wp_count out = Unit

    created_of-ArePools :
        (count wp_count : ℕ) (out : (RingError ⊎ Made) × K)
        → wp_count * (count / wp_count) ≡ count
        → Ends (AddsPools (count / wp_count) wp_count (record { defers = []; rings = [] })) out
        → ArePools count wp_count (created_of out.0)
    unfolding created_of Ends ArePools
    created_of-ArePools count wp_count (inl e, w) h a = tt
    created_of-ArePools count wp_count (inr st, w) h (rs, ps, eq) =
        rw eq (ps, IsPools-length ps ∙ h)

    create_many-ArePools :
        (count wp_count : ℕ) (w : K)
        → ArePools count wp_count (create_many os order entries opts count wp_count w).0
    unfolding create_many ArePools
    create_many-ArePools count wp_count w = elim (Bool-cases (ltb count wp_count)) [
      | inl few ↦ rw few tt
      | inr enough ↦ rw enough (elim (Bool-cases (wp_count == 0)) [
        | inl none_ ↦ rw none_ tt
        | inr some_ ↦ rw some_ (elim (Bool-cases (count % wp_count == 0)) [
          | inl multiple ↦ rw multiple (
              created_of-ArePools count wp_count out (sizes enough some_ multiple).1 (
                pools-AddsPools count count (count / wp_count) 0 wp_count start w
                  (sizes enough some_ multiple).0 (add_zero ∙ (sizes enough some_ multiple).1)
                  (ground arith)))
          | inr rest ↦ rw rest tt
        ])
      ])
    ]
      where
        start : Made
        start = record { defers = []; rings = [] }

        out : (RingError ⊎ Made) × K
        out = pools os order entries opts count count (count / wp_count) 0 start w

        add_zero : 0 + wp_count * (count / wp_count) ≡ wp_count * (count / wp_count)
        add_zero = omega arith

        sizes :
            ltb count wp_count ≡ false
            → (wp_count == 0) ≡ false
            → (count % wp_count == 0) ≡ true
            → (0 < count / wp_count) × (wp_count * (count / wp_count) ≡ count)
        sizes few some_ multiple =
            multiple_of (count / wp_count) wp_count (count % wp_count) count
              (div-add-mod' count wp_count) (ground arith) (ground arith) (ground arith)

    -- The rings that `CreateMany` returns are as many as it was asked for, in pools of `count / wpCount`:
    -- in each, every ring but the first was made with the flag that shares workers, and with the
    -- descriptor of the first.
    pub create_many-IsPools :
        (count wp_count : ℕ) (w : K) (st : Made)
        → (create_many os order entries opts count wp_count w).0 ≡ created st
        → IsPools (count / wp_count) wp_count st.rings × (length st.rings ≡ count)
    unfolding ArePools
    create_many-IsPools count wp_count w st success =
        subst (ArePools count wp_count) success (create_many-ArePools count wp_count w)
