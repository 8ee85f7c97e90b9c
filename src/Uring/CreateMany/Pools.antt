-- ===== src/Uring/CreateMany/Pools.antt =====
-- The shape of the rings that `CreateMany` creates.
use go_uring.Base.{
  ℕ, suc, ◌+◌, ◌*◌, ◌%◌, ◌≡◌, refl, ap, ◌∙◌, true, List, [], ◌∷◌, ◌++◌, arith, length,
  length-append,
}
use go_uring.Base.Word.{u32_mod}
use go_uring.Uring.Params.{
  RingParams, SetupOption, with_attached_wq, apply_option, apply_options, zero_params, has_flag,
  setup_attach_wq,
}
use go_uring.Uring.Params.Options.{has_flag-apply_options, is_given}
use go_uring.Uring.CreateMany.{RingHandle, Made}

-- A ring that shares the workers of the ring `main_fd`.
abbrev pub IsAttached : (main_fd : ℕ) → RingHandle → Type 0
IsAttached main_fd r =
    (has_flag r.params.flags setup_attach_wq ≡ true) × (r.params.wq_fd ≡ main_fd % u32_mod)

abbrev pub AreAttached : (main_fd : ℕ) → List RingHandle → Type 0
AreAttached main_fd [] = Unit
AreAttached main_fd (r ∷ rs) = IsAttached main_fd r × AreAttached main_fd rs

-- So many pools of the same number of rings, each one ring and others attached to it.
pub data IsPools (per_pool : ℕ) : ℕ → List RingHandle → Type 0 where
  no_pools : IsPools per_pool 0 []
  next_pool :
      (n : ℕ) (main : RingHandle) (others rest : List RingHandle)
      → length others + 1 ≡ per_pool
      → AreAttached main.fd others
      → IsPools per_pool n rest
      → IsPools per_pool (suc n) (main ∷ others ++ rest)

pub IsPools-length :
    {per_pool n : ℕ} {rs : List RingHandle} → IsPools per_pool n rs → length rs ≡ n * per_pool
IsPools-length no_pools = omega arith
IsPools-length (next_pool n main others rest h a ps) =
    let ih = IsPools-length ps in ground (arith, length-append others rest)

-- The parameters with one more option at the end.
apply_options-append :
    (os : List SetupOption) (o : SetupOption) (p : RingParams)
    → apply_options (os ++ (o ∷ [])) p ≡ apply_option o (apply_options os p)
unfolding apply_options
apply_options-append [] o p = refl
apply_options-append (o' ∷ os) o p = apply_options-append os o (apply_option o' p)

is_given-last :
    (fd : ℕ) (os : List SetupOption)
    → is_given (with_attached_wq fd) (os ++ (with_attached_wq fd ∷ [])) ≡ true
is_given-last fd [] = refl
is_given-last fd (o ∷ os) = ground (arith, is_given-last fd os)

pub HasParams-IsAttached :
    (main_fd : ℕ) (opts : List SetupOption) (p : RingParams)
    → p.flags ≡ (apply_options (opts ++ (with_attached_wq main_fd ∷ [])) zero_params).flags
    → p.wq_fd ≡ (apply_options (opts ++ (with_attached_wq main_fd ∷ [])) zero_params).wq_fd
    → (has_flag p.flags setup_attach_wq ≡ true) × (p.wq_fd ≡ main_fd % u32_mod)
unfolding apply_option
HasParams-IsAttached main_fd opts p hf hw = (
  ap (λ f. has_flag f setup_attach_wq) hf ∙ flag,
  hw
      ∙ ap (λ (q : RingParams). q.wq_fd)
          (apply_options-append opts (with_attached_wq main_fd) zero_params),
)
  where
    flag :
        has_flag
          (apply_options (opts ++ (with_attached_wq main_fd ∷ [])) zero_params).flags
          setup_attach_wq
        ≡ true
    flag =
        let given = is_given-last main_fd opts in
        has_flag-apply_options (with_attached_wq main_fd) (opts ++ (with_attached_wq main_fd ∷ []))
          zero_params
        ∙ ground arith

-- One pool of `n` more rings than its first.
abbrev pub AddsPool : ℕ → Made → Made → Type 0
AddsPool n st st' =
    (main : RingHandle) × (others : List RingHandle) × (length others ≡ n)
    × AreAttached main.fd others
    × (st'.rings ≡ st.rings ++ (main ∷ others))
