-- ===== src/Uring/Register/Words.antt =====
-- What the kernel reads of the arguments of io_uring_register(2).
use go_uring.Base.{
  ℕ, zero, suc, ◌+◌, ◌*◌, ◌%◌, ◌/◌, ◌<◌, ◌≡◌, refl, ap, ap₂, Bool-cases, inl, inr, ◌∙◌, Option,
  List, [], ◌∷◌, length, get_elem?, take, arith, map, ◌==◌, if◌then◌else◌,
}
use go_uring.Base.Int.{ℤ}
use go_uring.Base.Word.{u32_mod, u64_mod}
use go_uring.Uring.Register.{
  Iovec, low, high, int_bits, int_words, iovec_words, Registered, returned, register_buffers,
  register_files, register_buffers_op, register_files_op,
}

-- So many `iovec`s of two numbers of 64 bits.
abbrev pub read_iovecs : ℕ → List ℕ → List Iovec
read_iovecs zero ws = []
read_iovecs (suc n) (a ∷ b ∷ c ∷ d ∷ ws) =
    record { base = a + b * u32_mod; len = c + d * u32_mod } ∷ read_iovecs n ws
read_iovecs (suc n) ws = []

abbrev pub AreWords : List Iovec → Type 0
AreWords [] = Unit
AreWords (v ∷ vs) = (v.base < u64_mod) × (v.len < u64_mod) × AreWords vs

read_iovecs-iovec_words :
    (vs : List Iovec) → AreWords vs → read_iovecs (length vs) (iovec_words vs) ≡ vs
read_iovecs-iovec_words [] h = refl
read_iovecs-iovec_words (v ∷ vs) h =
    ap₂ (λ v' vs'. v' ∷ vs')
      (ap₂ (λ b l. record { base = b; len = l }) (joined v.base h.0) (joined v.len h.1))
      (read_iovecs-iovec_words vs h.2)
  where
    joined : (x : ℕ) → x < u64_mod → low x + high x * u32_mod ≡ x
    joined x h = omega arith

get_elem?-take :
    {A : Type 0} (xs : List A) (n i : ℕ) → i < n → get_elem? (take n xs) i ≡ get_elem? xs i
get_elem?-take xs zero i h = absurd (omega arith)
get_elem?-take [] (suc n) i h = refl
get_elem?-take (x ∷ xs) (suc n) zero h = refl
get_elem?-take (x ∷ xs) (suc n) (suc i) h = get_elem?-take xs n i (omega arith)

get_elem?-int_words :
    (ds : List ℤ) (i : ℕ)
    → (get_elem? (int_words ds) (i * 2) ≡ get_elem? (map (λ d. low (int_bits d)) ds) i)
      × (get_elem? (int_words ds) (i * 2 + 1) ≡ get_elem? (map (λ d. high (int_bits d)) ds) i)
get_elem?-int_words [] i = (refl, refl)
get_elem?-int_words (d ∷ ds) zero = (refl, refl)
get_elem?-int_words (d ∷ ds) (suc i) = (
  ap (get_elem? ws) even ∙ (get_elem?-int_words ds i).0,
  ap (get_elem? ws) odd ∙ (get_elem?-int_words ds i).1,
)
  where
    ws : List ℕ
    ws = int_words (d ∷ ds)

    even : suc i * 2 ≡ suc (suc (i * 2))
    even = omega arith

    odd : suc i * 2 + 1 ≡ suc (suc (i * 2 + 1))
    odd = omega arith

place :
    (ds : List ℤ) (i : ℕ)
    → get_elem? (int_words ds) i ≡ (
        if i % 2 == 0
        then get_elem? (map (λ x. low (int_bits x)) ds) (i / 2)
        else get_elem? (map (λ x. high (int_bits x)) ds) (i / 2))
place ds i = elim (Bool-cases (i % 2 == 0)) [
  | inl even ↦
      let at : i ≡ i / 2 * 2 = ground arith in
      rw even (ap (get_elem? (int_words ds)) at ∙ (get_elem?-int_words ds (i / 2)).0)
  | inr odd ↦
      let at : i ≡ i / 2 * 2 + 1 = ground arith in
      rw odd (ap (get_elem? (int_words ds)) at ∙ (get_elem?-int_words ds (i / 2)).1)
]

-- The documented argument formats: io_uring_register(2) takes of its argument `nr_args` descriptors of
-- 32 bits, respectively `nr_args` structs `iovec`.
pub record ReadsArguments {K : Type 0}
    (sys_register : (ring_fd op : ℕ) (arg : List ℕ) (nr_args : ℕ) → K → Option ℕ × K)
    (take_files : (ring_fd : ℕ) → List ℕ → K → Option ℕ × K)
    (take_buffers : (ring_fd : ℕ) → List Iovec → K → Option ℕ × K) : Type 0 where
  pub reads_files :
      (ring_fd : ℕ) (arg : List ℕ) (n : ℕ) (w : K)
      → sys_register ring_fd register_files_op arg n w ≡ take_files ring_fd (take n arg) w
  pub reads_buffers :
      (ring_fd : ℕ) (arg : List ℕ) (n : ℕ) (w : K)
      → sys_register ring_fd register_buffers_op arg n w
        ≡ take_buffers ring_fd (read_iovecs n arg) w

module _ {K : Type 0}
    {sys_register : (ring_fd op : ℕ) (arg : List ℕ) (nr_args : ℕ) → K → Option ℕ × K}
    {take_files : (ring_fd : ℕ) → List ℕ → K → Option ℕ × K}
    {take_buffers : (ring_fd : ℕ) → List Iovec → K → Option ℕ × K}
    (h : ReadsArguments sys_register take_files take_buffers) (ring_fd : ℕ) (w : K) where
  -- `RegisterBuffers` of a non-empty slice has the kernel take exactly its buffers.
  pub register_buffers_lem :
      (v : Iovec) (vs : List Iovec)
      → AreWords (v ∷ vs)
      → let (e, w') = take_buffers ring_fd (v ∷ vs) w in
        register_buffers sys_register ring_fd (v ∷ vs) w ≡ (returned e, w')
  unfolding register_buffers
  register_buffers_lem v vs words =
      ap answer (h.reads_buffers ring_fd (iovec_words (v ∷ vs)) (length (v ∷ vs)) w)
      ∙ ap (λ bs. answer (take_buffers ring_fd bs w)) (read_iovecs-iovec_words (v ∷ vs) words)
    where
      answer : Option ℕ × K → Registered × K
      answer (e, w') = (returned e, w')

  -- `RegisterFiles` of a non-empty slice has the kernel take other descriptors than those of the slice. In
  -- the place `i` below the length of the slice it finds the low word of the descriptor `i / 2` of the
  -- slice if `i` is even, its high word if `i` is odd.
  pub register_files_lem :
      (d : ℤ) (ds : List ℤ)
      → (files : List ℕ) × (let (e, w') = take_files ring_fd files w in
          register_files sys_register ring_fd (d ∷ ds) w ≡ (returned e, w'))
        × ((i : ℕ)
            → i < length (d ∷ ds)
            → get_elem? files i ≡ (
                if i % 2 == 0
                then get_elem? (map (λ x. low (int_bits x)) (d ∷ ds)) (i / 2)
                else get_elem? (map (λ x. high (int_bits x)) (d ∷ ds)) (i / 2)))
  unfolding register_files
  register_files_lem d ds = (take n ws, ap answer (h.reads_files ring_fd ws n w), at)
    where
      n : ℕ
      n = length (d ∷ ds)

      ws : List ℕ
      ws = int_words (d ∷ ds)

      answer : Option ℕ × K → Registered × K
      answer (e, w') = (returned e, w')

      at :
          (i : ℕ)
          → i < n
          → get_elem? (take n ws) i ≡ (
              if i % 2 == 0
              then get_elem? (map (λ x. low (int_bits x)) (d ∷ ds)) (i / 2)
              else get_elem? (map (λ x. high (int_bits x)) (d ∷ ds)) (i / 2))
      at i small = get_elem?-take ws n i small ∙ place (d ∷ ds) i
