-- ===== src/Uring/Register.antt =====
-- uring/register.go. io_uring_register(2) is a parameter, a function on a state `K`: it takes the
-- descriptor of the ring, the operation, the 32-bit words in memory from the pointer on (little-endian, none
-- for nil) and the number of arguments.
pub mod Words
mod Tests
use go_uring.Base.{
  ℕ, ◌+◌, ◌-◌, ◌%◌, ◌/◌, ◌^◌, Option, none, some, List, [], ◌∷◌, ◌++◌, length, get_elem?, replicate,
  bit_and, Bool, ◌==◌, not,
}
use go_uring.Base.Int.{ℤ, pos, negsuc}
use go_uring.Base.Word.{u32_mod, u64_mod}

abbrev pub register_buffers_op : ℕ
register_buffers_op = 0

abbrev pub unregister_buffers_op : ℕ
unregister_buffers_op = 1

abbrev pub register_files_op : ℕ
register_files_op = 2

abbrev pub unregister_files_op : ℕ
unregister_files_op = 3

abbrev pub register_probe_op : ℕ
register_probe_op = 8

abbrev pub register_iowq_max_workers_op : ℕ
register_iowq_max_workers_op = 19

-- `syscall.Iovec`
pub record Iovec : Type 0 where
  pub base : ℕ
  pub len : ℕ

-- `probeOp` and `Probe`, less the reserved fields.
pub record ProbeOp : Type 0 where
  pub op : ℕ
  pub flags : ℕ

pub record Probe : Type 0 where
  pub last_op : ℕ
  pub ops_len : ℕ
  pub ops : List ProbeOp

abbrev pub zero_probe : Probe
zero_probe = record { last_op = 0; ops_len = 0; ops = replicate 256 (record { op = 0; flags = 0 }) }

-- `GetOP`, which panics on a code out of range.
unfoldable pub get_op : Probe → ℕ → Option ProbeOp
get_op p code = get_elem? p.ops code

-- An `int` in memory, as its two words.
abbrev pub low : ℕ → ℕ
low x = x % u32_mod

abbrev pub high : ℕ → ℕ
high x = x / u32_mod % u32_mod

abbrev pub int_bits : ℤ → ℕ
int_bits (pos n) = n % u64_mod
int_bits (negsuc n) = u64_mod - 1 - n

abbrev pub int_words : List ℤ → List ℕ
int_words [] = []
int_words (d ∷ ds) = low (int_bits d) ∷ high (int_bits d) ∷ int_words ds

abbrev pub iovec_words : List Iovec → List ℕ
iovec_words [] = []
iovec_words (v ∷ vs) = low v.base ∷ high v.base ∷ low v.len ∷ high v.len ∷ iovec_words vs

-- A call ends with an errno or nothing; the address of an empty slice's first element panics.
pub data Registered : Type 0 where
  panicked : Registered
  returned : Option ℕ → Registered

module _ {K : Type 0}
    (sys_register : (ring_fd op : ℕ) (arg : List ℕ) (nr_args : ℕ) → K → Option ℕ × K)
    (ring_fd : ℕ) where
  -- `SetIOWQMaxWorkers`
  unfoldable pub set_iowq_max_workers : ℤ → K → Option ℕ × K
  set_iowq_max_workers count w =
      sys_register ring_fd register_iowq_max_workers_op (int_words (count ∷ [])) 2 w

  unfoldable pub register_buffers : List Iovec → K → Registered × K
  register_buffers [] w = (panicked, w)
  register_buffers (v ∷ vs) w =
      let (e, w') =
        sys_register ring_fd register_buffers_op (iovec_words (v ∷ vs)) (length (v ∷ vs)) w in
      (returned e, w')

  unfoldable pub unregister_buffers : K → Option ℕ × K
  unregister_buffers w = sys_register ring_fd unregister_buffers_op [] 0 w

  unfoldable pub register_files : List ℤ → K → Registered × K
  register_files [] w = (panicked, w)
  register_files (d ∷ ds) w =
      let (e, w') =
        sys_register ring_fd register_files_op (int_words (d ∷ ds)) (length (d ∷ ds)) w in
      (returned e, w')

  unfoldable pub unregister_files : K → Option ℕ × K
  unregister_files w = sys_register ring_fd unregister_files_op [] 0 w

-- `Probe`, for which io_uring_register(2) fills in the probe; it is returned with the error.
unfoldable pub probe :
    {K : Type 0}
    → (sys_register_probe : (ring_fd op : ℕ) → Probe → (nr_args : ℕ) → K → (Probe × Option ℕ) × K)
    → ℕ
    → K
    → (Probe × Option ℕ) × K
probe sys_register_probe ring_fd w = sys_register_probe ring_fd register_probe_op zero_probe 256 w
