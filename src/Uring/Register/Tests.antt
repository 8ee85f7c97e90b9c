-- ===== src/Uring/Register/Tests.antt =====
-- Instances: a kernel that keeps what it takes.
use go_uring.Base.{
  ℕ, ◌%◌, ◌/◌, ◌<◌, ◌≡◌, refl, Option, none, some, List, [], ◌∷◌, get_elem?, take, map, ◌==◌,
  if◌then◌else◌,
}
use go_uring.Base.Int.{pos, negsuc}
use go_uring.Uring.Register.{
  Iovec, returned, register_files, register_files_op, register_buffers_op, low, high, int_bits,
}
use go_uring.Uring.Register.Words.{read_iovecs, ReadsArguments, register_files_lem}

record Seen : Type 0 where
  files : List ℕ
  buffers : List Iovec

abbrev nothing : Seen
nothing = record { files = []; buffers = [] }

abbrev take_files : (ring_fd : ℕ) → List ℕ → Seen → Option ℕ × Seen
take_files ring_fd fs s = (none, record s { files = fs })

abbrev take_buffers : (ring_fd : ℕ) → List Iovec → Seen → Option ℕ × Seen
take_buffers ring_fd bs s = (none, record s { buffers = bs })

abbrev sys_register : (ring_fd op : ℕ) (arg : List ℕ) (nr_args : ℕ) → Seen → Option ℕ × Seen
sys_register ring_fd op arg n s =
    if op == register_files_op
    then take_files ring_fd (take n arg) s
    else if op == register_buffers_op
    then take_buffers ring_fd (read_iovecs n arg) s
    else (some 22, s)

sys_register-reads : ReadsArguments sys_register take_files take_buffers
sys_register-reads = record {
  reads_files = λ ring_fd arg n s. refl;
  reads_buffers = λ ring_fd arg n s. refl;
}

-- The second file is 0, not 9.
second_file :
    register_files sys_register 3 (pos 7 ∷ pos 9 ∷ []) nothing
    ≡ (returned none, record nothing { files = 7 ∷ 0 ∷ [] })
unfolding register_files
second_file = refl

register_files_lem_example :
    (files : List ℕ) × (register_files sys_register 3 (pos 7 ∷ negsuc 0 ∷ []) nothing
      ≡ (returned none, record nothing { files = files }))
    × ((i : ℕ)
        → i < 2
        → get_elem? files i ≡ (
            if i % 2 == 0
            then get_elem? (map (λ x. low (int_bits x)) (pos 7 ∷ negsuc 0 ∷ [])) (i / 2)
            else get_elem? (map (λ x. high (int_bits x)) (pos 7 ∷ negsuc 0 ∷ [])) (i / 2)))
register_files_lem_example = register_files_lem sys_register-reads 3 nothing (pos 7) (negsuc 0 ∷ [])
