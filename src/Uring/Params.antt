-- ===== src/Uring/Params.antt =====
-- uring/setup.go and the options of uring/ring.go: the parameters of io_uring_setup(2).
pub mod Options
mod Tests
use go_uring.Base.{ℕ, ◌^◌, ◌%◌, Bool, List, [], ◌∷◌, bit_and, bit_or, ◌==◌, not}
use go_uring.Base.Word.{u32_mod}

pub record SqRingParams : Type 0 where
  pub head : ℕ
  pub tail : ℕ
  pub ring_mask : ℕ
  pub ring_entries : ℕ
  pub flags : ℕ
  pub dropped : ℕ
  pub array : ℕ

pub record CqRingParams : Type 0 where
  pub head : ℕ
  pub tail : ℕ
  pub ring_msk : ℕ
  pub ring_entries : ℕ
  pub overflow : ℕ
  pub cqes : ℕ
  pub flags : ℕ

pub record RingParams : Type 0 where
  pub sq_entries : ℕ
  pub cq_entries : ℕ
  pub flags : ℕ
  pub sq_thread_cpu : ℕ
  pub sq_thread_idle : ℕ
  pub features : ℕ
  pub wq_fd : ℕ
  pub sq_offset : SqRingParams
  pub cq_offset : CqRingParams

-- Flags of io_uring_setup(2).
abbrev pub setup_io_poll : ℕ
setup_io_poll = 2 ^ 0

abbrev pub setup_sq_poll : ℕ
setup_sq_poll = 2 ^ 1

abbrev pub setup_sq_aff : ℕ
setup_sq_aff = 2 ^ 2

abbrev pub setup_cq_size : ℕ
setup_cq_size = 2 ^ 3

abbrev pub setup_attach_wq : ℕ
setup_attach_wq = 2 ^ 5

-- Feature flags.
abbrev pub feat_single_mmap : ℕ
feat_single_mmap = 2 ^ 0

abbrev pub feat_no_drop : ℕ
feat_no_drop = 2 ^ 1

abbrev pub feat_fast_poll : ℕ
feat_fast_poll = 2 ^ 5

abbrev pub feat_ext_arg : ℕ
feat_ext_arg = 2 ^ 8

-- `flags & flag != 0`
unfoldable pub has_flag : ℕ → ℕ → Bool
has_flag flags flag = not (bit_and flags flag == 0)

unfoldable pub single_mmap_feature : RingParams → Bool
unfolding has_flag
single_mmap_feature p = has_flag p.features feat_single_mmap

unfoldable pub no_drop_feature : RingParams → Bool
unfolding has_flag
no_drop_feature p = has_flag p.features feat_no_drop

unfoldable pub fast_poll_feature : RingParams → Bool
unfolding has_flag
fast_poll_feature p = has_flag p.features feat_fast_poll

unfoldable pub ext_arg_feature : RingParams → Bool
unfolding has_flag
ext_arg_feature p = has_flag p.features feat_ext_arg

-- The values that the `With...` functions return; the idle time is in milliseconds.
pub data SetupOption : Type 0 where
  with_cq_size : (sz : ℕ) → SetupOption
  with_io_poll : SetupOption
  with_attached_wq : (fd : ℕ) → SetupOption
  with_sq_poll : (milliseconds : ℕ) → SetupOption
  with_sq_thread_cpu : (cpu : ℕ) → SetupOption

-- What the option does to the parameters.
unfoldable pub apply_option : SetupOption → RingParams → RingParams
apply_option (with_cq_size sz) p = record p {
  flags = bit_or p.flags setup_cq_size;
  cq_entries = sz;
}
apply_option with_io_poll p = record p { flags = bit_or p.flags setup_io_poll }
apply_option (with_attached_wq fd) p = record p {
  flags = bit_or p.flags setup_attach_wq;
  wq_fd = fd % u32_mod;
}
apply_option (with_sq_poll ms) p = record p {
  flags = bit_or p.flags setup_sq_poll;
  sq_thread_idle = ms % u32_mod;
}
apply_option (with_sq_thread_cpu cpu) p = record p {
  flags = bit_or p.flags setup_sq_aff;
  sq_thread_cpu = cpu;
}

-- The loop of `New` over its options, in order.
unfoldable pub apply_options : List SetupOption → RingParams → RingParams
unfolding apply_option
apply_options [] p = p
apply_options (o ∷ os) p = apply_options os (apply_option o p)

-- `ringParams{}`
abbrev pub zero_params : RingParams
zero_params = record {
  sq_entries = 0;
  cq_entries = 0;
  flags = 0;
  sq_thread_cpu = 0;
  sq_thread_idle = 0;
  features = 0;
  wq_fd = 0;
  sq_offset = record {
    head = 0;
    tail = 0;
    ring_mask = 0;
    ring_entries = 0;
    flags = 0;
    dropped = 0;
    array = 0;
  };
  cq_offset = record {
    head = 0;
    tail = 0;
    ring_msk = 0;
    ring_entries = 0;
    overflow = 0;
    cqes = 0;
    flags = 0;
  };
}
