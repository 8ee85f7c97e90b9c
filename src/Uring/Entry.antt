-- ===== src/Uring/Entry.antt =====
-- uring/syscall.go: the entries of the two queues. A signed 32-bit field is held as its two's
-- complement bit pattern, a number below 2^32.
pub mod Errno
mod Tests
use go_uring.Base.{
  ℕ, zero, suc, ◌+◌, ◌-◌, ◌%◌, ◌^◌, Bool, true, false, Option, none, some, ltb, leb, if◌then◌else◌,
  arith,
}
use go_uring.Base.Word.{u32_mod, u64_mod}

-- The conversions `int32(x)`, `uint32(x)` and `uint64(x)` of a wider or equal integer.
abbrev pub to_u32 : ℕ → ℕ
to_u32 x = x % u32_mod

abbrev pub to_u64 : ℕ → ℕ
to_u64 x = x % u64_mod

-- `x < 0`, `-x` and the sign extension `uintptr(x)` of an int32.
abbrev pub is_neg32 : ℕ → Bool
is_neg32 x = leb (2 ^ 31) x

abbrev pub neg32 : ℕ → ℕ
neg32 x = (u32_mod - x) % u32_mod

abbrev pub extend32 : ℕ → ℕ
extend32 x = if is_neg32 x then x + u64_mod - u32_mod else x

-- -1, as an int32
abbrev pub minus_one : ℕ
minus_one = u32_mod - 1

pub record SqEntry : Type 0 where
  pub op_code : ℕ
  pub flags : ℕ
  pub io_prio : ℕ
  pub fd : ℕ
  pub off : ℕ
  pub addr : ℕ
  pub len : ℕ
  pub opcode_flags : ℕ
  pub user_data : ℕ
  pub buf_ig : ℕ
  pub personality : ℕ
  pub splice_fd_in : ℕ
  pub pad0 : ℕ
  pub pad1 : ℕ

-- a slot of memory that the kernel has just mapped
abbrev pub zero_entry : SqEntry
zero_entry = record {
  op_code = 0;
  flags = 0;
  io_prio = 0;
  fd = 0;
  off = 0;
  addr = 0;
  len = 0;
  opcode_flags = 0;
  user_data = 0;
  buf_ig = 0;
  personality = 0;
  splice_fd_in = 0;
  pad0 = 0;
  pad1 = 0;
}

-- `unsafe.Sizeof(SQEntry{})`
abbrev pub sizeof_sq_entry : ℕ
sizeof_sq_entry = 64

unfoldable pub set_addr : SqEntry → ℕ → SqEntry
set_addr sqe addr = record sqe { addr = to_u64 addr }

-- the arguments of `fill`, in its order: opcode, fd, addr, len, offset
unfoldable pub fill : SqEntry → ℕ → ℕ → ℕ → ℕ → ℕ → SqEntry
unfolding set_addr
fill sqe op fd addr len offset =
    let head = record sqe { op_code = op % 256; flags = 0; io_prio = 0; fd = fd; off = offset } in
    record (set_addr head addr) {
      len = len;
      opcode_flags = 0;
      user_data = 0;
      buf_ig = 0;
      personality = 0;
      splice_fd_in = 0;
      pad0 = 0;
      pad1 = 0;
    }

unfoldable pub set_user_data : SqEntry → ℕ → SqEntry
set_user_data sqe ud = record sqe { user_data = ud }

pub record CqEvent : Type 0 where
  pub user_data : ℕ
  pub res : ℕ
  pub flags : ℕ

abbrev pub zero_event : CqEvent
zero_event = record { user_data = 0; res = 0; flags = 0 }

-- `CQEvent.Error`: the errno, if the result is negative.
unfoldable pub event_error : CqEvent → Option ℕ
event_error cqe = if is_neg32 cqe.res then some (extend32 (neg32 cqe.res)) else none

-- The user_data of the library's own timeouts: `math.MaxUint64`.
abbrev pub lib_user_data_timeout : ℕ
lib_user_data_timeout = u64_mod - 1

-- SQE flags
abbrev pub sqe_io_link_flag : ℕ
sqe_io_link_flag = 2 ^ 2
