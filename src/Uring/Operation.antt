-- ===== src/Uring/Operation.antt =====
-- uring/operation.go: the operations and the entries that they prepare.
pub mod Code
pub mod Prepare
pub mod Make
mod Tests
use go_uring.Base.{
  ℕ, zero, suc, ◌%◌, ◌^◌, List, [], ◌∷◌, Option, none, some, Bool, true, false, length,
}
use mathlib.Core.Option
use go_uring.Base.Int.{ℤ}
use go_uring.Base.Word.{u32_mod}
use go_uring.Uring.Entry.{SqEntry, fill, to_u32, to_u64, minus_one}
use Code.{
  OpCode, number, nop_code, read_v_code, write_v_code, timeout_code, accept_code, async_cancel_code,
  link_timeout_code, connect_code, close_code, read_code, write_code, send_code, recv_code,
  provide_buffers_code,
}

-- A `[]byte`: the address of its first element, and its length.
pub record Slice : Type 0 where
  pub base : ℕ
  pub len : ℕ

-- `syscall.Iovec` has the same two fields; `[]syscall.Iovec` is the slice with its elements.
pub record Iovecs : Type 0 where
  pub base : ℕ
  pub vecs : List Slice

-- The structs that implement `Operation`. A file descriptor is the uintptr that the struct holds;
-- an address is a number.
pub data Operation : Type 0 where
  nop : Operation
  read_v : (fd : ℕ) → Iovecs → (offset : ℕ) → Operation
  write_v : (fd : ℕ) → Iovecs → (offset : ℕ) → Operation
  timeout : (dur : ℤ) → Operation
  accept : (fd op_flags addr len_addr : ℕ) → Operation
  cancel : (op_flags target_user_data : ℕ) → Operation
  link_timeout : (dur : ℤ) → Operation
  recv : (fd : ℕ) → Slice → (msg_flags : ℕ) → Operation
  send : (fd : ℕ) → Slice → (msg_flags : ℕ) → Operation
  provide_buffers : Slice → (buffer_id group_id : ℕ) → Operation
  close : (fd : ℕ) → Operation
  read : (fd : ℕ) → Slice → (off : ℕ) → Operation
  write : (fd : ℕ) → Slice → (off : ℕ) → Operation
  connect : (fd addr len : ℕ) → Operation

-- `&buff[0]`, which panics on an empty slice.
unfoldable pub first_address : ℕ → ℕ → Option ℕ
first_address base zero = none
first_address base (suc n) = some base

-- The two setters of a field that `fill` leaves at zero.
set_opcode_flags : ℕ → SqEntry → SqEntry
set_opcode_flags f sqe = record sqe { opcode_flags = f }

set_buf_ig : ℕ → SqEntry → SqEntry
set_buf_ig g sqe = record sqe { buf_ig = g }

-- An operation on a buffer: it panics before the entry is written if the buffer is empty.
fill_buffer : OpCode → ℕ → Slice → ℕ → SqEntry → Option SqEntry
unfolding first_address fill number
fill_buffer c fd b off sqe =
    Option.map (λ a. fill sqe (number c) (to_u32 fd) a (to_u32 b.len) off)
      (first_address b.base b.len)

fill_vectors : OpCode → ℕ → Iovecs → ℕ → SqEntry → Option SqEntry
unfolding first_address fill number
fill_vectors c fd v off sqe =
    Option.map (λ a. fill sqe (number c) (to_u32 fd) a (to_u32 (length v.vecs)) off)
      (first_address v.base (length v.vecs))

-- `PrepSQE`, with the address at which the timeouts' timespec was allocated; `none` is the panic.
unfoldable pub prep_sqe : ℕ → Operation → SqEntry → Option SqEntry
unfolding fill number fill_buffer fill_vectors set_opcode_flags set_buf_ig
prep_sqe spec nop sqe = some (fill sqe (number nop_code) minus_one 0 0 0)
prep_sqe spec (read_v fd v off) sqe = fill_vectors read_v_code fd v off sqe
prep_sqe spec (write_v fd v off) sqe = fill_vectors write_v_code fd v off sqe
prep_sqe spec (timeout dur) sqe = some (fill sqe (number timeout_code) minus_one spec 1 0)
prep_sqe spec (accept fd f addr len_addr) sqe =
    some (set_opcode_flags f (fill sqe (number accept_code) (to_u32 fd) addr 0 (to_u64 len_addr)))
prep_sqe spec (cancel f target) sqe =
    some (set_opcode_flags f (fill sqe (number async_cancel_code) minus_one target 0 0))
prep_sqe spec (link_timeout dur) sqe = some (fill sqe (number link_timeout_code) minus_one spec 1 0)
prep_sqe spec (recv fd b f) sqe = Option.map (set_opcode_flags f) (fill_buffer recv_code fd b 0 sqe)
prep_sqe spec (send fd b f) sqe = Option.map (set_opcode_flags f) (fill_buffer send_code fd b 0 sqe)
prep_sqe spec (provide_buffers b id group) sqe =
    Option.map (set_buf_ig group) (fill_buffer provide_buffers_code 1 b id sqe)
prep_sqe spec (close fd) sqe = some (fill sqe (number close_code) (to_u32 fd) 0 0 0)
prep_sqe spec (read fd b off) sqe = fill_buffer read_code fd b off sqe
prep_sqe spec (write fd b off) sqe = fill_buffer write_code fd b off sqe
prep_sqe spec (connect fd addr len) sqe =
    some (fill sqe (number connect_code) (to_u32 fd) addr 0 (to_u64 len))

-- `Code`
unfoldable pub op_code : Operation → OpCode
op_code nop = nop_code
op_code (read_v fd v off) = read_v_code
op_code (write_v fd v off) = write_v_code
op_code (timeout dur) = timeout_code
op_code (accept fd f addr len_addr) = accept_code
op_code (cancel f target) = async_cancel_code
op_code (link_timeout dur) = link_timeout_code
op_code (recv fd b f) = recv_code
op_code (send fd b f) = send_code
op_code (provide_buffers b id group) = provide_buffers_code
op_code (close fd) = close_code
op_code (read fd b off) = read_code
op_code (write fd b off) = write_code
op_code (connect fd addr len) = connect_code

-- `SetBuffer` of RecvOp and SendOp, and `SetTargetUserData` of CancelOp.
unfoldable pub set_buffer : Slice → Operation → Operation
set_buffer b (recv fd old f) = recv fd b f
set_buffer b (send fd old f) = send fd b f
set_buffer b op = op

unfoldable pub set_target_user_data : ℕ → Operation → Operation
set_target_user_data ud (cancel f target) = cancel f ud
set_target_user_data ud op = op
