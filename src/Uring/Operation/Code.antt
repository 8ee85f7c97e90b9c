-- ===== src/Uring/Operation/Code.antt =====
-- The operation codes of uring/operation.go, in the order of the `iota` block.
use go_uring.Base.{ℕ}

pub data OpCode : Type 0 where
  nop_code read_v_code write_v_code op_f_sync op_read_fixed op_write_fixed op_poll_add : OpCode
  op_poll_remove op_sync_file_range op_send_msg op_recv_msg timeout_code : OpCode
  op_timeout_remove accept_code async_cancel_code link_timeout_code connect_code : OpCode
  op_f_allocate op_open_at close_code op_files_update op_stat_x read_code write_code : OpCode
  op_f_advise op_m_advise send_code recv_code open_at2_code epoll_ctl_code splice_code : OpCode
  provide_buffers_code remove_buffers_code tee_code shutdown_code rename_at_code : OpCode
  unlink_at_code mkdir_at_code symlink_at_code link_at_code : OpCode

-- `uint8(code)`: the position in the block.
unfoldable pub number : OpCode → ℕ
number nop_code = 0
number read_v_code = 1
number write_v_code = 2
number op_f_sync = 3
number op_read_fixed = 4
number op_write_fixed = 5
number op_poll_add = 6
number op_poll_remove = 7
number op_sync_file_range = 8
number op_send_msg = 9
number op_recv_msg = 10
number timeout_code = 11
number op_timeout_remove = 12
number accept_code = 13
number async_cancel_code = 14
number link_timeout_code = 15
number connect_code = 16
number op_f_allocate = 17
number op_open_at = 18
number close_code = 19
number op_files_update = 20
number op_stat_x = 21
number read_code = 22
number write_code = 23
number op_f_advise = 24
number op_m_advise = 25
number send_code = 26
number recv_code = 27
number open_at2_code = 28
number epoll_ctl_code = 29
number splice_code = 30
number provide_buffers_code = 31
number remove_buffers_code = 32
number tee_code = 33
number shutdown_code = 34
number rename_at_code = 35
number unlink_at_code = 36
number mkdir_at_code = 37
number symlink_at_code = 38
number link_at_code = 39
