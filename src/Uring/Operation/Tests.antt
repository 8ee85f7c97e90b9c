-- ===== src/Uring/Operation/Tests.antt =====
-- Instances: a receive into a buffer of 64 bytes at 0x1000, and one into an empty buffer.
use go_uring.Base.{◌≡◌, ◌↔◌, refl, none, some}
use go_uring.Uring.Entry.{SqEntry, zero_entry}
use go_uring.Uring.Operation.{Operation, recv, prep_sqe, set_buffer, set_target_user_data, cancel}
use go_uring.Uring.Operation.Prepare.{prep_sqe_panics, buffer_len}

abbrev receive : Operation
receive = recv 7 (record { base = 0x1000; len = 64 }) 3

abbrev received : SqEntry
received = record zero_entry { op_code = 27; fd = 7; addr = 0x1000; len = 64; opcode_flags = 3 }

abbrev stale : SqEntry
stale = record zero_entry { op_code = 13; flags = 4; buf_ig = 9; user_data = 1; off = 5 }

prep_receive : prep_sqe 0 receive stale ≡ some received
unfolding prep_sqe
prep_receive = refl

abbrev empty_receive : Operation
empty_receive = recv 7 (record { base = 0; len = 0 }) 0

prep_sqe_panics_example :
    (prep_sqe 0 empty_receive stale ≡ none) ↔ (buffer_len empty_receive ≡ some 0)
prep_sqe_panics_example = prep_sqe_panics 0 empty_receive stale

set_buffer-receive :
    set_buffer (record { base = 8; len = 2 }) receive ≡ recv 7 (record { base = 8; len = 2 }) 3
unfolding set_buffer
set_buffer-receive = refl

retarget : set_target_user_data 9 (cancel 0 4) ≡ cancel 0 9
unfolding set_target_user_data
retarget = refl
