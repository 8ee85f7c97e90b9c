-- ===== src/Uring/Operation/Prepare.antt =====
-- What `PrepSQE` leaves in the entry.
use go_uring.Base.{ℕ, zero, suc, ◌+◌, ◌≡◌, ◌↔◌, refl, ◌∙◌, Option, none, some, length, arith}
use go_uring.Uring.Entry.{SqEntry}
use go_uring.Uring.Operation.Code.{number}
use go_uring.Uring.Operation.{
  Operation, nop, read_v, write_v, recv, send, provide_buffers, read, write, first_address,
  prep_sqe, op_code,
}

pub prep_sqe_fresh :
    (spec : ℕ) (op : Operation) (old other : SqEntry)
    → prep_sqe spec op old ≡ prep_sqe spec op other
unfolding prep_sqe
prep_sqe_fresh spec nop old other = refl
prep_sqe_fresh spec op old other = refl

-- What `PrepSQE` fills in for the operation: its code, and nothing that the caller sets later.
pub record IsPrepared (op : Operation) (sqe : SqEntry) : Type 0 where
  pub coded : sqe.op_code ≡ number (op_code op)
  pub unflagged : sqe.flags ≡ 0
  pub untagged : sqe.user_data ≡ 0
  pub plain : sqe.io_prio + sqe.personality + sqe.splice_fd_in ≡ 0

prep_sqe-IsPrepared :
    (spec : ℕ) (op : Operation) (old : SqEntry) {sqe : SqEntry}
    → prep_sqe spec op old ≡ some sqe
    → IsPrepared op sqe
unfolding prep_sqe op_code
prep_sqe-IsPrepared spec nop old e = ground arith
prep_sqe-IsPrepared spec op old e = ground arith

-- An entry that `PrepSQE` has written carries the code that `Code` gives for the operation, no
-- flags and no user data, and nothing of what its slot held before: any other slot gets the same
-- entry.
pub prep_sqe_lem :
    (spec : ℕ) (op : Operation) (old other : SqEntry) {sqe : SqEntry}
    → prep_sqe spec op old ≡ some sqe
    → IsPrepared op sqe × (prep_sqe spec op other ≡ some sqe)
prep_sqe_lem spec op old other e =
    (prep_sqe-IsPrepared spec op old e, prep_sqe_fresh spec op other old ∙ e)

-- The elements of the buffer that an operation takes the address of, if it has one.
abbrev pub buffer_len : Operation → Option ℕ
buffer_len (read_v fd v off) = some (length v.vecs)
buffer_len (write_v fd v off) = some (length v.vecs)
buffer_len (recv fd b f) = some b.len
buffer_len (send fd b f) = some b.len
buffer_len (provide_buffers b id group) = some b.len
buffer_len (read fd b off) = some b.len
buffer_len (write fd b off) = some b.len
buffer_len op = none

first_address-none : (base n : ℕ) → (first_address base n ≡ none) ↔ (n ≡ 0)
unfolding first_address
first_address-none base zero = ((λ p. refl), (λ p. refl))
first_address-none base (suc n) = ((λ p. cc), (λ p. absurd (omega arith)))

-- `PrepSQE` panics exactly for an operation whose buffer is empty.
pub prep_sqe_panics :
    (spec : ℕ) (op : Operation) (old : SqEntry)
    → (prep_sqe spec op old ≡ none) ↔ (buffer_len op ≡ some 0)
unfolding prep_sqe
prep_sqe_panics spec nop old = ground arith
prep_sqe_panics spec (read_v fd v off) old =
    ground (arith, first_address-none v.base (length v.vecs))
prep_sqe_panics spec (write_v fd v off) old =
    ground (arith, first_address-none v.base (length v.vecs))
prep_sqe_panics spec (recv fd b f) old = ground (arith, first_address-none b.base b.len)
prep_sqe_panics spec (send fd b f) old = ground (arith, first_address-none b.base b.len)
prep_sqe_panics spec (provide_buffers b id group) old =
    ground (arith, first_address-none b.base b.len)
prep_sqe_panics spec (read fd b off) old = ground (arith, first_address-none b.base b.len)
prep_sqe_panics spec (write fd b off) old = ground (arith, first_address-none b.base b.len)
prep_sqe_panics spec op old = ground arith
