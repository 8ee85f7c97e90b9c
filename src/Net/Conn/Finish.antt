-- ===== src/Net/Conn/Finish.antt =====
-- What `Read` and `Write` make of a completion.
use go_uring.Base.{ℕ, ◌-◌, ◌^◌, ◌<◌, ◌≡◌, refl, Option, none, some, arith, ◌==◌, if◌then◌else◌}
use go_uring.Base.Word.{u32_mod}
use go_uring.Uring.Entry.{CqEvent, event_error}
use go_uring.Uring.Entry.Errno.{event_error-none, event_error-some}
use go_uring.Net.Conn.{
  Conn, OpError, Op, read_op, write_op, Cause, errno, deadline_exceeded, eof, unexpected_eof,
  op_error, ecanceled, cause_of, finish, finish_read, finish_write,
}

-- The result of a read or a write whose end of the stream is `end_of`, on the three kinds of results.
abbrev pub Outcome : {A : Type 0} → Op → Cause → Conn A → CqEvent → ℕ × Option (OpError A) → Type 0
Outcome op end_of c cqe out =
    (0 < cqe.res → cqe.res < 2 ^ 31 → out ≡ (cqe.res, none))
    × (cqe.res ≡ 0 → out ≡ (0, some (op_error op c end_of)))
    × ((e : ℕ)
        → 0 < e
        → e < 2 ^ 31
        → cqe.res ≡ u32_mod - e
        → out ≡ (0, some (op_error op c (if e == ecanceled then deadline_exceeded else errno e))))

module _ {A : Type 0} (c : Conn A) (cqe : CqEvent) where
  finish-Outcome :
      (op : Op) (end_of : Cause)
      → Outcome op end_of c cqe (finish op end_of c cqe (event_error cqe))
  unfolding finish cause_of
  finish-Outcome op end_of = (plain, ended, failed)
    where
      no_error : cqe.res < 2 ^ 31 → event_error cqe ≡ none
      no_error h = (event_error-none cqe (omega arith)).1 h

      plain :
          0 < cqe.res
          → cqe.res < 2 ^ 31
          → finish op end_of c cqe (event_error cqe) ≡ (cqe.res, none)
      plain p h = rw (no_error h) (ground arith)

      ended :
          cqe.res ≡ 0 → finish op end_of c cqe (event_error cqe) ≡ (0, some (op_error op c end_of))
      ended p = rw (no_error (omega arith)) (ground arith)

      failed :
          (e : ℕ)
          → 0 < e
          → e < 2 ^ 31
          → cqe.res ≡ u32_mod - e
          → finish op end_of c cqe (event_error cqe)
            ≡ (0, some (op_error op c (if e == ecanceled then deadline_exceeded else errno e)))
      failed e p q r = rw (event_error-some e cqe p q r) refl

  -- A positive result is the count and no error; 0 is the end of the stream, an error for `Read` and
  -- for `Write`; the negated error number `e` is that error, or that the deadline was exceeded if it
  -- is ECANCELED.
  pub finish_read_lem :
      Outcome read_op eof c cqe (finish_read c cqe)
      × Outcome write_op unexpected_eof c cqe (finish_write c cqe)
  unfolding finish_read finish_write
  finish_read_lem = (finish-Outcome read_op eof, finish-Outcome write_op unexpected_eof)

  finish-error :
      (op : Op) (end_of : Cause) (o : Option ℕ) (n : ℕ) (e : OpError A)
      → finish op end_of c cqe o ≡ (n, some e)
      → n ≡ 0
  unfolding finish
  finish-error op end_of none n e h = ground arith
  finish-error op end_of (some m) n e h = ground arith

  -- A read that fails has read nothing.
  pub finish_read-error : (n : ℕ) (e : OpError A) → finish_read c cqe ≡ (n, some e) → n ≡ 0
  unfolding finish_read
  finish_read-error n e h = finish-error read_op eof (event_error cqe) n e h
