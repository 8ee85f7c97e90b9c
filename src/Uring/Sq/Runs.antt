-- ===== src/Uring/Sq/Runs.antt =====
-- Any interleaving of `QueueSQE`, `flushSQ` and the kernel's consumption, against the bounded queue.
use go_uring.Base.{ℕ, ◌^◌, ◌≡◌, refl, ap, ◌∙◌, List, [], ◌∷◌, Option, none, some}
use go_uring.Uring.Entry.{SqEntry, zero_entry}
use go_uring.Uring.Operation.{Operation}
use go_uring.Uring.Sq.{SqRing, Queued, prep_panic, entry_of, queue_sqe, flush_sq, consume}
use go_uring.Uring.Sq.Queue.{Pending, push, flush, take_oldest}
use go_uring.Uring.Sq.Inv.{IsValid, pending}
use go_uring.Uring.Sq.Refine.Push.{queue_sqe_refines}
use go_uring.Uring.Sq.Refine.Flush.{flush_sq_refines}
use go_uring.Uring.Sq.Refine.Consume.{consume_refines}

pub data Call : Type 0 where
  queues : (spec : ℕ) → Operation → (flags user_data : ℕ) → Call
  flushes : Call
  consumes : Call

pub data Reply : Type 0 where
  queued : Queued → Reply
  flushed : ℕ → Reply
  consumed : Reply

-- The calls in order, with what each returns, and the ring at the end.
unfoldable pub run : List Call → SqRing → List Reply × SqRing
run [] s = ([], s)
run (queues spec op flags ud ∷ calls) s =
    let (r, s') = queue_sqe spec op flags ud s in
    let (rs, s'') = run calls s' in (queued r ∷ rs, s'')
run (flushes ∷ calls) s =
    let (n, s') = flush_sq s in let (rs, s'') = run calls s' in (flushed n ∷ rs, s'')
run (consumes ∷ calls) s = let (rs, s'') = run calls (consume s) in (consumed ∷ rs, s'')

push_if : ℕ → Option SqEntry → Pending → Queued × Pending
push_if cap none q = (prep_panic, q)
push_if cap (some e) q = push cap e q

-- The same calls on the bounded queue of `cap` entries.
unfoldable pub run_queue : ℕ → List Call → Pending → List Reply × Pending
unfolding push_if
run_queue cap [] q = ([], q)
run_queue cap (queues spec op flags ud ∷ calls) q =
    let (r, q') = push_if cap (entry_of spec op flags ud zero_entry) q in
    let (rs, q'') = run_queue cap calls q' in (queued r ∷ rs, q'')
run_queue cap (flushes ∷ calls) q =
    let (n, q') = flush q in let (rs, q'') = run_queue cap calls q' in (flushed n ∷ rs, q'')
run_queue cap (consumes ∷ calls) q =
    let (rs, q'') = run_queue cap calls (take_oldest q) in (consumed ∷ rs, q'')

-- No operation of the calls panics in `PrepSQE`.
abbrev pub HasEntries : List Call → Type 0
HasEntries [] = Unit {0}
HasEntries (queues spec op flags ud ∷ calls) =
    ((e : SqEntry) × (entry_of spec op flags ud zero_entry ≡ some e)) × HasEntries calls
HasEntries (flushes ∷ calls) = HasEntries calls
HasEntries (consumes ∷ calls) = HasEntries calls

abbrev answer : Reply → List Reply × Pending → List Reply × Pending
answer r (rs, q) = (r ∷ rs, q)

-- No sequence of operations without a panic, interleaved in any way with the kernel's consumption,
-- tells a valid ring from the bounded queue of its pending entries: every reply is the same, and so
-- is what is pending at the end, while the positions wrap at 2^32.
pub run_refines :
    (k : ℕ) (calls : List Call) (s : SqRing)
    → IsValid k s
    → HasEntries calls
    → ((run calls s).0, pending (2 ^ k) (run calls s).1)
      ≡ run_queue (2 ^ k) calls (pending (2 ^ k) s)
unfolding run run_queue
run_refines k [] s v h = refl
run_refines k (queues spec op flags ud ∷ calls) s v h =
    let here = queue_sqe_refines v spec op flags ud h.0.0 h.0.1 in
    let s' = (queue_sqe spec op flags ud s).1 in
    rw h.0.1 (
      ap (answer (queued (queue_sqe spec op flags ud s).0)) (run_refines k calls s' here.0 h.1)
      ∙ ap (λ (o : Queued × Pending). answer (queued o.0) (run_queue (2 ^ k) calls o.1)) here.1)
run_refines k (flushes ∷ calls) s v h =
    let here = flush_sq_refines v in
    ap (answer (flushed (flush_sq s).0)) (run_refines k calls (flush_sq s).1 here.0 h)
    ∙ ap (λ (o : ℕ × Pending). answer (flushed o.0) (run_queue (2 ^ k) calls o.1)) here.1
run_refines k (consumes ∷ calls) s v h =
    let here = consume_refines v in
    ap (answer consumed) (run_refines k calls (consume s) here.0 h)
    ∙ ap (λ q. answer consumed (run_queue (2 ^ k) calls q)) here.1
