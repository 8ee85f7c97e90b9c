-- ===== src/Lib.antt =====
-- go-uring: io_uring for Go, two reactors on top of it, and TCP connections on one of them.
--
-- The package `uring` owns a ring: two queues in memory that it shares with the kernel, and
-- the system calls on them. The package `reactor` queues operations for callers, keeps their
-- callbacks and calls them when the completions arrive. The package `net` waits for such a
-- callback in each call of a connection or a listener. The servers of `example` use a ring
-- directly, or the package `net`. This library models the set-up of rings, the queues, the loop
-- that waits for completions, the entries, the operations, the registry and ids of the reactors,
-- their goroutines, the calls of connections and listeners, and the servers.
--
-- Parts and files:
--   Base       lists, tests, bits, words and windows that the other modules share.
--   Uring      uring/: Entry is syscall.go (SQEntry, CQEvent), Operation is operation.go
--              (PrepSQE and Code of every operation; Make has the functions that make one and
--              can panic), Params is setup.go (ringParams, flags) and the options of ring.go;
--              Sq, Cq and Ring are ring.go: NextSQE, QueueSQE and flushSQ in Sq; peekCQEvent,
--              peekCQEventBatch, SeenCQE and AdvanceCQ in Cq; Submit, getCQEvents and the calls
--              on it in Ring, WaitCQEventsWithTimeout in Ring.Timeout. Setup is allocRing and
--              freeRing of setup.go with New and Close of ring.go (Setup.Load is what the
--              pointers of allocRing point to, Setup.Pointers says that these are the mappings
--              of mmap(2) at the offsets of io_uring_setup(2)), CreateMany is the function of this name,
--              Register is register.go.
--   Reactor    reactor/: Registry is registry.go, RequestId is RequestID of net.go, Nonce is
--              nextNonce of reactor.go, Net is NetworkReactor of net.go: queue, Cancel, and
--              what its publisher does with a request and its consumer with the completions.
--              Consumer is what the two runConsumer share, the loop over the batches and a
--              round with its wait, for any way to deliver a batch; Net.Loop has the cases of
--              runPublisher (Net.Loop.Published what they make of a request of queue) and the
--              loop over the batches, Net.Round a round. Generic is Reactor of reactor.go: New,
--              Queue, Cancel, and what the goroutines of a loop do, Generic.Round a round of
--              its consumer. Goroutines has runConsumer, runPublisher and Run of both as a step
--              relation, Submitting the flag needSubmit of reactor.go between callers and
--              publisher.
--   Net        net/: Conn is netconn.go, Listener is listner.go. Conn.Answer and Conn.Reaches
--              compose the calls of a connection with the reactor, Conn.Reaches down to the
--              submission queue.
--   Example    example/: Echo is echo-server/uring/uring.go, the whole server on one ring: its
--              table of connections, its three operations (Echo.Queue), main up to its loop
--              (Echo.Main), and a round of the loop (Echo.Round). Echo.Steps has it beside a
--              kernel that takes entries and completes operations in any order, Echo.System the
--              invariant. Threads is handleConn of echo-server-multi-thread/main.go; Start is
--              the start of this server on rings and ringSrv of http-server/main.go.
--
-- A `Sq.SqRing` or `Cq.CqRing` holds the shared memory itself: what a pointer of the Go struct
-- points to is a field. uint32 positions wrap at 2^32. The other side of each queue is a step
-- of its own: `Sq.consume` is the kernel taking an entry, `Cq.post` is the kernel adding a
-- completion. `Sq.Queue` says what the submission queue promises: a bounded queue in two
-- parts, the entries that are visible to the kernel and those that are only prepared.
-- `Sq.Inv.IsValid` is the invariant that ties the positions, the index array and the entries
-- to it. The completion queue stands for the list of the completions that are ready.
--
-- The calls on mappings, descriptors and sockets are parameters too: `Setup.Os` and
-- `Listener.Sockets` are records of functions on a state of the system. `Setup.Memory.Tracks`
-- and `Listener.Socket.KeepsOpen` name what the manuals say of their effect on what is mapped
-- and open. A call of `net` that waits on its channel is two definitions, before and after the
-- wait.
--
-- The kernel's answer to io_uring_enter(2) is a parameter of `Ring`: a function on a state of
-- its own and on the ring. `Ring.Kernel.Honours` names what the documentation promises and the
-- loop relies on.
--
-- Loops have fuel where the code's loop has no bound of its own: `peek_cq_event` needs more
-- than there are ready completions, `get_cq_events` needs the number of entries to submit and
-- two more, `next_nonce` needs three, `consumer_drain` needs more than there are ready
-- completions, `pools` the number of rings, `echo_loop` one round more than the peer sends chunks.
-- The loop of flushSQ runs over a count. The loop of the echo server does not end: `serve_round` is
-- one round of it.
--
-- A map of the registry is a function into Option. Its methods run under a lock, so a call is
-- one step. A callback is a value of any type: the steps of the consumer list the calls of
-- callbacks, and what a callback does to the reactor is a step of its own. A channel is the
-- list of what it holds. A descriptor is a natural number. The sum in
-- roundDurationUp wraps as an int64.
--
-- Not modelled: atomic.go, since loads and stores of a word are reads and writes of the state;
-- the logger, which has no effect on it; the resolution of names and the texts of errors in net/;
-- of the servers the flags of the command line and the HTTP handlers, which are calls of net/http;
-- example/echo-server/epoll/epoll.go, which uses none of the packages and is there to compare
-- with. In CreateMany the counts are natural numbers.
pub mod Base
pub mod Uring
pub mod Reactor
pub mod Net
pub mod Example
