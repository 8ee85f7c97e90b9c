-- ===== src/Net/Listener.antt =====
-- net/listner.go. The socket calls are a parameter: functions on a state `K` of the system, each with
-- an errno or nothing, and for socket(2) an errno or a descriptor.
pub mod Round
pub mod Socket
pub mod Accept
mod Tests
use go_uring.Base.{
  ℕ, zero, suc, ◌+◌, ◌-◌, ◌*◌, ◌/◌, ◌%◌, ◌^◌, Bool, true, false, Option, none, some, ◌⊎◌, inl, inr,
  ◌==◌, ltb, if◌then◌else◌,
}
use go_uring.Base.Int.{ℤ, pos, negsuc, neg}
use go_uring.Uring.Entry.{CqEvent, event_error}
use go_uring.Reactor.Net.{net_accept, RingNetEventLoop, NetworkReactor, queue}
use go_uring.Net.Conn.{Conn, Waiter, acceptor, new_conn}

-- A socket option: setsockopt(2) with a number, and `SetNonblock`.
pub data SockOpt : Type 0 where
  reuse_addr : ℕ → SockOpt
  keep_alive : ℕ → SockOpt
  keep_intvl : ℤ → SockOpt
  keep_idle : ℤ → SockOpt
  nonblock : Bool → SockOpt

pub record Sockets (A K : Type 0) : Type 0 where
  pub socket : K → (ℕ ⊎ ℕ) × K
  pub set_opt : (fd : ℕ) → SockOpt → K → Option ℕ × K
  pub bind : (fd : ℕ) → A → K → Option ℕ × K
  pub listen : (fd backlog : ℕ) → K → Option ℕ × K
  pub close : (fd : ℕ) → K → Option ℕ × K

-- `syscall.SOMAXCONN`, and a second and `defaultTCPKeepAlive` in nanoseconds.
abbrev pub somaxconn : ℕ
somaxconn = 128

abbrev pub second : ℕ
second = 10 ^ 9

abbrev pub default_tcp_keep_alive : ℕ
default_tcp_keep_alive = 15 * second

-- The quotient of a 64-bit word, read as a signed number, by a positive one: it is rounded towards 0.
unfoldable pub int64_div : ℕ → ℕ → ℤ
int64_div word to = if ltb word (2 ^ 63) then pos (word / to) else neg ((2 ^ 64 - word) / to)

-- `roundDurationUp`, for durations that are not negative: their sum may be 2^63 or more, and wraps.
unfoldable pub round_duration_up : ℕ → ℕ → ℤ
unfolding int64_div
round_duration_up d to = int64_div ((d + to - 1) % 2 ^ 64) to

unfoldable pub boolint : Bool → ℕ
boolint true = 1
boolint false = 0

-- `Listener`: the configured keep-alive in nanoseconds, the socket and the address.
pub record Listener (A : Type 0) : Type 0 where
  pub keep_alive_period : ℤ
  pub sock_fd : ℕ
  pub addr : A

-- A call, and the next one if it succeeds.
infixl 5 ◌>>◌
abbrev pub ◌>>◌ : {K : Type 0} → (K → Option ℕ × K) → (K → Option ℕ × K) → K → Option ℕ × K
(m >> k) w = let (e, w') = m w in elim e [ none ↦ k w' | some e ↦ (some e, w') ]

module _ {A K : Type 0} (os : Sockets A K) where
  unfoldable pub set_default_listener_sockopts : ℕ → K → Option ℕ × K
  set_default_listener_sockopts s = os.set_opt s (reuse_addr 1) >> os.set_opt s (nonblock false)

  -- The calls of `serverSocket` on its socket.
  unfoldable pub listen_on : A → ℕ → K → Option ℕ × K
  unfolding set_default_listener_sockopts
  listen_on addr fd =
      (set_default_listener_sockopts fd >> os.bind fd addr) >> os.listen fd somaxconn

  with_socket : A → (ℕ ⊎ ℕ) × K → (ℕ ⊎ ℕ) × K
  unfolding listen_on
  with_socket addr (inl e, w) = (inl e, w)
  with_socket addr (inr fd, w) =
      let (e, w') = listen_on addr fd w in (elim e [ none ↦ inr fd | some e ↦ inl e ], w')

  -- `serverSocket`: an errno or the socket.
  unfoldable pub server_socket : A → K → (ℕ ⊎ ℕ) × K
  unfolding with_socket
  server_socket addr w = with_socket addr (os.socket w)

  -- `NewListener` after the address is resolved; the reactor is started.
  unfoldable pub new_listener : ℤ → A → K → (ℕ ⊎ Listener A) × K
  unfolding server_socket
  new_listener period addr w =
      let (s, w') = server_socket addr w in
      (
        elim s [
          | inl e ↦ inl e
          | inr fd ↦ inr (record { keep_alive_period = period; sock_fd = fd; addr = addr })
        ],
        w',
      )

  unfoldable pub set_keep_alive : ℕ → Bool → K → Option ℕ × K
  unfolding boolint
  set_keep_alive fd on = os.set_opt fd (keep_alive (boolint on))

  unfoldable pub set_keep_alive_period : ℕ → ℕ → K → Option ℕ × K
  unfolding round_duration_up
  set_keep_alive_period fd d =
      let secs = round_duration_up d second in
      os.set_opt fd (keep_intvl secs) >> os.set_opt fd (keep_idle secs)

  -- The keep-alive of a new connection, whose errors are dropped: none for a negative period, the
  -- default for 0.
  unfoldable pub keep_alive_conn : ℤ → ℕ → K → K
  unfolding set_keep_alive set_keep_alive_period
  keep_alive_conn (negsuc n) fd w = w
  keep_alive_conn (pos n) fd w =
      let ka = if n == 0 then default_tcp_keep_alive else n in
      (set_keep_alive_period fd ka (set_keep_alive fd true w).1).1

  finish_accept_with : Listener A → A → CqEvent → Option ℕ → K → (ℕ ⊎ Conn A) × K
  unfolding keep_alive_conn new_conn
  finish_accept_with l r_addr cqe (some e) w = (inl e, w)
  finish_accept_with l r_addr cqe none w =
      (inr (new_conn cqe.res l.addr r_addr), keep_alive_conn l.keep_alive_period cqe.res w)

  -- `Accept` after it has received the completion, with the peer's address that the kernel wrote.
  unfoldable pub finish_accept : Listener A → A → CqEvent → K → (ℕ ⊎ Conn A) × K
  unfolding finish_accept_with event_error
  finish_accept l r_addr cqe w = finish_accept_with l r_addr cqe (event_error cqe) w

  -- `Close`, less the stop of the reactor.
  unfoldable pub close_listener : Listener A → K → Option ℕ × K
  close_listener l w = os.close l.sock_fd w

-- `Accept` up to the wait; the addresses of the operation's buffers.
unfoldable pub start_accept :
    {A : Type 0}
    → RingNetEventLoop
    → (addr len_addr : ℕ) → Listener A
    → NetworkReactor Waiter
    → ℕ × NetworkReactor Waiter
unfolding queue
start_accept default addr len_addr l r =
    queue default (net_accept l.sock_fd 0 addr len_addr) (acceptor l.sock_fd) (pos 0) r
