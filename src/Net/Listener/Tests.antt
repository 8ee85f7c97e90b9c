-- ===== src/Net/Listener/Tests.antt =====
-- Instances: a system whose descriptors are the numbers below a counter, and whose bind(2) fails.
use go_uring.Base.{
  ℕ, suc, ◌+◌, ◌-◌, ◌^◌, ◌<◌, ◌≡◌, refl, Option, none, some, inl, inr, Bool, true, false, ltb,
  arith, List, [], ◌∷◌,
}
use go_uring.Base.Int.{pos, negsuc}
use go_uring.Base.Word.{u32_mod}
use go_uring.Uring.Entry.{CqEvent}
use go_uring.Net.Conn.{new_conn}
use go_uring.Net.Listener.{
  Sockets, SockOpt, nonblock, reuse_addr, keep_alive, keep_intvl, keep_idle, second, Listener,
  listen_on, server_socket, finish_accept, set_default_listener_sockopts, new_listener,
  round_duration_up, int64_div,
}
use go_uring.Net.Listener.Socket.{KeepsOpen, server_socket_leaks}
use go_uring.Net.Listener.Accept.{KeepAlive, finish_accept_lem}

record World : Type 0 where
  opened : ℕ
  options : List SockOpt

abbrev os : (bind_errno : Option ℕ) → Sockets ℕ World
os bind_errno = record {
  socket = λ w. (inr w.opened, record w { opened = suc w.opened });
  set_opt = λ fd o w. (none, record w { options = o ∷ w.options });
  bind = λ fd addr w. (bind_errno, w);
  listen = λ fd backlog w. (none, w);
  close = λ fd w. (none, w);
}

abbrev is_open : World → ℕ → Bool
is_open w fd = ltb fd w.opened

abbrev three_open : World
three_open = record { opened = 3; options = [] }

os-KeepsOpen : KeepsOpen (os (some 98)) is_open
os-KeepsOpen = record {
  socket_opens = λ w fd e. ground arith;
  set_opt_keeps = λ fd o w. refl;
  bind_keeps = λ fd addr w. refl;
  listen_keeps = λ fd backlog w. refl;
}

busy : (listen_on (os (some 98)) 80 3 ((os (some 98)).socket three_open).1).0 ≡ some 98
unfolding listen_on set_default_listener_sockopts
busy = refl

server_socket_leaks_example :
    let (out, w') = server_socket (os (some 98)) 80 three_open in
    (out ≡ inl 98) × (is_open three_open 3 ≡ false) × (is_open w' 3 ≡ true)
server_socket_leaks_example =
    server_socket_leaks (os (some 98)) os-KeepsOpen 80 three_open 3 98 refl busy

abbrev listener : Listener ℕ
listener = record { keep_alive_period = pos (second + 1); sock_fd = 3; addr = 80 }

-- A listener whose calls succeed.
made :
    new_listener (os none) (pos (second + 1)) 80 three_open
    ≡ (inr listener, record { opened = 4; options = nonblock false ∷ reuse_addr 1 ∷ [] })
unfolding new_listener listen_on set_default_listener_sockopts
made = refl

abbrev connected : CqEvent
connected = record { user_data = 5; res = 9; flags = 0 }

-- The options of a connection whose keep-alive is a little more than a second.
options_of :
    (finish_accept (os none) listener 6 connected three_open).1.options
    ≡ keep_idle (pos 2) ∷ keep_intvl (pos 2) ∷ keep_alive 1 ∷ []
unfolding finish_accept
options_of = refl

-- The longest period of an int64.
longest : round_duration_up (2 ^ 63 - 1) second ≡ negsuc 9223372034
unfolding round_duration_up int64_div
longest = refl

finish_accept_lem_example :
    let (out, w') = finish_accept (os none) listener 6 connected three_open in
    ((e : ℕ) → 0 < e → e < 2 ^ 31 → 9 ≡ u32_mod - e → (out ≡ inl e) × (w' ≡ three_open))
    × (9 < 2 ^ 31
        → (out ≡ inr (new_conn 9 80 6)) × KeepAlive (os none) listener 6 connected three_open w')
finish_accept_lem_example = finish_accept_lem (os none) listener 6 connected three_open
