-- ===== src/Net/Listener/Socket.antt =====
-- What `serverSocket` leaves open.
use go_uring.Base.{ℕ, ◌≡◌, refl, ap, ◌∙◌, Option, some, inl, inr, Bool, true, false, Option-cases}
use go_uring.Net.Listener.{
  Sockets, SockOpt, listen_on, server_socket, with_socket, ◌>>◌, reuse_addr, nonblock, somaxconn,
  set_default_listener_sockopts,
}

-- What socket(2) documents: a descriptor that it returns was not open and is open then, and the calls
-- on a socket do not open or close one.
pub record KeepsOpen {A K : Type 0} (os : Sockets A K) (is_open : K → ℕ → Bool) : Type 0 where
  pub socket_opens :
      (w : K) (fd : ℕ)
      → (os.socket w).0 ≡ inr fd
      → (is_open w fd ≡ false) × (is_open (os.socket w).1 fd ≡ true)
  pub set_opt_keeps : (fd : ℕ) (o : SockOpt) (w : K) → is_open (os.set_opt fd o w).1 ≡ is_open w
  pub bind_keeps : (fd : ℕ) (addr : A) (w : K) → is_open (os.bind fd addr w).1 ≡ is_open w
  pub listen_keeps : (fd backlog : ℕ) (w : K) → is_open (os.listen fd backlog w).1 ≡ is_open w

module _ {K : Type 0} (is_open : K → ℕ → Bool) where
  abbrev Keeps : (K → Option ℕ × K) → Type 0
  Keeps m = (w : K) → is_open (m w).1 ≡ is_open w

  >>-Keeps : (m k : K → Option ℕ × K) → Keeps m → Keeps k → Keeps (m >> k)
  >>-Keeps m k hm hk w = elim (Option-cases (m w).0) [
    | inl e ↦ rw (◌>>◌, e) (hk (m w).1 ∙ hm w)
    | inr e ↦ rw (◌>>◌, e.1) (hm w)
  ]

module _ {A K : Type 0} (os : Sockets A K) {is_open : K → ℕ → Bool} (h : KeepsOpen os is_open) where
  sockopts-Keeps : (fd : ℕ) → Keeps is_open (set_default_listener_sockopts os fd)
  unfolding set_default_listener_sockopts
  sockopts-Keeps fd =
      >>-Keeps is_open (os.set_opt fd (reuse_addr 1)) (os.set_opt fd (nonblock false))
        (h.set_opt_keeps fd (reuse_addr 1)) (h.set_opt_keeps fd (nonblock false))

  listen_on-Keeps : (addr : A) (fd : ℕ) → Keeps is_open (listen_on os addr fd)
  unfolding listen_on
  listen_on-Keeps addr fd =
      >>-Keeps is_open (set_default_listener_sockopts os fd >> os.bind fd addr)
        (os.listen fd somaxconn)
        (>>-Keeps is_open (set_default_listener_sockopts os fd) (os.bind fd addr)
          (sockopts-Keeps fd) (h.bind_keeps fd addr))
        (h.listen_keeps fd somaxconn)

  with_socket-leaks :
      (addr : A) (fd e : ℕ) (w : K)
      → (listen_on os addr fd w).0 ≡ some e
      → let (out, w') = with_socket os addr (inr fd, w) in (out ≡ inl e) × (is_open w' ≡ is_open w)
  unfolding with_socket
  with_socket-leaks addr fd e w failed = (rw (with_socket, failed) refl, listen_on-Keeps addr fd w)

  -- When an option, bind(2) or listen(2) fails, `serverSocket` returns the error alone, and the socket
  -- that it has opened stays open.
  pub server_socket_leaks :
      (addr : A) (w : K) (fd e : ℕ)
      → (os.socket w).0 ≡ inr fd
      → (listen_on os addr fd (os.socket w).1).0 ≡ some e
      → let (out, w') = server_socket os addr w in
        (out ≡ inl e) × (is_open w fd ≡ false) × (is_open w' fd ≡ true)
  unfolding server_socket
  server_socket_leaks addr w fd e opened failed = (
    ap (λ o. o.0) same ∙ leaks.0,
    opens.0,
    ap (λ o. is_open o.1 fd) same ∙ ap (λ g. g fd) leaks.1 ∙ opens.1,
  )
    where
      leaks :
          let (out, w') = with_socket os addr (inr fd, (os.socket w).1) in
          (out ≡ inl e) × (is_open w' ≡ is_open (os.socket w).1)
      leaks = with_socket-leaks addr fd e (os.socket w).1 failed

      opens : (is_open w fd ≡ false) × (is_open (os.socket w).1 fd ≡ true)
      opens = h.socket_opens w fd opened

      same : server_socket os addr w ≡ with_socket os addr (inr fd, (os.socket w).1)
      same = ap (λ s. with_socket os addr (s, (os.socket w).1)) opened
