-- ===== src/Net/Listener/Accept.antt =====
-- What `Accept` makes of a completion.
use go_uring.Base.{
  ℕ, ◌-◌, ◌+◌, ◌*◌, ◌^◌, ◌<◌, ◌≤◌, ◌≡◌, ◌==◌, if◌then◌else◌, refl, ap, Option, inl, inr, arith,
}
use go_uring.Base.Int.{ℤ, pos, negsuc}
use go_uring.Base.Word.{u32_mod}
use go_uring.Uring.Entry.{CqEvent}
use go_uring.Uring.Entry.Errno.{event_error-none, event_error-some}
use go_uring.Net.Conn.{new_conn}
use go_uring.Net.Listener.{
  Sockets, Listener, keep_alive, keep_intvl, keep_idle, second, default_tcp_keep_alive, boolint,
  round_duration_up, set_keep_alive, set_keep_alive_period, keep_alive_conn, finish_accept,
  finish_accept_with, ◌>>◌,
}
use go_uring.Net.Listener.Round.{rounded, round_duration_up_lem, round_duration_up-negative}

-- The whole number of seconds for a keep-alive of `n` nanoseconds: 15 for 0, rounded up otherwise.
abbrev pub IsSeconds : ℕ → ℕ → Type 0
IsSeconds n secs =
    (n ≡ 0 → secs ≡ 15) × (0 < n → (n ≤ secs * second) × (secs * second < n + second))

-- The period that is set: `n` nanoseconds, or the default for 0.
abbrev period_of : ℕ → ℕ
period_of n = if n == 0 then default_tcp_keep_alive else n

period_of_lem : (n : ℕ) → 0 < n → period_of n ≡ n
period_of_lem n h = ground arith

seconds_lem :
    (n secs : ℕ)
    → n + second ≤ 2 ^ 63
    → IsSeconds n secs
    → round_duration_up (period_of n) second ≡ pos secs
seconds_lem n secs k h =
    rw (round_duration_up_lem (period_of n) second (omega arith) (ground arith)) (
      ap pos (
        ground (
          arith,
          rounded n second (omega arith),
          rounded default_tcp_keep_alive second (omega arith),
        )))

overflow_lem :
    (n : ℕ)
    → n < 2 ^ 63
    → 2 ^ 63 < n + second
    → (secs : ℕ) × (round_duration_up (period_of n) second ≡ negsuc secs)
overflow_lem n h k = rw (period_of_lem n (omega arith)) (round_duration_up-negative n h k)

module _ {A K : Type 0} (os : Sockets A K) (l : Listener A) (r_addr : A) (cqe : CqEvent)
    (w : K) where
  -- The two calls of `setKeepAlivePeriod`.
  abbrev pub period_calls : ℤ → K → Option ℕ × K
  period_calls secs = os.set_opt cqe.res (keep_intvl secs) >> os.set_opt cqe.res (keep_idle secs)

  -- The system after the keep-alive is set to this number of seconds.
  abbrev kept_alive : ℤ → K
  kept_alive secs = (period_calls secs (os.set_opt cqe.res (keep_alive 1) w).1).1

  keep_alive_conn_pos :
      (n : ℕ)
      → keep_alive_conn os (pos n) cqe.res w ≡ kept_alive (round_duration_up (period_of n) second)
  unfolding keep_alive_conn set_keep_alive set_keep_alive_period boolint
  keep_alive_conn_pos n = refl

  -- The system after the keep-alive of the connection is set.
  abbrev pub KeepAlive : K → Type 0
  KeepAlive w' =
      ((n : ℕ) → l.keep_alive_period ≡ negsuc n → w' ≡ w)
      × ((n secs : ℕ)
          → l.keep_alive_period ≡ pos n
          → n + second ≤ 2 ^ 63
          → IsSeconds n secs
          → w' ≡ kept_alive (pos secs))
      × ((n : ℕ)
          → l.keep_alive_period ≡ pos n
          → n < 2 ^ 63
          → 2 ^ 63 < n + second
          → (secs : ℕ) × (w' ≡ kept_alive (negsuc secs)))

  keep_alive_conn-KeepAlive : KeepAlive (keep_alive_conn os l.keep_alive_period cqe.res w)
  unfolding keep_alive_conn
  keep_alive_conn-KeepAlive = (
    λ n e. rw e refl,
    λ n secs e k h. rw e (rw (keep_alive_conn_pos n) (ap kept_alive (seconds_lem n secs k h))),
    λ n e h k.
        let (secs, s) = overflow_lem n h k in
        (secs, rw e (rw (keep_alive_conn_pos n) (ap kept_alive s))),
  )

  -- A negated error number is returned, and no option is set. Any other result is the descriptor of the
  -- connection, from the address of the listener to that of the peer and without deadlines. Its
  -- keep-alive is not set if the listener's period is negative; else it is set to the period in whole
  -- seconds, rounded up, or to 15 seconds for 0: the time between probes, then the idle time if that
  -- succeeds. An error of these calls is dropped. This is for periods of at most 2^63 - 10^9
  -- nanoseconds: a longer one overflows, and a negative number of seconds is set.
  pub finish_accept_lem :
      let (out, w') = finish_accept os l r_addr cqe w in
      ((e : ℕ) → 0 < e → e < 2 ^ 31 → cqe.res ≡ u32_mod - e → (out ≡ inl e) × (w' ≡ w))
      × (cqe.res < 2 ^ 31 → (out ≡ inr (new_conn cqe.res l.addr r_addr)) × KeepAlive w')
  unfolding finish_accept finish_accept_with
  finish_accept_lem = (
    λ e p q r. rw (event_error-some e cqe p q r) (refl, refl),
    λ h. rw ((event_error-none cqe (omega arith)).1 h) (refl, keep_alive_conn-KeepAlive),
  )
