-- ===== src/Uring/Ring/Rounds.antt =====
-- `getCQEvents`: the decision of a round and its system call, on their branches.
use go_uring.Base.{
  ℕ, suc, ◌≢◌, ℕ_discrete, ◌%◌, ◌^◌, ◌≡◌, ◌⊎◌, refl, ap, ◌∙◌, true, false, inl, inr, Option, none,
  some, List, ◌∷◌, ◌++◌, bit_or, arith,
}
use go_uring.Base.Bits.{digit, digit-bit_or}
use go_uring.Base.Word.{u32_mod, sub32}
use go_uring.Uring.Entry.{CqEvent}
use go_uring.Uring.Sq.{cq_need_flush}
use go_uring.Uring.Cq.{Peeked}
use go_uring.Uring.Cq.Inv.{IsValid, ready}
use go_uring.Uring.Ring.{
  Ring, Enter, Entered, GetParams, Got, stop, call, round, call_flags, is_idle, gets_events,
  Outcome, eagain, sys_enter, after_call, act,
}
use go_uring.Uring.Ring.Kernel.{Honours}

-- The call returned, with an error, or with the oldest ready completion, which stays in the queue.
abbrev pub Delivers : {K : Type 0} → ℕ → Option (Outcome K Got) → Type 0
Delivers k none = ⊥
Delivers k (some (got, w, r)) =
    IsValid k r.cq_ring
    × (((e : ℕ) × (got.err ≡ some e))
        ⊎ ((c : CqEvent) × (rest : List CqEvent) × (got ≡ record { cqe = some c; err = none })
            × (ready (2 ^ k) r.cq_ring ≡ c ∷ rest)))

-- A round that waits or flushes sets IORING_ENTER_GETEVENTS.
pub call_flags-events :
    (p : GetParams) (peeked : Peeked) (r : Ring)
    → gets_events p peeked ≡ true
    → digit 0 (call_flags p peeked r) ≡ 1
unfolding call_flags
call_flags-events p peeked r h =
    ground (arith, digit-bit_or 0 1 p.flags, digit-bit_or 0 (bit_or 1 p.flags) 2)

module _ {K : Type 0} {k : ℕ} (enter : Enter → K → Ring → Entered K) (h : Honours k enter) where
  abbrev Again : Type 0
  Again = GetParams → K → Ring → Option (Outcome K Got)

  abbrev pub args : ℕ → GetParams → Ring → Enter
  args flags p r = record {
    ring_fd = r.fd;
    to_submit = p.submit;
    min_complete = p.wait_nr;
    flags = flags;
  }

  module _ (a : Enter) (w : K) (r : Ring) where
    call_ok :
        (enter a w r).errno ≡ 0
        → sys_enter enter a w r
          ≡ (((enter a w r).consumed, none), (enter a w r).world, (enter a w r).ring)
    unfolding sys_enter
    call_ok e = ground arith

    call_failed :
        (enter a w r).errno ≢ 0
        → sys_enter enter a w r
          ≡ ((0, some (enter a w r).errno), (enter a w r).world, (enter a w r).ring)
    unfolding sys_enter
    call_failed e = ground arith

  -- A call while a completion is ready ends the loop.
  pub call-Delivers :
      (flags : ℕ) (peeked : Peeked) (p : GetParams) (w : K) (r : Ring) (again : Again) (c : CqEvent)
      (rest : List CqEvent)
      → IsValid k r.cq_ring
      → ready (2 ^ k) r.cq_ring ≡ c ∷ rest
      → peeked.cqe ≡ some c
      → Delivers k (act enter (call flags) peeked p w r again)
  unfolding act after_call
  call-Delivers flags peeked p w r again c rest v q e =
      let a = args flags p r in
      elim (ℕ_discrete (enter a w r).errno 0) [
        | yes fine ↦
            rw (e, call_ok a w r fine)
              (
                h.keeps_valid a w r v,
                inr (
                  c,
                  rest ++ (h.grows a w r v).0,
                  refl,
                  (h.grows a w r v).1 ∙ ap (λ l. l ++ (h.grows a w r v).0) q,
                ),
              )
        | no bad ↦
            rw (e, call_failed a w r bad) (h.keeps_valid a w r v, inl ((enter a w r).errno, refl))
      ]

  -- A call while none is ready ends the loop, or succeeds and goes on.
  pub call_goes_on :
      (flags : ℕ) (peeked : Peeked) (p : GetParams) (w : K) (r : Ring) (again : Again)
      → IsValid k r.cq_ring
      → peeked.cqe ≡ none
      → let e = enter (args flags p r) w r in
        (e.errno ≡ 0
          → Delivers k
              (again (record p { submit = sub32 p.submit (e.consumed % u32_mod) }) e.world e.ring))
        → Delivers k (act enter (call flags) peeked p w r again)
  unfolding act after_call
  call_goes_on flags peeked p w r again v e more =
      let a = args flags p r in
      elim (ℕ_discrete (enter a w r).errno 0) [
        | yes fine ↦ rw (e, call_ok a w r fine) (more fine)
        | no bad ↦
            rw (e, call_failed a w r bad) (h.keeps_valid a w r v, inl ((enter a w r).errno, refl))
      ]

-- What the peek tells of an empty queue, and of one whose oldest completion is `c`.
abbrev pub nothing : Peeked
nothing = record { available = 0; cqe = none; err = none }

abbrev pub found : ℕ → CqEvent → Peeked
found m c = record { available = suc m; cqe = some c; err = none }

-- The decision of a round, on its branches.
module _ (p : GetParams) (r : Ring) where
  pub round_idle :
      is_idle p nothing ≡ true
      → cq_need_flush r.sq_ring ≡ false
      → round p nothing r ≡ stop (record { cqe = none; err = some eagain })
  unfolding round
  round_idle idle empty = rw (idle, empty) refl

  pub round_flush :
      is_idle p nothing ≡ true
      → cq_need_flush r.sq_ring ≡ true
      → round p nothing r ≡ call (call_flags p nothing r)
  unfolding round
  round_flush idle overflow = ground arith

  pub round_busy : is_idle p nothing ≡ false → round p nothing r ≡ call (call_flags p nothing r)
  unfolding round
  round_busy busy = ground arith

  pub round-found :
      (m : ℕ) (c : CqEvent)
      → (round p (found m c) r ≡ call (call_flags p (found m c) r))
        ⊎ (round p (found m c) r ≡ stop (record { cqe = some c; err = none }))
  unfolding round
  round-found m c = ground arith
