-- ===== src/Uring/Ring/Wait.antt =====
-- `getCQEvents`: the loop ends, and what it delivers.
use go_uring.Base.{
  ℕ, zero, suc, get_or, ℕ_discrete, ◌+◌, ◌%◌, ◌^◌, ◌≤◌, ◌<◌, ◌≡◌, refl, ap, sym, ◌∙◌, true, false,
  inl, inr, Option, some, List, [], ◌∷◌, length, Bool-cases, arith,
}
use go_uring.Base.Word.{u32_mod, sub32}
use go_uring.Uring.Entry.{CqEvent, zero_event}
use go_uring.Uring.Sq.{cq_need_flush}
use go_uring.Uring.Sq.Inv.{visible_count}
use go_uring.Uring.Cq.{CqRing, Peeked, peek_cq_event, event_at, ready_count}
use go_uring.Uring.Cq.Inv.{IsValid, ready, length-ready}
use go_uring.Uring.Cq.Ready.{ready-cons}
use go_uring.Uring.Cq.Peek.{peek_empty, peek_other}
use go_uring.Uring.Params.{ext_arg_feature}
use go_uring.Uring.Ring.{
  Ring, Enter, Entered, GetParams, Got, call, round, call_flags, is_idle, Outcome, eagain, act,
  peek_then, get_cq_events,
}
use go_uring.Uring.Ring.Kernel.{Honours}
use go_uring.Uring.Ring.Rounds.{
  Delivers, args, nothing, found, call_flags-events, call-Delivers, call_goes_on, round_idle,
  round_flush, round_busy, round-found,
}

module _ {K : Type 0} {k : ℕ} (enter : Enter → K → Ring → Entered K) (h : Honours k enter) where
  module _ (fuel : ℕ) (p : GetParams) (w : K) (r : Ring) (v : IsValid k r.cq_ring) where
    abbrev next : GetParams → K → Ring → Option (Outcome K Got)
    next = get_cq_events enter fuel

    abbrev peeking : Option (Peeked × CqRing)
    peeking = peek_cq_event (suc (ready_count r.cq_ring)) (ext_arg_feature r.params) r.cq_ring

    unfold_round : get_cq_events enter (suc fuel) p w r ≡ peek_then enter peeking p w r next
    unfolding get_cq_events
    unfold_round = refl

    peeked_round :
        (peeked : Peeked)
        → peeking ≡ some (peeked, r.cq_ring)
        → get_cq_events enter (suc fuel) p w r ≡ act enter (round p peeked r) peeked p w r next
    unfolding peek_then
    peeked_round peeked e = unfold_round ∙ ap (λ o. peek_then enter o p w r next) e

    -- A round when none is ready.
    empty_round :
        ready (2 ^ k) r.cq_ring ≡ []
        → get_cq_events enter (suc fuel) p w r ≡ act enter (round p nothing r) nothing p w r next
    empty_round q = peeked_round nothing (
        peek_empty (ready_count r.cq_ring) (ext_arg_feature r.params) r.cq_ring
          (sym (length-ready k r.cq_ring) ∙ ap length q))

    -- A round when a completion is ready.
    ready-Delivers :
        (c : CqEvent) (rest : List CqEvent)
        → ext_arg_feature r.params ≡ true
        → ready (2 ^ k) r.cq_ring ≡ c ∷ rest
        → Delivers k (get_cq_events enter (suc fuel) p w r)
    unfolding act
    ready-Delivers c rest ext q = rw seen (elim (round-found p r (length rest) c) [
      | inl called ↦ rw called (
          call-Delivers enter h (call_flags p (found (length rest) c) r) (found (length rest) c) p w
            r next c rest v q refl)
      | inr stopped ↦ rw stopped (v, inr (c, rest, refl, q))
    ])
      where
        count : sub32 r.cq_ring.k_tail r.cq_ring.k_head ≡ suc (length rest)
        count = sym (length-ready k r.cq_ring) ∙ ap length q

        first : event_at r.cq_ring r.cq_ring.k_head ≡ c
        first = ap (λ l. get_or l 0 zero_event) (sym (ready-cons v (length rest) count) ∙ q)

        seen :
            get_cq_events enter (suc fuel) p w r
            ≡ act enter (round p (found (length rest) c) r) (found (length rest) c) p w r next
        seen = peeked_round (found (length rest) c) (
            peek_other (ready_count r.cq_ring) (ext_arg_feature r.params) r.cq_ring (length rest)
              count (rw ext refl)
            ∙ ap (λ x. some (found (length rest) x, r.cq_ring)) first)

  -- A round when some completion is ready.
  some_ready :
      (fuel : ℕ) (p : GetParams) (w : K) (r : Ring)
      → IsValid k r.cq_ring
      → ext_arg_feature r.params ≡ true
      → 0 < length (ready (2 ^ k) r.cq_ring)
      → Delivers k (get_cq_events enter (suc fuel) p w r)
  some_ready fuel p w r v ext n = go (ready (2 ^ k) r.cq_ring) refl n
    where
      go :
          (l : List CqEvent)
          → ready (2 ^ k) r.cq_ring ≡ l
          → 0 < length l
          → Delivers k (get_cq_events enter (suc fuel) p w r)
      go [] q m = absurd (omega arith)
      go (c ∷ rest) q m = ready-Delivers fuel p w r v c rest ext q

  -- The rounds after a first one that found the queue empty are those of a smaller loop.
  module _ (fuel : ℕ) (p : GetParams) (w : K) (r : Ring) (v : IsValid k r.cq_ring)
      (ext : ext_arg_feature r.params ≡ true) (q : ready (2 ^ k) r.cq_ring ≡ [])
      (small : p.submit < u32_mod) (queued : p.submit ≤ visible_count r.sq_ring)
      (enough : p.submit ≤ fuel)
      (ih : (p' : GetParams) (w' : K) (r' : Ring)
        → IsValid k r'.cq_ring
        → ext_arg_feature r'.params ≡ true
        → p'.submit < u32_mod
        → p'.submit ≤ visible_count r'.sq_ring
        → p'.submit + 2 ≤ suc fuel
        → Delivers k (get_cq_events enter (suc fuel) p' w' r')) where
    abbrev entered : Entered K
    entered = enter (args enter h (call_flags p nothing r) p r) w r

    abbrev left : GetParams
    left = record p { submit = sub32 p.submit (entered.consumed % u32_mod) }

    ext_kept : ext_arg_feature entered.ring.params ≡ true
    ext_kept =
        ap ext_arg_feature (h.keeps_params (args enter h (call_flags p nothing r) p r) w r) ∙ ext

    ends_ready :
        (entered.errno ≡ 0 → 0 < length (ready (2 ^ k) entered.ring.cq_ring))
        → Delivers k (
            act enter
              (call (call_flags p nothing r))
              nothing
              p
              w
              r
              (get_cq_events enter (suc fuel)))
    ends_ready more =
        call_goes_on enter h (call_flags p nothing r) nothing p w r (get_cq_events enter (suc fuel))
          v refl
          (λ fine.
            some_ready fuel left entered.world entered.ring (h.keeps_valid _ w r v) ext_kept
              (more fine))

    submits :
        0 < p.submit
        → Delivers k (
            act enter
              (call (call_flags p nothing r))
              nothing
              p
              w
              r
              (get_cq_events enter (suc fuel)))
    submits some_left =
        call_goes_on enter h (call_flags p nothing r) nothing p w r (get_cq_events enter (suc fuel))
          v refl
          (λ fine.
            let taken =
              h.consumes (args enter h (call_flags p nothing r) p r) w r fine some_left queued in
            ih left entered.world entered.ring (h.keeps_valid _ w r v) ext_kept (omega arith)
              (omega (arith, taken.0, taken.1, taken.2)) (omega (arith, taken.0, taken.1)))

    idle-Delivers :
        is_idle p nothing ≡ true → Delivers k (get_cq_events enter (suc (suc fuel)) p w r)
    unfolding act
    idle-Delivers idle = elim (Bool-cases (cq_need_flush r.sq_ring)) [
      | inl overflow ↦
          rw (empty_round (suc fuel) p w r v q, round_flush p r idle overflow)
            (ends_ready (λ fine.
              h.flushes _ w r v fine (ground arith) (call_flags-events p nothing r (ground arith))
                overflow))
      | inr fine ↦
          rw (empty_round (suc fuel) p w r v q, round_idle p r idle fine) (v, inl (eagain, refl))
    ]

    busy-Delivers :
        is_idle p nothing ≡ false → Delivers k (get_cq_events enter (suc (suc fuel)) p w r)
    busy-Delivers busy =
        rw (empty_round (suc fuel) p w r v q, round_busy p r busy)
          (elim (ℕ_discrete p.submit 0) [
            | yes none_left ↦ ends_ready (λ fine. omega (
              arith,
              h.completes (args enter h (call_flags p nothing r) p r) w r v fine none_left
                  (call_flags-events p nothing r (ground arith)),
              waits none_left,
            ))
            | no some_left ↦ submits (omega arith)
          ])
      where
        waits : p.submit ≡ 0 → 0 < p.wait_nr
        waits none_left = ground arith

    empty-Delivers : Delivers k (get_cq_events enter (suc (suc fuel)) p w r)
    empty-Delivers = elim (Bool-cases (is_idle p nothing)) [
      | inl idle ↦ idle-Delivers idle
      | inr busy ↦ busy-Delivers busy
    ]

  -- With a kernel that does what io_uring_enter(2) documents and IORING_FEAT_EXT_ARG, the loop of
  -- `getCQEvents`, if it is to submit no more entries than are in the submission queue, ends within
  -- `submit + 2` rounds: it returns an error, or the oldest completion, which is ready and stays in
  -- the queue, and the queue is still valid.
  pub get_cq_events_total :
      (fuel : ℕ) (p : GetParams) (w : K) (r : Ring)
      → IsValid k r.cq_ring
      → ext_arg_feature r.params ≡ true
      → p.submit < u32_mod
      → p.submit ≤ visible_count r.sq_ring
      → p.submit + 2 ≤ fuel
      → Delivers k (get_cq_events enter fuel p w r)
  get_cq_events_total zero p w r v ext small queued enough = absurd (omega arith)
  get_cq_events_total (suc zero) p w r v ext small queued enough = absurd (omega arith)
  get_cq_events_total (suc (suc fuel)) p w r v ext small queued enough =
      go (ready (2 ^ k) r.cq_ring) refl (get_cq_events_total (suc fuel))
    where
      go :
          (l : List CqEvent)
          → ready (2 ^ k) r.cq_ring ≡ l
          → ((p' : GetParams) (w' : K) (r' : Ring)
              → IsValid k r'.cq_ring
              → ext_arg_feature r'.params ≡ true
              → p'.submit < u32_mod
              → p'.submit ≤ visible_count r'.sq_ring
              → p'.submit + 2 ≤ suc fuel
              → Delivers k (get_cq_events enter (suc fuel) p' w' r'))
          → Delivers k (get_cq_events enter (suc (suc fuel)) p w r)
      go [] q ih = empty-Delivers fuel p w r v ext q small queued (omega arith) ih
      go (c ∷ rest) q ih = ready-Delivers (suc fuel) p w r v c rest ext q
