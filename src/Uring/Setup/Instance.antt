-- ===== src/Uring/Setup/Instance.antt =====
-- An instance of the system calls: descriptors and addresses are counted up to a limit.
use go_uring.Base.{
  ℕ, suc, ◌+◌, ◌*◌, ◌≡◌, refl, sym, ap, Bool, true, false, none, ◌⊎◌, inl, inr, leb, ◌||◌,
  if◌then◌else◌, arith, Bool-cases,
}
use go_uring.Uring.Params.{RingParams, SqRingParams, CqRingParams}
use go_uring.Uring.Setup.{Os}
use go_uring.Uring.Setup.Memory.{Tracks, set}
use go_uring.Uring.Setup.Made.{KeepsParams}

pub record World : Type 0 where
  pub is_mapped : ℕ → Bool
  pub is_open : ℕ → Bool
  pub next_addr : ℕ
  pub next_fd : ℕ
  pub last_addr : ℕ

abbrev mmap : (fd offset size : ℕ) → World → (ℕ ⊎ ℕ) × World
mmap fd offset size w =
    if leb w.last_addr w.next_addr || w.is_mapped w.next_addr then (inl 12, w) else (
      inr w.next_addr,
      record w { is_mapped = set w.next_addr true w.is_mapped; next_addr = suc w.next_addr },
    )

-- Where a kernel puts the fields of a ring of `n` entries, and the completions before the indices.
abbrev pub sq_layout : ℕ → SqRingParams
sq_layout n = record {
  head = 0;
  tail = 4;
  ring_mask = 8;
  ring_entries = 12;
  flags = 16;
  dropped = 20;
  array = 64 + 16 * (n + n);
}

abbrev pub cq_layout : CqRingParams
cq_layout = record {
  head = 24;
  tail = 28;
  ring_msk = 32;
  ring_entries = 36;
  overflow = 40;
  cqes = 64;
  flags = 44;
}

-- A kernel with these features.
abbrev setup : (features n : ℕ) → RingParams → World → (ℕ ⊎ (ℕ × RingParams)) × World
setup features n p w = if w.is_open w.next_fd then (inl 24, w) else (
  inr (
    w.next_fd,
    record p {
      sq_entries = n;
      cq_entries = n + n;
      features = features;
      sq_offset = sq_layout n;
      cq_offset = cq_layout;
    },
  ),
  record w { is_open = set w.next_fd true w.is_open; next_fd = suc w.next_fd },
)

abbrev pub os_with : (features : ℕ) → Os World
os_with features = record {
  setup = setup features;
  mmap = mmap;
  munmap = λ a w. (none, record w { is_mapped = set a false w.is_mapped });
  close = λ fd w. (none, record w { is_open = set fd false w.is_open });
}

abbrev pub os : Os World
os = os_with 1

-- Nothing is mapped or open but the standard descriptors; `n` mappings can be made.
abbrev pub start : ℕ → World
start n = record {
  is_mapped = λ a. false;
  is_open = λ fd. leb fd 2;
  next_addr = 100;
  next_fd = 3;
  last_addr = 100 + n;
}

inr-inj : {A B : Type 0} {a b : B} → ◌≡◌ {A = A ⊎ B} (inr a) (inr b) → a ≡ b
inr-inj e = cc

mmap-new :
    (fd offset size : ℕ) (w : World) (a : ℕ)
    → (mmap fd offset size w).0 ≡ inr a
    → (w.is_mapped a ≡ false) × ((mmap fd offset size w).1.is_mapped ≡ set a true w.is_mapped)
mmap-new fd offset size w a =
    elim (Bool-cases (leb w.last_addr w.next_addr || w.is_mapped w.next_addr)) [
      | inl full ↦ rw full (λ e. absurd cc)
      | inr free ↦ rw free (λ e. rw (sym (inr-inj e)) (ground arith, refl))
    ]

mmap-fails :
    (fd offset size : ℕ) (w : World) (e : ℕ)
    → (mmap fd offset size w).0 ≡ inl e
    → (mmap fd offset size w).1.is_mapped ≡ w.is_mapped
mmap-fails fd offset size w e =
    elim (Bool-cases (leb w.last_addr w.next_addr || w.is_mapped w.next_addr)) [
      | inl full ↦ rw full (λ e. refl)
      | inr free ↦ rw free (λ e. absurd cc)
    ]

mmap-keeps : (fd offset size : ℕ) (w : World) → (mmap fd offset size w).1.is_open ≡ w.is_open
mmap-keeps fd offset size w =
    elim (Bool-cases (leb w.last_addr w.next_addr || w.is_mapped w.next_addr)) [
      | inl full ↦ rw full refl
      | inr free ↦ rw free refl
    ]

setup-opens :
    (features n : ℕ) (p : RingParams) (w : World) (fd : ℕ) (p' : RingParams)
    → (setup features n p w).0 ≡ inr (fd, p')
    → (w.is_open fd ≡ false) × ((setup features n p w).1.is_open ≡ set fd true w.is_open)
setup-opens features n p w fd p' = elim (Bool-cases (w.is_open w.next_fd)) [
  | inl full ↦ rw full (λ e. absurd cc)
  | inr free ↦ rw free (λ e. rw (sym (ap (λ x. x.0) (inr-inj e))) (free, refl))
]

setup-fails :
    (features n : ℕ) (p : RingParams) (w : World) (e : ℕ)
    → (setup features n p w).0 ≡ inl e
    → (setup features n p w).1.is_open ≡ w.is_open
setup-fails features n p w e = elim (Bool-cases (w.is_open w.next_fd)) [
  | inl full ↦ rw full (λ e. refl)
  | inr free ↦ rw free (λ e. absurd cc)
]

setup-keeps :
    (features n : ℕ) (p : RingParams) (w : World) → (setup features n p w).1.is_mapped ≡ w.is_mapped
setup-keeps features n p w = elim (Bool-cases (w.is_open w.next_fd)) [
  | inl full ↦ rw full refl
  | inr free ↦ rw free refl
]

pub os_with-Tracks : (features : ℕ) → Tracks (os_with features) (λ w. w.is_mapped) (λ w. w.is_open)
os_with-Tracks features = record {
  mmap_new = mmap-new;
  mmap_fails = mmap-fails;
  munmap_mapped = λ a w h. (refl, refl);
  close_keeps = λ fd w. refl;
  close_closes = λ fd w. refl;
  mmap_keeps = mmap-keeps;
  munmap_keeps = λ a w. refl;
  setup_opens = setup-opens features;
  setup_fails = setup-fails features;
  setup_keeps = setup-keeps features;
}

pub os_with-KeepsParams : (features : ℕ) → KeepsParams (os_with features)
os_with-KeepsParams features n p w fd p' = elim (Bool-cases (w.is_open w.next_fd)) [
  | inl full ↦ rw full (λ e. absurd cc)
  | inr free ↦
      rw free (λ e. (ap (λ x. x.1.flags) (sym (inr-inj e)), ap (λ x. x.1.wq_fd) (sym (inr-inj e))))
]

pub os-Tracks : Tracks os (λ w. w.is_mapped) (λ w. w.is_open)
os-Tracks = os_with-Tracks 1

pub os-KeepsParams : KeepsParams os
os-KeepsParams = os_with-KeepsParams 1
