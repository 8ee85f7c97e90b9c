-- ===== src/Uring/Sq/Queue.antt =====
-- What the submission queue promises: a bounded queue in two parts, the entries that the kernel can
-- see and those that are only prepared.
use go_uring.Base.{ℕ, ◌+◌, List, [], ◌∷◌, ◌++◌, length, drop, ltb, if◌then◌else◌}
use go_uring.Uring.Entry.{SqEntry}
use go_uring.Uring.Sq.{Queued, ok, sq_overflow}

pub record Pending : Type 0 where
  pub submitted : List SqEntry
  pub prepared : List SqEntry

abbrev pub total : Pending → ℕ
total q = length q.submitted + length q.prepared

-- Another entry, behind all others, if there is room.
abbrev pub push : ℕ → SqEntry → Pending → Queued × Pending
push cap e q =
    if ltb (total q) cap
    then (ok, record q { prepared = q.prepared ++ (e ∷ []) })
    else (sq_overflow, q)

-- All that is prepared becomes visible, in order; the result is what the kernel can see.
abbrev pub flush : Pending → ℕ × Pending
flush q = (total q, record { submitted = q.submitted ++ q.prepared; prepared = [] })

-- The kernel takes the oldest visible entry.
abbrev pub take_oldest : Pending → Pending
take_oldest q = record q { submitted = drop 1 q.submitted }
