-- ===== src/Example/Echo/Table.antt =====
-- The table of the connections: its size, the operations that it keeps, and that every operation in
-- flight belongs to the state of its connection.
use go_uring.Base.{
  ℕ, zero, suc, ◌+◌, ◌<◌, ◌≡◌, ◌≢◌, refl, sym, ap, ◌∙◌, List, [], ◌∷◌, none, some, ◌≤◌, get_elem?,
  set, arith, ◌==◌, if◌then◌else◌, ℕ_discrete,
}
use go_uring.Uring.Entry.{SqEntry}
use go_uring.Uring.Operation.{Slice, recv, send, set_buffer}
use go_uring.Uring.Operation.Code.{number, accept_code, recv_code, send_code}
use go_uring.Example.Echo.{
  ConnType, unset, accepting, reading, writing, ConnInfo, new_conn_info, max_conns, max_msg_len,
  conns_from, make_conns, buffers_from, make_buffers,
}
use go_uring.Example.Echo.Flights.{All, occ}

get_elem?-set_self {ℓ} :
    {A : Type ℓ} (xs : List A) (i : ℕ) (v a : A)
    → get_elem? xs i ≡ some a
    → get_elem? (set xs i v) i ≡ some v
get_elem?-set_self [] i v a h = cc
get_elem?-set_self (x ∷ xs) zero v a h = refl
get_elem?-set_self (x ∷ xs) (suc i) v a h = get_elem?-set_self xs i v a h

get_elem?-set_ne {ℓ} :
    {A : Type ℓ} (xs : List A) (i j : ℕ) (v : A) → i ≢ j → get_elem? (set xs i v) j ≡ get_elem? xs j
get_elem?-set_ne [] i j v h = refl
get_elem?-set_ne (x ∷ xs) zero zero v h = absurd (h refl)
get_elem?-set_ne (x ∷ xs) zero (suc j) v h = refl
get_elem?-set_ne (x ∷ xs) (suc i) zero v h = refl
get_elem?-set_ne (x ∷ xs) (suc i) (suc j) v h = get_elem?-set_ne xs i j v (λ e. h (ap suc e))

-- The state that an operation belongs to, by its code.
unfoldable pub typ_of : SqEntry → ConnType
unfolding number
typ_of e =
    if e.op_code == number accept_code
    then accepting
    else (if e.op_code == number recv_code
        then reading
        else (if e.op_code == number send_code then writing else unset))

-- The connection's operations are a receive and a send on its own descriptor, whatever their buffer.
pub record IsConn (fd : ℕ) (ci : ConnInfo) : Type 0 where
  pub receives : (b : Slice) → set_buffer b ci.recv_op ≡ recv fd b 0
  pub sends : (b : Slice) → set_buffer b ci.send_op ≡ send fd b 0

-- Every descriptor below `max_conns` has a place in the table.
abbrev pub IsTable : List ConnInfo → Type 0
IsTable conns =
    (fd : ℕ) → fd < max_conns → (ci : ConnInfo) × (get_elem? conns fd ≡ some ci) × IsConn fd ci

-- The operation in flight carries the descriptor of its connection, whose state is that of the
-- operation; connections are accepted on the listening socket.
pub record Matches (server_fd : ℕ) (conns : List ConnInfo) (e : SqEntry) : Type 0 where
  pub below : e.user_data < max_conns
  pub info : ConnInfo
  pub found : get_elem? conns e.user_data ≡ some info
  pub same_fd : info.fd ≡ e.user_data
  pub same_typ : info.typ ≡ typ_of e
  pub listens : typ_of e ≡ accepting → e.user_data ≡ server_fd

module _ (conns : List ConnInfo) (fd : ℕ) (ci : ConnInfo) where
  pub IsTable-set : IsTable conns → IsConn fd ci → IsTable (set conns fd ci)
  IsTable-set t c i lt = elim (ℕ_discrete fd i) [
    | yes same ↦ (
      ci,
      ap (get_elem? (set conns fd ci)) (sym same)
          ∙ get_elem?-set_self conns fd ci (t fd (omega arith)).0 (t fd (omega arith)).1,
      rw (← same) c,
    )
    | no other ↦ ((t i lt).0, get_elem?-set_ne conns fd i ci other ∙ (t i lt).1, (t i lt).2)
  ]

module _ (server_fd : ℕ) (conns : List ConnInfo) (fd : ℕ) (ci : ConnInfo) where
  -- A new state of a connection leaves the operations of the others as they are.
  pub All-Matches-set :
      (es : List SqEntry)
      → occ fd es ≡ 0
      → All (Matches server_fd conns) es
      → All (Matches server_fd (set conns fd ci)) es
  All-Matches-set [] z m = tt
  All-Matches-set (e ∷ es) z m = (
    record {
      below = m.0.below;
      info = m.0.info;
      found = get_elem?-set_ne conns fd e.user_data ci (ground arith) ∙ m.0.found;
      same_fd = m.0.same_fd;
      same_typ = m.0.same_typ;
      listens = m.0.listens;
    },
    All-Matches-set es (ground arith) m.1,
  )

  pub Matches-set_self :
      (e : SqEntry)
      → IsTable conns
      → e.user_data ≡ fd
      → fd < max_conns
      → ci.fd ≡ fd
      → ci.typ ≡ typ_of e
      → (typ_of e ≡ accepting → e.user_data ≡ server_fd)
      → Matches server_fd (set conns fd ci) e
  Matches-set_self e t u lt same typ listens = record {
    below = omega arith;
    info = ci;
    found =
        ap (get_elem? (set conns fd ci)) u ∙ get_elem?-set_self conns fd ci (t fd lt).0 (t fd lt).1;
    same_fd = omega arith;
    same_typ = typ;
    listens = listens;
  }

get_elem?-conns_from :
    (n fd i : ℕ) → i < n → get_elem? (conns_from n fd) i ≡ some (new_conn_info (fd + i))
unfolding conns_from
get_elem?-conns_from zero fd i h = absurd (omega arith)
get_elem?-conns_from (suc n) fd zero h = ap (λ t. some (new_conn_info t)) (omega arith)
get_elem?-conns_from (suc n) fd (suc i) h =
    get_elem?-conns_from n (suc fd) i (omega arith) ∙ ap (λ t. some (new_conn_info t)) (omega arith)

get_elem?-buffers_from :
    (address : ℕ → ℕ) (n i j : ℕ)
    → j < n
    → get_elem? (buffers_from address n i) j
      ≡ some (record { base = address (i + j); len = max_msg_len })
unfolding buffers_from
get_elem?-buffers_from address zero i j h = absurd (omega arith)
get_elem?-buffers_from address (suc n) i zero h =
    ap (λ t. some (record { base = address t; len = max_msg_len })) (omega arith)
get_elem?-buffers_from address (suc n) i (suc j) h =
    get_elem?-buffers_from address n (suc i) j (omega arith)
    ∙ ap (λ t. some (record { base = address t; len = max_msg_len })) (omega arith)

pub make_conns-IsTable : IsTable make_conns
unfolding make_conns set_buffer
make_conns-IsTable fd h = (
  new_conn_info fd,
  get_elem?-conns_from max_conns 0 fd h ∙ ap (λ t. some (new_conn_info t)) (omega arith),
  record { receives = λ b. refl; sends = λ b. refl },
)

pub get_elem?-make_buffers :
    (address : ℕ → ℕ) (fd : ℕ)
    → fd < max_conns
    → get_elem? (make_buffers address) fd ≡ some (record { base = address fd; len = max_msg_len })
unfolding make_buffers
get_elem?-make_buffers address fd h =
    get_elem?-buffers_from address max_conns 0 fd h
    ∙ ap (λ t. some (record { base = address t; len = max_msg_len })) (omega arith)

get_elem?-buffers_from_past :
    (address : ℕ → ℕ) (n i j : ℕ) → n ≤ j → get_elem? (buffers_from address n i) j ≡ none
unfolding buffers_from
get_elem?-buffers_from_past address zero i j h = refl
get_elem?-buffers_from_past address (suc n) i zero h = absurd (omega arith)
get_elem?-buffers_from_past address (suc n) i (suc j) h =
    get_elem?-buffers_from_past address n (suc i) j (omega arith)

pub get_elem?-make_buffers_past :
    (address : ℕ → ℕ) (fd : ℕ) → max_conns ≤ fd → get_elem? (make_buffers address) fd ≡ none
unfolding make_buffers
get_elem?-make_buffers_past address fd h = get_elem?-buffers_from_past address max_conns 0 fd h
