-- ===== src/Uring/Operation/Make.antt =====
-- uring/operation.go: the functions that make an operation and can fail, or ask for memory.
use go_uring.Base.{
  ℕ, zero, suc, List, [], ◌∷◌, Option, none, some, ◌⊎◌, inl, inr, Bool, true, ltb, ◌&&◌, ◌≡◌, refl,
  arith, if◌then◌else◌, Bool-cases,
}
use go_uring.Uring.Operation.{Slice, Operation, read_v, write_v, connect, first_address}

-- What comes after a panic is not run.
infixl 4 ◌>>=◌
abbrev ◌>>=◌ : {A B : Type 0} → Option A → (A → Option B) → Option B
none >>= f = none
some a >>= f = f a

-- The `Iovec`s of some vectors: the address of the first element of an empty one panics.
unfoldable pub make_vecs : List Slice → Option (List Slice)
unfolding first_address
make_vecs [] = some []
make_vecs (v ∷ vs) = do
  base ← first_address v.base v.len
  rest ← make_vecs vs
  some (record { base = base; len = v.len } ∷ rest)

-- `ReadV` and `WriteV`, with the address of the new array.
unfoldable pub new_read_v : (array fd : ℕ) → List Slice → (offset : ℕ) → Option Operation
unfolding make_vecs
new_read_v array fd vectors offset = do
  vecs ← make_vecs vectors
  some (read_v fd (record { base = array; vecs = vecs }) offset)

unfoldable pub new_write_v : (array fd : ℕ) → List Slice → (offset : ℕ) → Option Operation
unfolding make_vecs
new_write_v array fd bytes offset = do
  vecs ← make_vecs bytes
  some (write_v fd (record { base = array; vecs = vecs }) offset)

-- `Connect`: the conversion of the address is a parameter, whose error panics.
unfoldable pub new_connect :
    {A E : Type 0} → (sockaddr_to_any : A → E ⊎ (ℕ × ℕ)) → ℕ → A → Option Operation
new_connect sockaddr_to_any fd addr = elim (sockaddr_to_any addr) [
  | inl e ↦ none
  | inr raw ↦ some (connect fd raw.0 raw.1)
]

-- `AcceptOp.Addr`, with the conversions of the address that the kernel wrote.
unfoldable pub accept_addr :
    {R S A E : Type 0} → (any_to_sockaddr : R → E ⊎ S) → (sockaddr_to_tcp_addr : S → A) → R → E ⊎ A
accept_addr any_to_sockaddr sockaddr_to_tcp_addr raw = elim (any_to_sockaddr raw) [
  | inl e ↦ inl e
  | inr s ↦ inr (sockaddr_to_tcp_addr s)
]

-- The vectors are taken as they are, unless one is empty.
abbrev all_filled : List Slice → Bool
all_filled [] = true
all_filled (v ∷ vs) = ltb 0 v.len && all_filled vs

make_first :
    (base len : ℕ) (rest : Option (List Slice)) (vs : List Slice)
    → rest ≡ (if all_filled vs then some vs else none)
    → (first_address base len >>= λ a. rest >>= λ r. some (record { base = a; len = len } ∷ r))
      ≡ (if ltb 0 len && all_filled vs then some (record { base = base; len = len } ∷ vs) else none)
unfolding first_address
make_first base zero rest vs h = refl
make_first base (suc n) rest vs h = elim (Bool-cases (all_filled vs)) [
  | inl filled ↦ rw (h, filled) (ground arith)
  | inr empty ↦ rw (h, empty) (ground arith)
]

make_vecs_lem : (vs : List Slice) → make_vecs vs ≡ (if all_filled vs then some vs else none)
unfolding make_vecs first_address
make_vecs_lem [] = refl
make_vecs_lem (v ∷ vs) = make_first v.base v.len (make_vecs vs) vs (make_vecs_lem vs)
