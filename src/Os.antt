-- ===== src/Os.antt =====
-- The operating system as the programs see it: a script of replies, one for each call, and the
-- trace of the calls that were made, the newest first. What a call answers is the script's choice,
-- but a read brings at most the bytes that were asked for, and a write takes at most those that
-- were given.
pub mod Post
pub mod Safe
use test_server.Base.{
  ◌==◌, ◌%◌, ◌^◌, ◌/◌, zero, suc, ℕ, List, [], ◌∷◌, ◌++◌, Bool, Option, none, some, take, length,
  if◌then◌else◌,
}
use test_server.Base.Int.{ℤ, pos, negsuc, is_negative, eq_ℤ}

-- `ret` is the result of the call, `interrupted` says that errno is EINTR, and `bytes` is what the
-- call fills in: what a read finds; the revents of poll; for epoll_wait the descriptor of each
-- event; for select the state of each descriptor from 0 on, bit 0 for readable and bit 1 for
-- writable.
pub record Reply : Type 0 where
  pub ret : ℤ
  pub bytes : List ℕ
  pub interrupted : Bool

-- A call with its arguments and, where it made something, what it made.
pub data Call : Type 0 where
  socket : ℤ → Call
  setsockopt : ℤ → Call
  bind : ℤ → ℕ → Call
  listen : ℤ → ℕ → Call
  connect : ℤ → ℕ → Call
  accept : ℤ → ℤ → Call
  close : ℤ → Call
  read : ℤ → List ℕ → Call
  write : ℤ → List ℕ → Call
  getfl : ℤ → Call
  setfl : ℤ → ℤ → Call
  fork : ℤ → Call
  wait : Call
  exit : ℕ → Call
  poll : ℤ → Call
  epoll_create : ℤ → Call
  epoll_add : ℤ → Call
  epoll_del : ℤ → Call
  epoll_wait : ℤ → ℤ → Call
  select : ℤ → ℤ → Call
  spawn : ℤ → Call
  sleep : Call
  setsid : ℤ → Call
  chdir : ℤ → Call
  umask : Call
  open_null : ℤ → Call
  dup2 : ℕ → ℤ → Call

pub record Os : Type 0 where
  pub script : List Reply
  pub trace : List Call

-- `fault` is undefined behaviour of the program, `starved` the end of the script or of the fuel.
pub data Outcome {ℓ} (A : Type ℓ) : Type ℓ where
  done : A → Os → Outcome A
  fault : Os → Outcome A
  starved : Os → Outcome A

abbrev pub M {ℓ} : Type ℓ → Type ℓ
M A = Os → Outcome A

abbrev pub pure {ℓ} : {A : Type ℓ} → A → M A
pure a os = done a os

abbrev pub undefined {ℓ} : {A : Type ℓ} → M A
undefined os = fault os

abbrev pub starve {ℓ} : {A : Type ℓ} → M A
starve os = starved os

abbrev pub bind_outcome {ℓ κ} : {A : Type ℓ} {B : Type κ} → Outcome A → (A → M B) → Outcome B
bind_outcome (done a os) f = f a os
bind_outcome (fault os) f = fault os
bind_outcome (starved os) f = starved os

infixl 5 ◌>>=◌ ◌>>◌
abbrev pub ◌>>=◌ {ℓ κ} : {A : Type ℓ} {B : Type κ} → M A → (A → M B) → M B
◌>>=◌ m f os = bind_outcome (m os) f

abbrev pub ◌>>◌ {ℓ κ} : {A : Type ℓ} {B : Type κ} → M A → M B → M B
m >> k = m >>= λ _. k

-- Memory accesses of the program: outside the block there is no defined behaviour.
abbrev pub checked {ℓ} : {A : Type ℓ} → Option A → M A
checked none = undefined
checked (some a) = pure a

-- The next reply of the script, answered to the call that it is entered as.
abbrev pub answer : List Reply → (Reply → Call) → List Call → Outcome Reply
answer [] call trace = starved (record { script = []; trace = trace })
answer (r ∷ script) call trace = done r (record { script = script; trace = call r ∷ trace })

abbrev pub ask : (Reply → Call) → M Reply
ask call os = answer os.script call os.trace

abbrev pub result : (ℤ → Call) → M ℤ
result call = ask (λ r. call r.ret) >>= λ r. pure r.ret

-- The bytes that a read of at most `n` brings.
abbrev pub incoming : ℕ → Reply → List ℕ
incoming n r = if is_negative r.ret then [] else take n r.bytes

-- The bytes that a write of `bytes` takes.
abbrev pub accepted_count : ℤ → ℕ
accepted_count (pos n) = n
accepted_count (negsuc n) = 0

abbrev pub outgoing : List ℕ → Reply → List ℕ
outgoing bytes r = take (accepted_count r.ret) bytes

-- What a transfer of `moved` returns.
abbrev pub transferred : ℤ → List ℕ → ℤ
transferred (pos n) moved = pos (length moved)
transferred (negsuc n) moved = negsuc n

-- read(2): the result and the bytes; write(2): the result.
abbrev pub read_call : ℤ → ℕ → M (ℤ × List ℕ × Bool)
read_call fd n = ask (λ r. read fd (incoming n r)) >>= λ r.
    pure (transferred r.ret (incoming n r), incoming n r, r.interrupted)

abbrev pub write_call : ℤ → List ℕ → M (ℤ × Bool)
write_call fd bytes = ask (λ r. write fd (outgoing bytes r)) >>= λ r.
    pure (transferred r.ret (outgoing bytes r), r.interrupted)

-- A call that fills something in.
abbrev pub filled : (ℤ → Call) → M (ℤ × List ℕ)
filled call = ask (λ r. call r.ret) >>= λ r. pure (r.ret, r.bytes)

-- The state of a descriptor in what select fills in, and a bit of it.
abbrev pub nth_or_zero : ℕ → List ℕ → ℕ
nth_or_zero n [] = 0
nth_or_zero zero (b ∷ states) = b
nth_or_zero (suc n) (b ∷ states) = nth_or_zero n states

abbrev pub state_at : ℤ → List ℕ → ℕ
state_at (pos fd) states = nth_or_zero fd states
state_at (negsuc fd) states = 0

abbrev pub has_bit : ℕ → ℕ → Bool
has_bit n b = b / 2 ^ n % 2 == 1

-- The bytes that were written to a descriptor, and those that were read from it, the oldest first.
abbrev pub written : ℤ → List Call → List ℕ
written fd [] = []
written fd (write g bytes ∷ trace) =
    if eq_ℤ g fd then written fd trace ++ bytes else written fd trace
written fd (_ ∷ trace) = written fd trace

abbrev pub obtained : ℤ → List Call → List ℕ
obtained fd [] = []
obtained fd (read g bytes ∷ trace) =
    if eq_ℤ g fd then obtained fd trace ++ bytes else obtained fd trace
obtained fd (_ ∷ trace) = obtained fd trace
