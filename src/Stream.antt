-- ===== src/Stream.antt =====
-- The string protocol of sample_socket/test_server.cpp and sample_client/test_client.cpp: `parse`,
-- the loop over the packets of a buffer, and the strncpy behind it.
pub mod Packets
pub mod Strings
pub mod Transfer
pub mod Exchange
use test_server.Memory.{◌>>=◌, overwrite, until_nul}
use test_server.Rpc.{parse_into, get_message_length, packet_length, serialize}
use test_server.Base.{
  zero, drop, ◌++◌, none, leb, length, take, if◌then◌else◌, [], ◌-◌, some, suc, replicate, Option,
  ◌∷◌, ℕ, List,
}
use test_server.Base.Int.{is_zero, is_positive, ◌-ℤ◌, to_size, ◌+ℤ◌, negsuc, pos, ℤ}

-- What a run of `parse` printed, and count_used at its end; `unfinished` is out of fuel.
pub data Parsing : Type 0 where
  finished : List (List ℕ) → ℤ → Parsing
  unfinished : List (List ℕ) → Parsing

abbrev pub printed : List ℕ → Parsing → Parsing
printed msg (finished texts count) = finished (msg ∷ texts) count
printed msg (unfinished texts) = unfinished (msg ∷ texts)

-- buffer_used + msg_length, as an offset; a pointer in front of the block or behind its end is
-- undefined.
abbrev pub within : ℤ → ℕ → Option ℕ
within (pos n) size = if leb n size then some n else none
within (negsuc n) size = none

unfoldable pub move_pointer : ℕ → ℤ → List ℕ → Option ℕ
move_pointer offset msg_length block = within (pos offset +ℤ msg_length) (length block)

-- ssize_t parse(void *buffer_used, ssize_t count_used), buffer_used being `offset` bytes into the
-- block: -1 from GetMessageLength is handled like a length, and moves the pointer back.
unfoldable pub parse_loop : ℕ → List ℕ → ℕ → ℤ → Option Parsing
unfolding move_pointer
parse_loop zero block offset count_used = some (unfinished [])
parse_loop (suc fuel) block offset count_used = do
  msg_length ← get_message_length (drop offset block) (to_size count_used)
  let step = do
    (ret, msg) ← parse_into (drop offset block) (to_size msg_length) []
    next ← move_pointer offset msg_length block
    let count' = count_used -ℤ msg_length
    let more = do rest ← parse_loop fuel block next count'; some (printed msg rest)
    if is_positive count' then more else some (finished (msg ∷ []) count')
  if is_zero msg_length then some (finished [] count_used) else step

abbrev pub buffer_length : ℕ
buffer_length = 1024

-- strncpy(buffer, buffer, n): the text at the pointer stays, and what is behind its NUL is zeroed,
-- up to n bytes.
unfoldable pub strncpy_self : ℕ → List ℕ → Option (List ℕ)
strncpy_self n block =
    let text = until_nul (take n block) in overwrite block (text ++ replicate (n - length text) 0)
