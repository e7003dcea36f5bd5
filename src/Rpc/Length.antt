-- ===== src/Rpc/Length.antt =====
-- What `get_message_length` answers.
use test_server.Base.{
  ℕ, suc, ◌+◌, ◌≤◌, List, ◌++◌, some, ◌≡◌, ◌↔◌, refl, arith, length, ltb, inl, inr, Option-cases,
  ◌∷◌, [], Bool-cases, ◌==◌, not, ◌⊎◌,
}
use test_server.Base.Int.{ℤ, pos, minus_one}
use test_server.Memory.{◌>>=◌, load_u32, put_u32, until_nul, strlen}
use test_server.Memory.Laws.{load_u32-append, load_u32_total}
use test_server.Rpc.{
  magic_number, maximum_packet_length, sizeof_header, get_message_length, check_length,
}
use test_server.Rpc.Packet.{packet}

-- A packet's magic number and length are where they are looked for.
pub packet_magic : (msg rest : List ℕ) → load_u32 0 (packet msg ++ rest) ≡ some magic_number
packet_magic msg rest =
    load_u32-append [] magic_number (put_u32 (9 + strlen msg) ++ (until_nul msg ++ 0 ∷ []) ++ rest)
      (omega arith)

pub packet_size :
    (msg rest : List ℕ)
    → strlen msg + 9 ≤ maximum_packet_length
    → load_u32 4 (packet msg ++ rest) ≡ some (9 + strlen msg)
packet_size msg rest fits =
    load_u32-append (put_u32 magic_number) (9 + strlen msg) ((until_nul msg ++ 0 ∷ []) ++ rest)
      (omega arith)

-- On a packet it answers the packet's length, once the header is there.
pub get_message_length-packet :
    (msg rest : List ℕ) (n : ℕ)
    → strlen msg + 9 ≤ maximum_packet_length
    → sizeof_header ≤ n
    → get_message_length (packet msg ++ rest) n ≡ some (pos (9 + strlen msg))
unfolding get_message_length
get_message_length-packet msg rest n fits header =
    ground (arith, packet_magic msg rest, packet_size msg rest fits)

-- It is positive exactly on a header that is there whole, with the magic number and a length
-- between 1 and the maximum, and that length is the answer.
pub get_message_length_accepts :
    (buffer : List ℕ) (n k : ℕ)
    → (get_message_length buffer n ≡ some (pos (suc k))) ↔ (
        (sizeof_header ≤ n)
        × (load_u32 0 buffer ≡ some magic_number)
        × (load_u32 4 buffer ≡ some (suc k))
        × (suc k ≤ maximum_packet_length))
unfolding get_message_length
get_message_length_accepts buffer n k = elim (Option-cases (load_u32 0 buffer)) [
  | inl out ↦ ground arith
  | inr (magic, found) ↦ elim (Option-cases (load_u32 4 buffer)) [
    | inl out ↦ ground arith
    | inr (size, second) ↦ ground arith
  ]
]

-- What a caller has to reckon with.
abbrev pub IsAnswer : ℤ → Type 0
IsAnswer r = (r ≡ minus_one) ⊎ ((k : ℕ) × (r ≡ pos k) × (k ≤ maximum_packet_length))

check_length_total : (size : ℕ) → (r : ℤ) × (check_length (some size) ≡ some r) × IsAnswer r
unfolding check_length
check_length_total size = elim (Bool-cases (ltb maximum_packet_length size)) [
  | inl long ↦ (minus_one, rw long, inl refl)
  | inr fits ↦ (pos size, rw fits, inr (size, refl, ground arith))
]

-- With the eight bytes of the header in the block it always has an answer, -1 or a number up to the
-- maximum.
pub get_message_length_total :
    (buffer : List ℕ) (n : ℕ)
    → sizeof_header ≤ length buffer
    → (r : ℤ) × (get_message_length buffer n ≡ some r) × IsAnswer r
unfolding get_message_length
get_message_length_total buffer n h =
    let (magic, first) = load_u32_total 0 buffer (omega arith) in
    let (size, second) = load_u32_total 4 buffer (omega arith) in
    let (r, checked, answer) = check_length_total size in
    elim (Bool-cases (ltb n sizeof_header)) [
      | inl early ↦ (pos 0, rw early, inr (0, refl, omega arith))
      | inr there ↦ elim (Bool-cases (not (magic == magic_number))) [
        | inl wrong ↦ (minus_one, rw (there, first, ◌>>=◌, wrong), inl refl)
        | inr right ↦ (r, rw (there, first, ◌>>=◌, right, second) checked, answer)
      ]
    ]
