-- ===== src/Examples/Packets.antt =====
-- Packets of protocol/rpc.cpp.
use test_server.Rpc.Parsing.{parse_into_cases, parse-serialize}
use test_server.Rpc.Packet.{serialize-packet, packet}
use test_server.Base.Int.{negsuc, pos, minus_one}
use test_server.Base.{
  ◌⊎◌, ◌+◌, All, arith, ◌≤◌, length, refl, [], ◌↔◌, some, ◌∷◌, ◌++◌, ◌≡◌, ℕ, replicate, List,
}
use test_server.Rpc.{
  maximum_packet_length, magic_number, parse, sizeof_header, load_message, parse_into, serialize,
  get_message_length,
}
use test_server.Memory.{strlen, IsText, c_string, get_u32, load_u32, until_nul}
use test_server.Rpc.Length.{get_message_length_accepts}

-- "ABC", with a NUL and a letter behind.
abbrev abc : List ℕ
abc = b'A' ∷ b'B' ∷ b'C' ∷ 0 ∷ b'D' ∷ []

abbrev abc_packet : List ℕ
abc_packet = 0x22 ∷ 0x33 ∷ 0x44 ∷ 0x55 ∷ 12 ∷ 0 ∷ 0 ∷ 0 ∷ b'A' ∷ b'B' ∷ b'C' ∷ 0 ∷ []

get_message_length-abc : get_message_length abc_packet 12 ≡ some (pos 12)
unfolding get_message_length load_u32 get_u32
get_message_length-abc = refl

parse_abc : parse_into abc_packet 12 [] ≡ some (pos 0, b'A' ∷ b'B' ∷ b'C' ∷ [])
unfolding parse_into load_message load_u32 get_u32 c_string
parse_abc = refl

parse_too_long : parse_into abc_packet 11 (1 ∷ []) ≡ some (minus_one, 1 ∷ [])
unfolding parse_into load_message load_u32 get_u32 c_string
parse_too_long = refl

parse-serialize_example :
    (written : List ℕ) × (n : ℕ) × (serialize (replicate 12 0 ++ 9 ∷ []) abc ≡ some (written, n))
    × (get_message_length written n ≡ some (pos n))
    × (parse written n ≡ some (until_nul abc))
    × (parse_into written n [] ≡ some (pos 0, until_nul abc))
unfolding until_nul
parse-serialize_example =
    parse-serialize abc (replicate 12 0) (9 ∷ []) [] (omega arith) (omega arith)

serialize-packet_example :
    serialize (replicate 12 0 ++ 9 ∷ []) abc ≡ some (packet abc ++ 9 ∷ [], 9 + strlen abc)
unfolding until_nul
serialize-packet_example =
    serialize-packet abc (replicate 12 0) (9 ∷ []) (omega arith) (omega arith)

get_message_length_accepts_example : (get_message_length abc_packet 8 ≡ some (pos 12)) ↔ (
    (sizeof_header ≤ 8)
    × (load_u32 0 abc_packet ≡ some magic_number)
    × (load_u32 4 abc_packet ≡ some 12)
    × (12 ≤ maximum_packet_length))
get_message_length_accepts_example = get_message_length_accepts abc_packet 8 11

abbrev held : List ℕ
held = 1 ∷ []

parse_into_cases_example :
    ((minus_one ≡ pos 0) × (length held ≤ 11) × All IsText held)
    ⊎ (((minus_one ≡ minus_one) ⊎ (minus_one ≡ negsuc 1)) × (held ≡ held))
parse_into_cases_example = parse_into_cases abc_packet held 11 parse_too_long
