-- ===== src/PacketTests.antt =====
-- The tests of sample_protocol/test_rpc.cpp. A block is the bytes that a Message on the stack, or
-- what malloc gave, holds before it is written to.
pub mod Blocks
use test_server.Base.{drop, ℕ, ◌+◌, List, [], ◌∷◌, ◌++◌, Option, none, some, codes}
use test_server.Base.Int.{ℤ}
use test_server.Memory.{◌>>=◌, store, put_u32, c_string, until_nul}
use test_server.Rpc.{
  Message, load_message, magic_number, sizeof_header, sizeof_message, get_message_length,
  packet_length, parse,
}

-- message->magic = ...; message->length = ...; strcpy(message->msg, ...), in all of the tests.
unfoldable pub fill_message : List ℕ → ℕ → ℕ → List ℕ → Option (List ℕ)
fill_message block magic length text = do
  with_magic ← store 0 block (put_u32 magic)
  with_length ← store 4 with_magic (put_u32 length)
  store sizeof_header with_length (until_nul text ++ 0 ∷ [])

-- sizeof(std::string) where it is made of two words and a buffer of 16 bytes, and the blocks of
-- tests E and F.
abbrev pub sizeof_string : ℕ
sizeof_string = 32

abbrev pub string_block_size : ℕ
string_block_size = sizeof_message + sizeof_string

-- TEST(RPC, A): the length of a header.
unfoldable pub test_a : Option ℤ
test_a = get_message_length (put_u32 0x55443322 ++ put_u32 1234) sizeof_header

-- TEST(RPC, B), and TEST(RPC, C).
unfoldable pub test_b : List ℕ → Option (ℤ × List ℕ)
unfolding fill_message
test_b block = do
  message ← fill_message block 0x55443322 12345 (codes "ABC")
  length ← get_message_length message sizeof_message
  msg ← load_message message
  some (length, msg.msg)

unfoldable pub test_c : List ℕ → Option (List ℕ)
unfolding fill_message
test_c block = do
  message ← fill_message block 0x55443322 12345 (codes "ABC")
  parse message sizeof_message

-- TEST(RPC, D): two messages, and the texts that are printed of them, before and after the second
-- strcpy.
unfoldable pub test_d : List ℕ → List ℕ → Option (List (List ℕ))
unfolding fill_message
test_d block block1 = do
  message ← fill_message block 0x55443322 12345 (codes "ABC")
  msg ← c_string (drop sizeof_header message)
  msg1 ← c_string (drop sizeof_header block1)
  message1 ← store 0 block1 (put_u32 0x55667788)
  with_length ← store 4 message (put_u32 12345)
  with_msg ← store sizeof_header with_length (codes "DNSJEEE" ++ 0 ∷ [])
  after ← c_string (drop sizeof_header with_msg)
  after1 ← c_string (drop sizeof_header message1)
  some (msg ∷ msg1 ∷ after ∷ after1 ∷ [])

-- The two blocks of tests E and F, filled, and what is printed of them: the first one, and then
-- both.
unfoldable pub test_e : List ℕ → List ℕ → Option (List Message)
unfolding fill_message
test_e block block1 = do
  message ← fill_message block 0x55443322 12345 (codes "ABCDNE")
  shown ← load_message message
  message1 ← fill_message block1 0x55667788 54321 (codes "QWERJJSKDFIOIW")
  shown1 ← load_message message1
  some (shown ∷ shown ∷ shown1 ∷ [])

-- TEST(RPC, F): the same, and then Parse of both.
unfoldable pub test_f : List ℕ → List ℕ → Option (List Message × List ℕ × List ℕ)
unfolding fill_message
test_f block block1 = do
  message ← fill_message block 0x55443322 12345 (codes "ABCDNE")
  shown ← load_message message
  message1 ← fill_message block1 0x55667788 54321 (codes "QWERJJSKDFIOIW")
  shown1 ← load_message message1
  msg ← parse message string_block_size
  msg1 ← parse message1 string_block_size
  some (shown ∷ shown ∷ shown1 ∷ [], msg, msg1)

-- TEST(RPC, G): the length of a packet.
unfoldable pub test_g : ℕ
test_g = packet_length (codes "ABCDE")
