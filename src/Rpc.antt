-- ===== src/Rpc.antt =====
-- protocol/rpc.h and protocol/rpc.cpp: one message in a packet with a magic number and a length.
-- A buffer is the bytes from the pointer on; what a function prints is left out, but not what it
-- reads to print it.
pub mod Packet
pub mod Length
pub mod Parsing
pub mod Bytes
use test_server.Base.{
  ℕ, ◌+◌, ◌%◌, ◌^◌, List, [], ◌∷◌, ◌++◌, Option, some, ◌==◌, ltb, if◌then◌else◌, drop,
  length as length_of, not,
}
use test_server.Base.Int.{ℤ, pos, negsuc, minus_one}
use test_server.Memory.{◌>>=◌, store, put_u32, load_u32, c_string, until_nul, strlen}

-- Rpc::kMagic and Rpc::kMaximumPacketLength.
abbrev pub magic_number : ℕ
magic_number = 0x55443322

abbrev pub maximum_packet_length : ℕ
maximum_packet_length = 1024000

-- Two packed uint32_t.
pub record Header : Type 0 where
  pub magic : ℕ
  pub length : ℕ

-- The packed struct: the header and one character, where the text of the message begins.
pub record Message : Type 0 where
  pub magic : ℕ
  pub length : ℕ
  pub msg : List ℕ

abbrev pub sizeof_header : ℕ
sizeof_header = 8

abbrev pub sizeof_message : ℕ
sizeof_message = 9

-- `msg` is read as far as its NUL.
unfoldable pub load_message : List ℕ → Option Message
load_message buffer = do
  magic ← load_u32 0 buffer
  length ← load_u32 4 buffer
  msg ← c_string (drop sizeof_header buffer)
  some (record { magic = magic; length = length; msg = msg })

-- The second check, on a header whose magic number is right.
unfoldable pub check_length : Option ℕ → Option ℤ
check_length length? = do
  length ← length?
  some (if ltb maximum_packet_length length then minus_one else pos length)

-- GetMessageLength(const void *, size_t): 0 where the header has not arrived, -1 where it is
-- refused.
unfoldable pub get_message_length : List ℕ → ℕ → Option ℤ
unfolding check_length
get_message_length buffer length = if ltb length sizeof_header then some (pos 0) else do
  magic ← load_u32 0 buffer
  if not (magic == magic_number) then some minus_one else check_length (load_u32 4 buffer)

-- GetMessageLength(const std::string &): the size_t that a packet needs.
unfoldable pub packet_length : List ℕ → ℕ
packet_length msg = (sizeof_message + strlen msg) % 2 ^ 64

-- GetHeader()
unfoldable pub get_header : ℕ
get_header = sizeof_header

-- std::string Parse(const void *, size_t): `length` is not looked at.
unfoldable pub parse : List ℕ → ℕ → Option (List ℕ)
parse buffer length = do message ← load_message buffer; some message.msg

-- int Parse(const void *, size_t, std::string &): the result, and what `msg` holds afterwards.
unfoldable pub parse_into : List ℕ → ℕ → List ℕ → Option (ℤ × List ℕ)
parse_into buffer length msg = do
  message ← load_message buffer
  some (
      if ltb length message.length
      then (minus_one, msg)
      else if ltb length (length_of message.msg)
      then (negsuc 1, msg)
      else (pos 0, message.msg))

-- Serialize(void *, const std::string &): the buffer afterwards, and the length of the packet.
unfoldable pub serialize : List ℕ → List ℕ → Option (List ℕ × ℕ)
serialize buffer msg =
    if ltb maximum_packet_length ((strlen msg + sizeof_message) % 2 ^ 64)
    then some (buffer, 0)
    else let size = (sizeof_message + strlen msg % 2 ^ 32) % 2 ^ 32 in
      do
        with_magic ← store 0 buffer (put_u32 magic_number)
        with_size ← store 4 with_magic (put_u32 size)
        with_msg ← store sizeof_header with_size (until_nul msg ++ 0 ∷ [])
        some (with_msg, size)
