-- ===== src/Framing/Structs.antt =====
-- socket_basic/types.h, and the transfers of structs in server.cpp and client.cpp: `write_struct`
-- and `read_struct`, and the loops of `write_structs` and `read_structs`. An int is its bit
-- pattern.
use test_server.Base.{
  ℕ, zero, suc, List, [], ◌∷◌, ◌++◌, Option, none, some, if◌then◌else◌, drop, replicate,
}
use test_server.Base.Int.{ℤ, is_positive}
use test_server.Memory.{◌>>=◌, overwrite, c_string, until_nul, put_u32, load_u32}
use test_server.Framing.{Block, fetch_block, fetch_length, advance, remaining}

-- common::User, packed: 9 bytes.
pub record User : Type 0 where
  pub attr1 : ℕ
  pub attr2 : ℕ
  pub attr3 : ℕ

-- common::Address, packed: 105 bytes. `attr2` is the text in the array of 100 characters.
pub record Address : Type 0 where
  pub attr1 : ℕ
  pub attr2 : List ℕ
  pub attr3 : ℕ

abbrev pub sizeof_address : ℕ
sizeof_address = 105

unfoldable pub load_byte : ℕ → List ℕ → Option ℕ
load_byte zero (b ∷ mem) = some b
load_byte (suc offset) (b ∷ mem) = load_byte offset mem
load_byte offset [] = none

-- The bytes of a User in memory, and the User that a pointer is taken for.
abbrev pub user_bytes : User → List ℕ
user_bytes u = put_u32 u.attr1 ++ (put_u32 u.attr2 ++ u.attr3 ∷ [])

unfoldable pub load_user : List ℕ → Option User
load_user mem = do
  attr1 ← load_u32 0 mem
  attr2 ← load_u32 4 mem
  attr3 ← load_byte 8 mem
  some (record { attr1 = attr1; attr2 = attr2; attr3 = attr3 })

-- An array of 100 zeroed characters into which a text is copied.
unfoldable pub fill_attr2 : List ℕ → Option (List ℕ)
fill_attr2 text = overwrite (replicate 100 0) (until_nul text ++ 0 ∷ [])

unfoldable pub address_bytes : Address → Option (List ℕ)
unfolding fill_attr2
address_bytes a = do attr2 ← fill_attr2 a.attr2; some (put_u32 a.attr1 ++ (attr2 ++ a.attr3 ∷ []))

-- What is printed of address[0].
unfoldable pub load_address : List ℕ → Option Address
unfolding load_byte
load_address mem = do
  attr1 ← load_u32 0 mem
  attr2 ← c_string (drop 4 mem)
  attr3 ← load_byte 104 mem
  some (record { attr1 = attr1; attr2 = attr2; attr3 = attr3 })

-- The array that `write_structs` sends.
unfoldable pub fill_addresses : List Address → Option (List (List ℕ))
unfolding address_bytes
fill_addresses [] = some []
fill_addresses (a ∷ addresses) = do
  bytes ← address_bytes a
  rest ← fill_addresses addresses
  some (bytes ∷ rest)

-- One round of the reading loop of `read_structs`. `table` is the array, from address[index]; index
-- stays 0, since no round increases it.
unfoldable pub read_record : List ℕ → Block → ℤ → Option (Address × List ℕ × Block × ℤ)
unfolding load_address
read_record table block remain = do
  data_length ← fetch_length block
  let body = advance 4 block
  bytes ← fetch_block data_length body
  table' ← overwrite table bytes
  address ← load_address table'
  some (address, table', advance data_length body, remaining remain data_length)

-- do ... while (index < num && remain_length > 0): what is printed, and the array at the end. A
-- round takes at least four bytes, so the number of bytes is enough fuel.
unfoldable pub read_records : ℕ → List ℕ → Block → ℤ → Option (List Address × List ℕ)
unfolding read_record
read_records zero table block remain = some ([], table)
read_records (suc fuel) table block remain = do
  (address, table', next, remain') ← read_record table block remain
  let more = do
    (addresses, last) ← read_records fuel table' next remain'
    some (address ∷ addresses, last)
  if is_positive remain' then more else some (address ∷ [], table')
