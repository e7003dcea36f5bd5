-- ===== src/Framing.antt =====
-- socket_basic/server.cpp and client.cpp: several records in one transfer, each behind an int that
-- holds its length. What is printed of a record is part of the result.
pub mod Laws
pub mod Protobuf
pub mod Rows
pub mod RowsRoundTrip
pub mod Transfer
pub mod Structs
pub mod StructsRoundTrip
pub mod StructTransfer
pub mod Exchange
pub mod Fuel
use test_server.Base.{
  ℕ, zero, suc, ◌+◌, ◌-◌, ◌*◌, ◌^◌, List, [], ◌∷◌, ◌++◌, Option, none, some, ltb, leb,
  if◌then◌else◌, drop, length, replicate,
}
use test_server.Base.Int.{ℤ, pos, negsuc, sub_ℕ, ◌-ℤ◌, is_positive}
use test_server.Memory.{◌>>=◌, put_u32}
use mathlib.Core.Option

-- A zeroed array of which a read has filled the front, from a pointer on.
pub record Block : Type 0 where
  pub bytes : List ℕ
  pub tail : ℕ

-- memcpy from the pointer.
unfoldable pub fetch_from : ℕ → List ℕ → ℕ → Option (List ℕ)
fetch_from zero bytes tail = some []
fetch_from (suc n) (b ∷ bytes) tail = Option.map (◌∷◌ b) (fetch_from n bytes tail)
fetch_from (suc n) [] zero = none
fetch_from (suc n) [] (suc tail) = Option.map (◌∷◌ 0) (fetch_from n [] tail)

abbrev pub fetch_block : ℕ → Block → Option (List ℕ)
fetch_block n block = fetch_from n block.bytes block.tail

-- tmp_ptr += n
abbrev pub advance : ℕ → Block → Block
advance n block = record {
  bytes = drop n block.bytes;
  tail = block.tail - (n - length block.bytes);
}

-- The int that four bytes hold; memcpy takes a negative one for a size of at least 2 ^ 63, which no
-- block has.
unfoldable pub int_size : List ℕ → Option ℕ
int_size (a ∷ b ∷ c ∷ d ∷ []) =
    let n = a + 256 * b + 65536 * c + 16777216 * d in if ltb n (2 ^ 31) then some n else none
int_size _ = none

-- memcpy(&data_length, tmp_ptr, sizeof(int))
unfoldable pub fetch_length : Block → Option ℕ
unfolding int_size
fetch_length block = do four ← fetch_block 4 block; int_size four

-- remain_length after a record.
abbrev pub remaining : ℤ → ℕ → ℤ
remaining remain data_length = remain -ℤ pos 4 -ℤ pos data_length

-- A record as it is sent: sizeof(int) bytes and the data.
abbrev pub frame : List ℕ → List ℕ
frame bytes = put_u32 (length bytes) ++ bytes

-- The packing loops: `packed` is what stands in front of tmp_ptr in a block of `capacity` bytes, so
-- its length is total_length.
unfoldable pub pack_loop : ℕ → List (List ℕ) → List ℕ → Option (List ℕ)
pack_loop capacity [] packed = some packed
pack_loop capacity (bytes ∷ rest) packed =
    let next = packed ++ frame bytes in
    if leb (length next) capacity then pack_loop capacity rest next else none
