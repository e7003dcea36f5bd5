-- ===== src/Framing/StructTransfer.antt =====
-- The system calls around the structs and around a single text: `write_struct`, `read_struct`,
-- `write_structs`, `read_structs`, `write_char` and `read_char` of socket_basic/server.cpp and
-- client.cpp. `stale` is what an array or a block holds before it is written.
use test_server.Base.{ℕ, List, [], ◌++◌, if◌then◌else◌, length, drop}
use test_server.Base.Int.{ℤ, is_positive}
use test_server.Memory.{until_nul, c_string}
use test_server.Os.{M, pure, checked, ◌>>=◌, read_call, write_call}
use test_server.Framing.{pack_loop}
use test_server.Framing.Structs.{User, Address, user_bytes, load_user, fill_addresses, read_records}
use test_server.Framing.Transfer.{buffer_size, filled}

-- An array after a read into its front.
abbrev pub over : List ℕ → List ℕ → List ℕ
over stale bytes = bytes ++ drop (length bytes) stale

-- write_char(fd) for the text of the source, and read_char(fd): the result and what is printed.
unfoldable pub write_char : List ℕ → ℤ → M ℤ
write_char text fd = do (count, interrupted) ← write_call fd (until_nul text); pure count

unfoldable pub read_char : List ℕ → ℤ → M (ℤ × List ℕ)
read_char stale fd = do
  (count, bytes, interrupted) ← read_call fd 100
  text ← checked (c_string (over stale bytes))
  pure (count, text)

unfoldable pub write_struct : User → ℤ → M ℤ
write_struct u fd = do (count, interrupted) ← write_call fd (user_bytes u); pure count

-- read_struct(fd): the result, and the User that is printed, whatever the result is.
unfoldable pub read_struct : List ℕ → ℤ → M (ℤ × User)
read_struct stale fd = do
  (count, bytes, interrupted) ← read_call fd 100
  u ← checked (load_user (over stale bytes))
  pure (count, u)

unfoldable pub write_structs : List Address → ℤ → M ℤ
write_structs addresses fd = do
  records ← checked (fill_addresses addresses)
  packed ← checked (pack_loop 10000 records [])
  (count, interrupted) ← write_call fd packed
  pure count

-- read_structs(fd): the result, the addresses that are printed, and the array at the end.
unfoldable pub read_structs : List ℕ → ℤ → M (ℤ × List Address × List ℕ)
read_structs table fd = do
  (count, bytes, interrupted) ← read_call fd buffer_size
  let records = do
    (addresses, last) ← checked (read_records (length bytes) table (filled bytes) count)
    pure (count, addresses, last)
  if is_positive count then records else pure (count, [], table)
