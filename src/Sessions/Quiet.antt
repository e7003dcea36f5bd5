-- ===== src/Sessions/Quiet.antt =====
-- The functions that the tests of socket_basic send and read with open and close nothing.
use test_server.Framing.{pack_loop}
use test_server.Framing.Rows.{read_rows, fill_rows}
use test_server.Memory.{c_string, until_nul}
use test_server.Sessions.Programs.{printing}
use test_server.Os.Post.{bind-Post, Post, if-Post, checked-Post}
use test_server.Base.Int.{is_positive, ℤ}
use test_server.Sockets.Ledger.{open_fds}
use test_server.Sessions.Ledger.{IsQuiet}
use test_server.Framing.Structs.{read_records, fill_addresses, load_user, user_bytes, Address, User}
use test_server.Framing.Protobuf.{read_protobuf, write_protobuf, write_serialized}
use test_server.Framing.Transfer.{filled, buffer_size, read_chars, write_chars}
use test_server.Generated.{TextMessage}
use test_server.Base.{◌∷◌, length, map, refl, [], none, some, Bool, Option, ◌≡◌, ℕ, List}
use test_server.Framing.StructTransfer.{
  over, read_char, write_structs, read_structs, read_struct, write_struct, write_char,
}
use test_server.Os.{
  read, write, incoming, outgoing, transferred, Reply, ◌>>=◌, read_call, write_call, Os, M,
}

module _ {B : Type 0} (Q : B → Os → Type 0) where
  -- A read, and what comes after it.
  read-Post :
      (fd : ℤ) (n : ℕ) (os : Os) (f : ℤ × List ℕ × Bool → M B)
      → ((got : ℤ × List ℕ × Bool) (after : Os)
          → open_fds after.trace ≡ open_fds os.trace
          → Post Q (f got after))
      → Post Q ((read_call fd n >>= f) os)
  read-Post fd n os f k = go os.script
    where
      go :
          (script : List Reply)
          → Post Q ((read_call fd n >>= f) (record { script = script; trace = os.trace }))
      go [] = refl
      go (r ∷ script) =
          k (transferred r.ret (incoming n r), incoming n r, r.interrupted)
            (record { script = script; trace = read fd (incoming n r) ∷ os.trace })
            (unfold open_fds in refl)

  -- A write, and what comes after it.
  write-Post :
      (fd : ℤ) (bytes : List ℕ) (os : Os) (f : ℤ × Bool → M B)
      → ((got : ℤ × Bool) (after : Os)
          → open_fds after.trace ≡ open_fds os.trace
          → Post Q (f got after))
      → Post Q ((write_call fd bytes >>= f) os)
  write-Post fd bytes os f k = go os.script
    where
      go :
          (script : List Reply)
          → Post Q ((write_call fd bytes >>= f) (record { script = script; trace = os.trace }))
      go [] = refl
      go (r ∷ script) =
          k (transferred r.ret (outgoing bytes r), r.interrupted)
            (record { script = script; trace = write fd (outgoing bytes r) ∷ os.trace })
            (unfold open_fds in refl)

abbrev Same : {A : Type 0} → Os → A → Os → Type 0
Same os a after = open_fds after.trace ≡ open_fds os.trace

pub write_char-IsQuiet : (text : List ℕ) → IsQuiet (write_char text)
unfolding write_char
write_char-IsQuiet text fd os = write-Post (Same os) fd (until_nul text) os _ λ got after e. e

pub read_char-IsQuiet : (stale : List ℕ) → IsQuiet (read_char stale)
unfolding read_char
read_char-IsQuiet stale fd os =
    read-Post (Same os) fd 100 os _ λ (count, bytes, interrupted) after e.
      checked-Post (c_string (over stale bytes)) _ after (Same os) λ text found. e

pub write_struct-IsQuiet : (u : User) → IsQuiet (write_struct u)
unfolding write_struct
write_struct-IsQuiet u fd os = write-Post (Same os) fd (user_bytes u) os _ λ got after e. e

pub read_struct-IsQuiet : (stale : List ℕ) → IsQuiet (read_struct stale)
unfolding read_struct
read_struct-IsQuiet stale fd os =
    read-Post (Same os) fd 100 os _ λ (count, bytes, interrupted) after e.
      checked-Post (load_user (over stale bytes)) _ after (Same os) λ u found. e

pub write_chars-IsQuiet : (texts : List (List ℕ)) → IsQuiet (write_chars texts)
unfolding write_chars
write_chars-IsQuiet texts fd os = checked-Post (fill_rows texts) _ os (Same os) λ rows filled_all.
    checked-Post (pack_loop 1000 (map until_nul rows) []) _ os (Same os)
      λ packed e. write-Post (Same os) fd packed os _ λ got after e'. e'

pub read_chars-IsQuiet : IsQuiet read_chars
unfolding read_chars
read_chars-IsQuiet fd os =
    read-Post (Same os) fd buffer_size os _ λ (count, bytes, interrupted) after e.
      if-Post (is_positive count) _ _ after (Same os)
        (λ _. checked-Post (read_rows 10 (filled bytes) count) _ after (Same os) λ texts found. e)
        λ _. e

pub write_structs-IsQuiet : (addresses : List Address) → IsQuiet (write_structs addresses)
unfolding write_structs
write_structs-IsQuiet addresses fd os =
    checked-Post (fill_addresses addresses) _ os (Same os) λ records filled_all.
      checked-Post (pack_loop 10000 records []) _ os (Same os)
        λ packed e. write-Post (Same os) fd packed os _ λ got after e'. e'

read_structs-IsQuiet : (table : List ℕ) → IsQuiet (read_structs table)
unfolding read_structs
read_structs-IsQuiet table fd os =
    read-Post (Same os) fd buffer_size os _ λ (count, bytes, interrupted) after e.
      if-Post (is_positive count) _ _ after (Same os)
        (λ _.
          checked-Post (read_records (length bytes) table (filled bytes) count) _ after (Same os)
            λ (addresses, last) found. e)
        λ _. e

pub printing-IsQuiet : (table : List ℕ) → IsQuiet (printing (read_structs table))
printing-IsQuiet table fd os =
    bind-Post (read_structs table fd os) _ (Same os) (Same os) (read_structs-IsQuiet table fd os)
      λ (count, addresses, last) after e. e

module _ (message : TextMessage) where
  write_serialized-IsQuiet : (made : Option (List ℕ)) → IsQuiet (write_serialized message made)
  unfolding write_serialized
  write_serialized-IsQuiet none fd os = refl
  write_serialized-IsQuiet (some bytes) fd os = write-Post (Same os) fd bytes os _ λ got after e. e

  pub write_protobuf-IsQuiet : (text : List ℕ) → IsQuiet (write_protobuf message text)
  unfolding write_protobuf
  write_protobuf-IsQuiet text =
      write_serialized-IsQuiet (message.serialize_to_array (message.set_text text message.fresh))

  pub read_protobuf-IsQuiet : IsQuiet (read_protobuf message)
  unfolding read_protobuf
  read_protobuf-IsQuiet fd os = read-Post (Same os) fd buffer_size os _ λ got after e. e
