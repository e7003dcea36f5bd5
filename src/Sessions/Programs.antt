-- ===== src/Sessions/Programs.antt =====
-- What the tests of socket_basic/server.cpp and client.cpp send, and the tests themselves. `stale`
-- is what the array of read_struct holds before, `table` the block of read_structs.
use test_server.Os.{pure, ◌>>=◌, M}
use test_server.Framing.Protobuf.{read_protobuf, write_protobuf}
use test_server.Base.Int.{ℤ}
use test_server.Generated.{TextMessage}
use test_server.Framing.Transfer.{read_chars, write_chars}
use test_server.Base.{zero, replicate, suc, map, Bool, Option, ◌∷◌, [], codes, List, ℕ}
use test_server.Framing.Structs.{Address, User}
use test_server.Framing.StructTransfer.{
  read_char, read_structs, write_structs, read_struct, write_struct, write_char,
}
use test_server.Sessions.{
  Verdict, M, ℤ, thread_func, answer_func, fork_server, thread_server, server_session, ℕ,
  client_session, Side,
}

-- i from `first` on, for `n` of them.
abbrev count_from : ℕ → ℕ → List ℕ
count_from first zero = []
count_from first (suc n) = first ∷ count_from (suc first) n

-- The constants of server.cpp.
abbrev pub server_text : List ℕ
server_text = codes "How are you?"

abbrev pub server_user : User
server_user = record { attr1 = 100; attr2 = 200; attr3 = 1 }

abbrev pub server_rows : List (List ℕ)
server_rows =
    codes "This is A."
    ∷ codes "This is BB."
    ∷ codes "This is CCC."
    ∷ codes "This is DDDD."
    ∷ codes "This is EEEEE."
    ∷ []

abbrev server_address : ℕ → Address
server_address n = record { attr1 = n; attr2 = codes "This is sdjskdj"; attr3 = 1 }

abbrev pub server_addresses : List Address
server_addresses = map server_address (count_from 500 10)

-- The constants of client.cpp, with the functions that send and read them.
unfoldable pub client_write_char : ℤ → M ℤ
unfolding write_char
client_write_char = write_char (codes "Hello World, Lily.")

unfoldable pub client_read_char : ℤ → M (ℤ × List ℕ)
unfolding read_char
client_read_char = read_char (replicate 100 0)

unfoldable pub client_write_struct : ℤ → M ℤ
unfolding write_struct
client_write_struct = write_struct (record { attr1 = 101; attr2 = 201; attr3 = 0 })

unfoldable pub client_read_struct : List ℕ → ℤ → M (ℤ × User)
unfolding read_struct
client_read_struct = read_struct

abbrev pub client_rows : List (List ℕ)
client_rows =
    codes "This is 1."
    ∷ codes "This is 22."
    ∷ codes "This is 333."
    ∷ codes "This is 4444."
    ∷ codes "This is 55555."
    ∷ []

unfoldable pub client_write_chars : ℤ → M ℤ
unfolding write_chars
client_write_chars = write_chars client_rows

unfoldable pub constant_write_chars : ℤ → M ℤ
unfolding write_chars
constant_write_chars = write_chars client_rows

unfoldable pub client_read_chars : ℤ → M (ℤ × List (List ℕ))
unfolding read_chars
client_read_chars = read_chars

abbrev client_address : ℕ → Address
client_address n = record { attr1 = n; attr2 = codes "This is hellll"; attr3 = 0 }

abbrev pub client_addresses : List Address
client_addresses = map client_address (count_from 100 10)

unfoldable pub client_write_structs : ℤ → M ℤ
unfolding write_structs
client_write_structs = write_structs client_addresses

unfoldable pub client_read_structs : List ℕ → ℤ → M (ℤ × List Address × List ℕ)
unfolding read_structs
client_read_structs = read_structs

-- Of what read_structs returns, the result and what it prints.
abbrev pub printing : (ℤ → M (ℤ × List Address × List ℕ)) → ℤ → M (ℤ × List Address)
printing read_message fd = do (count, addresses, last) ← read_message fd; pure (count, addresses)

-- The tests of suite A: of the server, and of the client.
unfoldable pub server_char : M (Verdict (List ℕ))
unfolding server_session thread_func
server_char = server_session (thread_func (write_char server_text) (read_char (replicate 100 0)))

unfoldable pub server_struct : List ℕ → M (Verdict User)
unfolding server_session thread_func
server_struct stale = server_session (thread_func (write_struct server_user) (read_struct stale))

unfoldable pub server_chars : M (Verdict (List (List ℕ)))
unfolding server_session thread_func
server_chars = server_session (thread_func (write_chars server_rows) read_chars)

unfoldable pub server_structs : List ℕ → M (Verdict (List Address))
unfolding server_session thread_func
server_structs table =
    server_session (thread_func (write_structs server_addresses) (printing (read_structs table)))

unfoldable pub client_char : M (Verdict (List ℕ))
unfolding client_session
client_char = client_session client_write_char client_read_char

unfoldable pub client_struct : List ℕ → M (Verdict User)
unfolding client_session
client_struct stale = client_session client_write_struct (client_read_struct stale)

unfoldable pub client_chars : M (Verdict (List (List ℕ)))
unfolding client_session
client_chars = client_session client_write_chars client_read_chars

unfoldable pub client_structs : List ℕ → M (Verdict (List Address))
unfolding client_session
client_structs table = client_session client_write_structs (printing (client_read_structs table))

-- The client's HelloRequest and the server's HelloReply are the generated messages.
module _ (request reply : TextMessage) where
  unfoldable pub client_write_protobuf : ℤ → M ℤ
  unfolding write_protobuf
  client_write_protobuf = write_protobuf request (codes "Knightwu")

  unfoldable pub client_read_protobuf : ℤ → M (ℤ × Option (List ℕ))
  unfolding read_protobuf
  client_read_protobuf = read_protobuf reply

  unfoldable pub server_proto : M (Verdict (Option (List ℕ)))
  unfolding server_session answer_func
  server_proto =
      server_session (answer_func (write_protobuf reply (codes "10C.xxx")) (read_protobuf request))

  unfoldable pub client_proto : M (Verdict (Option (List ℕ)))
  unfolding client_session
  client_proto = client_session client_write_protobuf client_read_protobuf

-- TEST(B, CHAR) and TEST(C, CHAR).
unfoldable pub fork_char : M (Side × Bool)
unfolding fork_server thread_func
fork_char = fork_server (thread_func (write_char server_text) (read_char (replicate 100 0)))

unfoldable pub thread_char : M Bool
unfolding thread_server thread_func
thread_char = thread_server (thread_func (write_char server_text) (read_char (replicate 100 0)))
