-- ===== src/Examples/Servers.antt =====
-- The servers of sample_socket/test_server.cpp with `write_char` and `read_char`.
use test_server.Examples.Callbacks.{hello, says}
use test_server.Base.Int.{pos}
use test_server.Os.Post.{Post}
use test_server.Base.{◌∷◌, []}
use test_server.Os.{socket, Os}

-- The listener is 3, the connection 4.
abbrev one_client : Os
one_client = record {
  script =
      says (pos 4) []
      ∷ says (pos 3) []
      ∷ says (pos 5) hello
      ∷ says (pos 0) []
      ∷ says (pos 0) []
      ∷ [];
  trace = socket (pos 3) ∷ [];
}
