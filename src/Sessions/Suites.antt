-- ===== src/Sessions/Suites.antt =====
-- main of socket_basic/server.cpp and of client.cpp: all tests of the file, in order. GoogleTest is
-- a parameter.
use test_server.Sessions.Programs.{
  thread_char, fork_char, client_structs, server_structs, server_chars, client_chars, client_proto,
  server_proto, server_struct, client_struct, server_char, client_char,
}
use test_server.Base.Int.{pos, ℤ}
use test_server.Generated.{TextMessage}
use test_server.Base.{[], ◌&&◌, ◌∷◌, ◌≡◌, true, if◌then◌else◌, ℕ, Bool, List}
use test_server.Os.{Os, ◌>>=◌, pure, M}
use test_server.Sessions.{ℤ, M, Bool, Verdict, Side}

-- What GoogleTest is documented to do: each test runs, after one that failed too, suite after
-- suite, and the result of RUN_ALL_TESTS is 0 if all have passed, and 1 otherwise.
abbrev pub run_in_order : List (M Bool) → M Bool
run_in_order [] = pure true
run_in_order (test ∷ tests) = do ok ← test; rest ← run_in_order tests; pure (ok && rest)

abbrev pub exit_code : Bool → ℤ
exit_code passed = if passed then pos 0 else pos 1

abbrev pub RunsInOrder : (List (M Bool) → M ℤ) → Type 0
RunsInOrder run_all_tests =
    (tests : List (M Bool)) (os : Os)
    → run_all_tests tests os ≡ (run_in_order tests >>= λ passed. pure (exit_code passed)) os

-- A test as GoogleTest sees it.
abbrev pub passing : {P : Type 0} → M (Verdict P) → M Bool
passing test = do v ← test; pure v.passed

abbrev pub in_process : M (Side × Bool) → M Bool
in_process test = do (side, ok) ← test; pure ok

-- TEST(A, PROTOS), which is empty, of the server and of the client.
abbrev pub server_protos : M Bool
server_protos = pure true

abbrev pub client_protos : M Bool
client_protos = pure true

module _ (request reply : TextMessage) (stale table : List ℕ) where
  unfoldable pub server_tests : List (M Bool)
  unfolding server_char server_struct server_proto server_chars server_structs fork_char thread_char
  server_tests =
      passing server_char
      ∷ passing (server_struct stale)
      ∷ passing (server_proto request reply)
      ∷ passing server_chars
      ∷ passing (server_structs table)
      ∷ server_protos
      ∷ in_process fork_char
      ∷ thread_char
      ∷ []

  unfoldable pub client_tests : List (M Bool)
  unfolding client_char client_struct client_proto client_chars client_structs
  client_tests =
      passing client_char
      ∷ passing (client_struct stale)
      ∷ passing (client_proto request reply)
      ∷ passing client_chars
      ∷ passing (client_structs table)
      ∷ client_protos
      ∷ []

  module _ (run_all_tests : List (M Bool) → M ℤ) where
    -- main(argc, argv) of the server, and of the client. With SIGPIPE ignored a write that finds no
    -- reader fails, as any write may.
    unfoldable pub server_program : M ℤ
    unfolding server_tests
    server_program = run_all_tests server_tests

    unfoldable pub client_program : M ℤ
    unfolding client_tests
    client_program = run_all_tests client_tests
