-- ===== src/Examples/Testing.antt =====
-- The tests of the socket programs, with the functions of the character tests.
use test_server.SocketTests.{write_char, read_char, one_test, process_test, select_test}
use test_server.SocketTests.Leaving.{one_test-Leaves, TestLeaves}
use test_server.SocketTests.Verdicts.{socket_tests-Fail, AtEnd}
use test_server.Examples.Callbacks.{says}
use test_server.Sockets.Ledger.{IsNeutral, Neutral, open_fds}
use test_server.Base.{
  List, [], ◌∷◌, ◌≢◌, ◌≡◌, some, true, false, refl, arith, replicate, Option-cases, inl, inr, codes,
  ◌++◌, drop, length,
}
use test_server.Base.Int.{pos}
use test_server.Memory.{c_string}
use test_server.Os.{Os, Reply, incoming}
use test_server.Os.Post.{Post}

write_char-IsNeutral : IsNeutral write_char
unfolding write_char open_fds
write_char-IsNeutral fd os = go os.script
  where
    go :
        (script : List Reply)
        → Post
            (Neutral (record { script = script; trace = os.trace }))
            (write_char fd (record { script = script; trace = os.trace }))
    go [] = refl
    go (r ∷ script) = (refl, omega arith)

read_char-IsNeutral : IsNeutral (read_char (replicate 100 0))
unfolding read_char open_fds
read_char-IsNeutral fd os = go os.script
  where
    go :
        (script : List Reply)
        → Post
            (Neutral (record { script = script; trace = os.trace }))
            (read_char (replicate 100 0) fd (record { script = script; trace = os.trace }))
    go [] = refl
    go (r ∷ script) =
        elim (Option-cases
          (c_string (incoming 100 r ++ drop (length (incoming 100 r)) (replicate 100 0)))) [
            | inl out ↦ rw out tt
            | inr (text, found) ↦ rw found (refl, omega arith)
          ]

-- A client comes, and sends a text.
abbrev visited : Os
visited = record {
  script =
      says (pos 3) []
      ∷ says (pos 0) []
      ∷ says (pos 0) []
      ∷ says (pos 0) []
      ∷ says (pos 4) []
      ∷ says (pos 12) []
      ∷ says (pos 5) (codes "hello")
      ∷ says (pos 0) []
      ∷ says (pos 0) []
      ∷ [];
  trace = [];
}

one_test-Leaves_example :
    Post (TestLeaves []) (one_test write_char (read_char (replicate 100 0)) visited)
unfolding open_fds
one_test-Leaves_example =
    one_test-Leaves write_char (read_char (replicate 100 0)) write_char-IsNeutral
      read_char-IsNeutral visited

socket_tests-Fail_example :
    AtEnd
      (λ verdict. verdict ≢ some true)
      (process_test write_char (read_char (replicate 100 0)) visited)
    × AtEnd
        (λ passed. passed ≡ false)
        (select_test write_char (read_char (replicate 100 0)) visited)
socket_tests-Fail_example = socket_tests-Fail write_char (read_char (replicate 100 0)) visited
