-- ===== src/Examples/Sessions.antt =====
-- The tests of socket_basic/server.cpp and client.cpp.
use test_server.Framing.Laws.{frames}
use test_server.Sessions.Exchange.{
  chars_exchange, client_trace, client_os, server_trace, verdict_of, server_os,
}
use test_server.Sessions.Programs.{
  client_rows, server_rows, client_read_chars, client_write_chars, client_chars, server_chars,
}
use test_server.Memory.{until_nul, c_string}
use test_server.Sockets.{accept_socket, sample_listen, listen_socket}
use test_server.Sessions.Fork.{fork_loop-Leaves, ForkLeaves}
use test_server.Base.{
  arith, codes, inr, some, inl, true, refl, Option-cases, ◌∷◌, replicate, [], ◌≡◌, ℕ, List,
}
use test_server.Examples.Callbacks.{hello, sends-IsNeutral, sends, says}
use test_server.Framing.StructTransfer.{over, write_char, read_char}
use test_server.Base.Int.{pos, ℤ}
use test_server.Sockets.Ledger.{open_fds}
use test_server.Sessions.Ledger.{IsServing, thread_func-IsServing, IsQuiet}
use test_server.Os.{
  setsockopt, bind, listen, accept, write, read, close, incoming, done, socket, Reply, M, Os,
}
use test_server.Os.Post.{Post-map, Post}
use test_server.Sessions.{fork_loop, Verdict, thread_func, server_session}

abbrev pub reads : ℤ → M (ℤ × List ℕ)
reads = read_char (replicate 100 0)

sends-IsQuiet : IsQuiet sends
sends-IsQuiet fd os = Post-map (sends fd os) (λ r after (same, spent). same) (sends-IsNeutral fd os)

reads-IsQuiet : IsQuiet reads
unfolding read_char open_fds
reads-IsQuiet fd os = go os.script
  where
    go :
        (script : List Reply)
        → Post
            (λ _ after. open_fds after.trace ≡ open_fds os.trace)
            (reads fd (record { script = script; trace = os.trace }))
    go [] = refl
    go (r ∷ script) = elim (Option-cases (c_string (over (replicate 100 0) (incoming 100 r)))) [
      | inl out ↦ rw out tt
      | inr (text, found) ↦ rw found refl
    ]

abbrev pub serves : ℤ → M (Verdict (List ℕ))
serves = thread_func sends reads

pub serves-IsServing : IsServing serves
serves-IsServing = thread_func-IsServing sends reads sends-IsQuiet reads-IsQuiet

-- The listener is 3, the connection 4.
abbrev one_test : Os
one_test = record {
  script =
      says (pos 3) []
      ∷ says (pos 0) []
      ∷ says (pos 0) []
      ∷ says (pos 0) []
      ∷ says (pos 4) []
      ∷ says (pos 3) []
      ∷ says (pos 3) hello
      ∷ says (pos 0) []
      ∷ says (pos 0) []
      ∷ [];
  trace = [];
}

-- The test runs to its end.
server_passes :
    server_session serves one_test
    ≡ done
        (record { passed = true; printed = some hello })
        (record {
          script = [];
          trace =
              close (pos 3)
              ∷ close (pos 4)
              ∷ read (pos 4) hello
              ∷ write (pos 4) hello
              ∷ accept (pos 3) (pos 4)
              ∷ listen (pos 3) 5
              ∷ bind (pos 3) 55555
              ∷ setsockopt (pos 3)
              ∷ socket (pos 3)
              ∷ [];
        })
unfolding server_session thread_func listen_socket sample_listen accept_socket write_char read_char
    c_string until_nul
server_passes = refl

abbrev one_client : Os
one_client = record {
  script =
      says (pos 3) []
      ∷ says (pos 0) []
      ∷ says (pos 3) []
      ∷ says (pos 3) hello
      ∷ says (pos 0) []
      ∷ [];
  trace = [];
}

-- The father of one connection.
abbrev one_fork : Os
one_fork = record {
  script =
      says (pos 4) []
      ∷ says (pos 77) []
      ∷ says (pos 77) []
      ∷ says (pos 0) []
      ∷ says (pos 0) []
      ∷ [];
  trace = socket (pos 3) ∷ [];
}

fork_loop-Leaves_example :
    Post (ForkLeaves 1 (pos 3) [] one_fork.trace) (fork_loop serves 1 (pos 3) one_fork)
unfolding open_fds
fork_loop-Leaves_example =
    fork_loop-Leaves serves (thread_func-IsServing sends reads sends-IsQuiet reads-IsQuiet) 1
      (pos 3) [] one_fork refl

-- The two tests CHARS, over a system that takes and brings all of it.
chars_exchange_example :
    (server_chars (server_os 2 3 1000 (frames client_rows))
      ≡ done (verdict_of client_rows) (record {
        script = [];
        trace = server_trace 2 3 (frames server_rows) (frames client_rows);
      }))
    × (client_chars (client_os 2 1000 (frames server_rows))
        ≡ done (verdict_of server_rows) (record {
          script = [];
          trace = client_trace 2 (frames client_rows) (frames server_rows);
        }))
unfolding server_chars client_chars client_write_chars client_read_chars
chars_exchange_example =
    chars_exchange (codes "This is A.") (codes "This is 1.")
      (codes "This is BB."
        ∷ codes "This is CCC."
        ∷ codes "This is DDDD."
        ∷ codes "This is EEEEE."
        ∷ [])
      (codes "This is 22."
        ∷ codes "This is 333."
        ∷ codes "This is 4444."
        ∷ codes "This is 55555."
        ∷ [])
      2 3 2 1000 (omega arith) (omega arith) (omega arith) (omega arith) (omega arith) (omega arith)
      (omega arith)
