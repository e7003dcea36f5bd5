-- ===== src/Examples/Programs.antt =====
-- The two programs of socket_basic, over a GoogleTest that runs the tests in order.
use test_server.Memory.{until_nul, c_string}
use test_server.Framing.StructTransfer.{read_char, write_char}
use test_server.Sockets.{accept_socket, sample_listen, listen_socket}
use test_server.Sessions.Exchange.{client_trace, client_os, verdict_of}
use test_server.Sessions.ProtoExchange.{proto_exchange, answer_trace, answer_os}
use test_server.Sessions.Threads.{thread_server-Leaves}
use test_server.Examples.Sessions.{serves-IsServing, serves}
use test_server.Examples.Greeting.{plain-IsDocumented, plain}
use test_server.Examples.Callbacks.{says}
use test_server.Framing.Protobuf.{read_protobuf, write_protobuf}
use test_server.Sockets.Ledger.{open_fds}
use test_server.Sessions.Programs.{
  thread_char, fork_char, server_structs, server_chars, server_proto, server_struct, server_char,
}
use test_server.Sessions.Runs.{server_program-Leaves, client_program-Leaves, ProgramLeaves}
use test_server.Base.Int.{minus_one, ℤ, pos}
use test_server.Sessions.Ledger.{Leaks}
use test_server.Sessions.{
  fork_server, client_session, thread_func, thread_server, answer_func, server_session,
}
use test_server.Os.{done, pure, ◌>>=◌, Reply, M, Os}
use test_server.Base.{arith, some, ◌≡◌, codes, replicate, [], refl, if◌then◌else◌, ◌∷◌, Bool, List}
use test_server.Os.Post.{Post}
use test_server.Sessions.Suites.{
  exit_code, client_program, run_in_order, server_tests, server_program, RunsInOrder,
}

abbrev run_all : List (M Bool) → M ℤ
run_all tests = run_in_order tests >>= λ passed. pure (exit_code passed)

run_all-RunsInOrder : RunsInOrder run_all
run_all-RunsInOrder tests os = refl

abbrev answers_of : List ℤ → List Reply
answers_of [] = []
answers_of (ret ∷ rets) = says ret [] ∷ answers_of rets

-- In each test of the client the socket is 3, the connection is refused in the last one, and the
-- server sends nothing.
abbrev client_run : Os
client_run = record {
  script = answers_of (
      pos 3
      ∷ pos 0
      ∷ pos 18
      ∷ pos 0
      ∷ pos 0
      ∷ pos 3
      ∷ pos 0
      ∷ pos 9
      ∷ pos 0
      ∷ pos 0
      ∷ pos 3
      ∷ pos 0
      ∷ pos 8
      ∷ pos 0
      ∷ pos 0
      ∷ pos 3
      ∷ pos 0
      ∷ pos 80
      ∷ pos 0
      ∷ pos 0
      ∷ pos 3
      ∷ minus_one
      ∷ []);
  trace = [];
}

client_program-Leaves_example :
    Post
      (ProgramLeaves 0 5 (open_fds client_run.trace))
      (client_program plain plain (replicate 100 7) (replicate 2100 0) run_all client_run)
client_program-Leaves_example =
    client_program-Leaves plain plain (replicate 100 7) (replicate 2100 0) run_all
      run_all-RunsInOrder client_run

-- The first test of the server ends with a client that sends nothing, and later none can listen.
abbrev server_run : Os
server_run = record {
  script = answers_of (
      pos 3
      ∷ pos 0
      ∷ pos 0
      ∷ pos 0
      ∷ pos 4
      ∷ pos 12
      ∷ pos 0
      ∷ minus_one
      ∷ minus_one
      ∷ minus_one
      ∷ minus_one
      ∷ minus_one
      ∷ minus_one
      ∷ []);
  trace = [];
}

server_program-Leaves_example :
    Post
      (ProgramLeaves 1 16 (open_fds server_run.trace))
      (server_program plain plain (replicate 100 7) (replicate 2100 0) run_all server_run)
server_program-Leaves_example =
    server_program-Leaves plain plain (replicate 100 7) (replicate 2100 0) run_all
      run_all-RunsInOrder server_run

-- The bounds are not vacuous: that run of the server returns 1 with two descriptors open.
server_run_ends :
    (after : Os) × (server_program plain plain
        (replicate 100 7)
        (replicate 2100 0)
        run_all
        server_run
      ≡ done (pos 1) after)
    × (open_fds after.trace ≡ pos 4 ∷ pos 3 ∷ [])
unfolding server_program server_tests server_char server_struct server_proto server_chars
    server_structs fork_char thread_char server_session thread_func answer_func listen_socket
    sample_listen accept_socket write_char read_char c_string until_nul fork_server thread_server
    open_fds
server_run_ends = (_, refl, refl)

-- The threads of three connections, of which the second one reads nothing.
abbrev thread_run : Os
thread_run = record {
  script =
      answers_of
        (pos 3 ∷ pos 0 ∷ pos 0 ∷ pos 0 ∷ pos 4 ∷ pos 0 ∷ pos 3 ∷ minus_one ∷ minus_one ∷ []);
  trace = [];
}

thread_server-Leaves_example :
    Post
      (λ passed. Leaks (if passed then 0 else 4) (open_fds thread_run.trace))
      (thread_server serves thread_run)
thread_server-Leaves_example = thread_server-Leaves serves serves-IsServing thread_run

proto_exchange_example :
    (server_session
        (answer_func (write_protobuf plain (codes "10C.xxx")) (read_protobuf plain))
        (answer_os 2 3 1024000 (codes "Knightwu"))
      ≡ done
          (verdict_of (some (codes "Knightwu")))
          (record { script = []; trace = answer_trace 2 3 (codes "10C.xxx") (codes "Knightwu") }))
    × (client_session
          (write_protobuf plain (codes "Knightwu"))
          (read_protobuf plain)
          (client_os 2 1024000 (codes "10C.xxx"))
        ≡ done
            (verdict_of (some (codes "10C.xxx")))
            (record { script = []; trace = client_trace 2 (codes "Knightwu") (codes "10C.xxx") }))
proto_exchange_example =
    proto_exchange plain plain plain-IsDocumented plain-IsDocumented (codes "Knightwu")
      (codes "10C.xxx") (codes "Knightwu") (codes "10C.xxx") 2 3 2 1024000 refl refl (omega arith)
      (omega arith) (omega arith) (omega arith) (omega arith)
