-- ===== src/Sessions.antt =====
-- The tests of socket_basic/server.cpp and client.cpp, which open, use and close one connection
-- each, or three. What a test sends and what it makes of what it reads are parameters here. A test
-- ends at the first ASSERT that does not hold.
pub mod Ledger
pub mod Exchange
pub mod Fork
pub mod Programs
pub mod ProtoExchange
pub mod StructExchange
pub mod Quiet
pub mod Suites
pub mod Runs
pub mod Threads
use test_server.Sockets.{accept_socket, listen_socket, one_connect}
use test_server.Base.Int.{is_negative, is_zero, is_positive, ℤ}
use test_server.Base.{zero, ◌&&◌, some, suc, none, true, false, if◌then◌else◌, ℕ, Option, Bool}
use test_server.Os.{wait, fork, spawn, close, ◌>>◌, pure, result, ◌>>=◌, M}

-- Whether every ASSERT held, and what the read printed, if it came to that.
pub record Verdict (P : Type 0) : Type 0 where
  pub passed : Bool
  pub printed : Option P

-- The process that a test ends in, where it forks.
pub data Side : Type 0 where
  father : Side
  child : Side

module _ {P : Type 0} (write_message : ℤ → M ℤ) (read_message : ℤ → M (ℤ × P)) where
  -- thread_func(linkage_fd), whose calls each test of suite A and the child of TEST(B, CHAR) make
  -- too.
  unfoldable pub thread_func : ℤ → M (Verdict P)
  thread_func linkage_fd = do
    ret ← write_message linkage_fd
    let reading = do
      (got, seen) ← read_message linkage_fd
      let ends =
          result (λ r. close linkage_fd) >> pure (record { passed = true; printed = some seen })
      if is_positive got then ends else pure (record { passed = false; printed = some seen })
    if is_positive ret then reading else pure (record { passed = false; printed = none })

  -- The same with the read before the write, as TEST(A, PROTO) has it.
  unfoldable pub answer_func : ℤ → M (Verdict P)
  answer_func linkage_fd = do
    (got, seen) ← read_message linkage_fd
    let writing = do
      ret ← write_message linkage_fd
      let ends =
          result (λ r. close linkage_fd) >> pure (record { passed = true; printed = some seen })
      if is_positive ret then ends else pure (record { passed = false; printed = some seen })
    if is_positive got then writing else pure (record { passed = false; printed = some seen })

  -- A test of suite A of the client, which looks at no result but that of one_connect.
  unfoldable pub client_session : M (Verdict P)
  unfolding one_connect
  client_session = do
    socket_fd ← one_connect
    let connected = do
      write_message socket_fd
      (got, seen) ← read_message socket_fd
      result (λ r. close socket_fd)
      pure (record { passed = true; printed = some seen })
    if is_positive socket_fd then connected else pure (record { passed = false; printed = none })

module _ {P : Type 0} (serve : ℤ → M (Verdict P)) where
  -- A test of suite A of the server.
  unfoldable pub server_session : M (Verdict P)
  unfolding listen_socket accept_socket
  server_session = do
    listening_fd ← listen_socket
    let refused = pure (record { passed = false; printed = none })
    let accepting = do
      linkage_fd ← accept_socket listening_fd
      let served = do
        v ← serve linkage_fd
        if v.passed then result (λ r. close listening_fd) >> pure v else pure v
      if is_positive linkage_fd then served else refused
    if is_positive listening_fd then accepting else refused

  -- The loop of TEST(B, CHAR) for `num` further connections: the process that it ends in, and
  -- whether every ASSERT held. The father closes the listener behind the loop, the child does not.
  unfoldable pub fork_loop : ℕ → ℤ → M (Side × Bool)
  unfolding accept_socket
  fork_loop zero listening_fd = result (λ r. close listening_fd) >> pure (father, true)
  fork_loop (suc num) listening_fd = do
    linkage_fd ← accept_socket listening_fd
    let again = fork_loop num listening_fd
    let forked = do
      pid ← result fork
      let serving = do v ← serve linkage_fd; pure (child, v.passed)
      let waiting = do result (λ r. wait); result (λ r. close linkage_fd); again
      let parent = if is_zero pid then serving else waiting
      if is_negative pid then pure (father, false) else parent
    if is_positive linkage_fd then forked else pure (father, false)

  -- TEST(B, CHAR)
  unfoldable pub fork_server : M (Side × Bool)
  unfolding listen_socket fork_loop
  fork_server = do
    listening_fd ← listen_socket
    if is_positive listening_fd then fork_loop 3 listening_fd else pure (father, false)

  -- The loop of TEST(C, CHAR): a thread is joined before the next accept. The constructor of a
  -- thread throws if there is none to be had, which ends the test; an ASSERT in a thread only ends
  -- the thread.
  unfoldable pub join_loop : ℕ → ℤ → M Bool
  unfolding accept_socket
  join_loop zero listening_fd = result (λ r. close listening_fd) >> pure true
  join_loop (suc num) listening_fd = do
    linkage_fd ← accept_socket listening_fd
    let again = join_loop num listening_fd
    let started = do
      ret ← result (λ r. spawn linkage_fd)
      let joined = do v ← serve linkage_fd; rest ← again; pure (v.passed && rest)
      if is_zero ret then joined else pure false
    if is_positive linkage_fd then started else pure false

  -- TEST(C, CHAR)
  unfoldable pub thread_server : M Bool
  unfolding listen_socket join_loop
  thread_server = do
    listening_fd ← listen_socket
    if is_positive listening_fd then join_loop 3 listening_fd else pure false
