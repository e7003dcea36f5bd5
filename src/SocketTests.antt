-- ===== src/SocketTests.antt =====
-- The tests of sample_socket/test_server.cpp and of sample_client/test_client.cpp: each opens a
-- socket, gives it to a server or a client with two functions, and expects both results to be 0.
-- EXPECT_EQ goes on where it fails.
pub mod Verdicts
pub mod Leaving
use test_server.Base.{ℕ, List, Bool, ◌&&◌, Option, none, some, codes, ◌++◌, drop, length}
use test_server.Base.Int.{ℤ, is_zero}
use test_server.Memory.{c_string}
use test_server.Os.{M, pure, ◌>>=◌, read_call, write_call, checked}
use test_server.Sockets.{sample_listen, sample_connect}
use test_server.Serve.{one_accept, thread_accept, process_accept, Leaves, returned, exited}
use test_server.Select.{select_accept}
use test_server.Clients.{epoll_client, select_client, poll_client}

-- write_char(fd) and read_char(fd) of both programs. The array of read_char is not zeroed: `stale`
-- is what it holds.
unfoldable pub write_char : ℤ → M ℤ
write_char fd = do (count, interrupted) ← write_call fd (codes "How are you?"); pure count

unfoldable pub read_char : List ℕ → ℤ → M ℤ
read_char stale fd = do
  (count, bytes, interrupted) ← read_call fd 100
  shown ← checked (c_string (bytes ++ drop (length bytes) stale))
  pure count

-- EXPECT_EQ(ret, 0) of both calls.
unfoldable pub server_test : (ℤ → M ℤ) → M Bool
server_test serve = do
  (listening_fd, listened) ← sample_listen 9922
  ret ← serve listening_fd
  pure (is_zero listened && is_zero ret)

unfoldable pub client_test : (ℤ → M ℤ) → M Bool
client_test talk = do
  (socket_fd, connected) ← sample_connect
  ret ← talk socket_fd
  pure (is_zero connected && is_zero ret)

-- The verdict of a process that comes back from its server; one that has exited has none.
abbrev pub verdict_of : ℤ → Leaves → Option Bool
verdict_of listened (returned ret) = some (is_zero listened && is_zero ret)
verdict_of listened (exited status) = none

module _ (write_message read_message : ℤ → M ℤ) where
  -- TEST(CHAR, ONE), TEST(STRING, ONE), TEST(MESSAGE, ONE), by the functions that they pass on.
  unfoldable pub one_test : M Bool
  unfolding server_test
  one_test = server_test (one_accept write_message read_message)

  -- TEST(..., THREAD)
  unfoldable pub thread_test : M Bool
  unfolding server_test
  thread_test = server_test (thread_accept write_message read_message)

  -- TEST(..., PROCESS), in every process that comes out of it.
  unfoldable pub process_test : M (Option Bool)
  process_test = do
    (listening_fd, listened) ← sample_listen 9922
    leaves ← process_accept write_message read_message listening_fd
    pure (verdict_of listened leaves)

  -- TEST(CHAR, SELECT) of the server.
  unfoldable pub select_server_test : M Bool
  unfolding server_test
  select_server_test = server_test (select_accept write_message read_message)

  -- TEST(..., EPOLL), TEST(CHAR, SELECT) and TEST(CHAR, POLL) of the client.
  unfoldable pub epoll_test : M Bool
  unfolding client_test
  epoll_test = client_test (epoll_client write_message read_message)

  unfoldable pub select_test : M Bool
  unfolding client_test
  select_test = client_test (select_client write_message read_message)

  unfoldable pub poll_test : ℕ → M Bool
  unfolding client_test
  poll_test rounds = client_test (poll_client write_message read_message rounds)
