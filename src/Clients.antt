-- ===== src/Clients.antt =====
-- The clients of sample_client/test_client.cpp: `epoll_client`, `select_client` and `poll_client`.
-- The two functions that they are given are parameters.
pub mod Closing
pub mod Endings
use test_server.Base.{zero, true, suc, not, if◌then◌else◌, ℕ, length, Bool}
use test_server.Base.Int.{is_positive, eq_ℤ, is_zero, ◌+ℤ◌, pos, minus_one, is_negative, ℤ}
use test_server.Os.{
  nth_or_zero, undefined, has_bit, sleep, state_at, Os, pure, close, epoll_wait, select, poll,
  epoll_add, filled, result, ◌>>◌, ◌>>=◌, starve, M, epoll_create,
}

module _ (write_message read_message : ℤ → M ℤ) where
  -- The end of epoll_client on each of its paths.
  abbrev pub leave : ℤ → ℤ → ℤ → M ℤ
  leave epoll_fd socket_fd ret = do
    result (λ r. close epoll_fd)
    result (λ r. close socket_fd)
    pure ret

  abbrev pub ret_of : ℤ → ℤ
  ret_of count = if is_negative count then minus_one else pos 0

  -- while (true): epoll_wait with no time limit; the only descriptor that it watches is socket_fd,
  -- so that is evs[0].data.fd.
  unfoldable pub wait_loop : ℕ → ℤ → ℤ → M ℤ
  wait_loop zero epoll_fd socket_fd = starve
  wait_loop (suc fuel) epoll_fd socket_fd = do
    wait_fds ← result (epoll_wait (pos 1))
    let again = wait_loop fuel epoll_fd socket_fd
    let serve = do count ← read_message socket_fd; leave epoll_fd socket_fd (ret_of count)
    let idle = if is_zero wait_fds then again else serve
    if is_negative wait_fds then leave epoll_fd socket_fd minus_one else idle

  unfoldable pub epoll_client : ℤ → M ℤ
  unfolding wait_loop
  epoll_client socket_fd = do
    epoll_fd ← result epoll_create
    added ← result epoll_add
    let start = do
      count ← write_message socket_fd
      let waiting = λ (os : Os). wait_loop (length os.script) epoll_fd socket_fd os
      if is_negative count then leave epoll_fd socket_fd minus_one else waiting
    if is_negative added then leave epoll_fd socket_fd minus_one else start

  -- One of the two functions, if its bit is set; `none` goes on, and an error closes the socket.
  unfoldable pub when_ready : Bool → (ℤ → M ℤ) → ℤ → M ℤ → M ℤ
  when_ready ready act socket_fd rest = if not ready then rest else do
    count ← act socket_fd
    let failed = result (λ r. close socket_fd) >> pure minus_one
    if is_negative count then failed else rest

  -- select looks at max_fd, which is the socket, and returns at once. Behind the loop there is no
  -- return statement: a function with a result that ends so is undefined.
  unfoldable pub select_loop : ℕ → ℤ → M ℤ
  unfolding when_ready
  select_loop zero socket_fd = starve
  select_loop (suc fuel) socket_fd = do
    (ret, states) ← filled (select (socket_fd +ℤ pos 1))
    let flags = state_at socket_fd states
    let again = result (λ r. sleep) >> select_loop fuel socket_fd
    let writing = when_ready (has_bit 1 flags) write_message socket_fd again
    let reading = when_ready (has_bit 0 flags) read_message socket_fd writing
    if is_positive ret then reading else undefined

  unfoldable pub select_client : ℤ → M ℤ
  unfolding select_loop
  select_client socket_fd os = select_loop (length os.script) socket_fd os

  -- while (1): no round calls poll again, so each sees the same revents.
  unfoldable pub poll_loop : ℕ → ℕ → ℤ → M ℤ
  unfolding when_ready
  poll_loop zero revents socket_fd = starve
  poll_loop (suc fuel) revents socket_fd =
      let finish = result (λ r. close socket_fd) >> pure (pos 0) in
      let writing = when_ready true write_message socket_fd finish in
      let reading = when_ready true read_message socket_fd writing in
      let again = poll_loop fuel revents socket_fd in if has_bit 0 revents then reading else again

  -- `fuel` is a number of rounds, not of calls.
  unfoldable pub poll_client : ℕ → ℤ → M ℤ
  unfolding poll_loop
  poll_client fuel socket_fd = do
    (ret, revents) ← filled poll
    let failed = result (λ r. close socket_fd) >> pure minus_one
    let polled = poll_loop fuel (nth_or_zero 0 revents) socket_fd
    if eq_ℤ ret minus_one then failed else polled
