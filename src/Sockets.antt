-- ===== src/Sockets.antt =====
-- How the programs open their sockets: `Listen` and `Accept` of socket_basic/server.cpp,
-- `sample_listen` and the first `one_accept` of sample_socket/test_server.cpp, `one_connect` of
-- socket_basic/client.cpp, and `sample_connect` of sample_client/test_client.cpp.
pub mod Ledger
pub mod Opening
use Prim.Native.Nat.{bit_and, bit_or}
use test_server.Base.{ℕ, zero, suc, ◌-◌, List, [], ◌∷◌, Bool, true, false, if◌then◌else◌, not}
use test_server.Base.Int.{ℤ, pos, negsuc, is_negative, is_positive, minus_one, eq_ℤ}
use test_server.Os.{
  M, pure, ◌>>=◌, ◌>>◌, result, Call, socket, setsockopt, bind, listen, connect, accept, getfl,
  setfl,
}

-- flags | O_NONBLOCK, in two's complement.
abbrev pub o_nonblock : ℕ
o_nonblock = 2048

unfoldable pub with_nonblock : ℤ → ℤ
with_nonblock (pos n) = pos (bit_or n o_nonblock)
with_nonblock (negsuc n) = negsuc (n - bit_and n o_nonblock)

-- set_nonblockint(fd)
unfoldable pub set_nonblocking : ℤ → M ℤ
unfolding with_nonblock
set_nonblocking fd = do
  flags ← result (λ r. getfl fd)
  let known = if eq_ℤ flags minus_one then pos 0 else flags
  result (λ r. setfl fd (with_nonblock known))

-- The four calls of sample_listen(listening_fd), for a port: what is in listening_fd, and the
-- result.
unfoldable pub sample_listen : ℕ → M (ℤ × ℤ)
sample_listen port = do
  listening_fd ← result socket
  let refused = pure (listening_fd, minus_one)
  let listening = do
    ret ← result (λ r. listen listening_fd 5)
    if is_negative ret then refused else pure (listening_fd, pos 0)
  let bound = do
    ret ← result (λ r. bind listening_fd port)
    if is_negative ret then refused else listening
  let configured = do
    ret ← result (λ r. setsockopt listening_fd)
    if is_negative ret then refused else bound
  if is_positive listening_fd then configured else refused

-- Listen() of socket_basic/server.cpp makes the same calls for port 55555, and returns the
-- descriptor.
unfoldable pub listen_socket : M ℤ
unfolding sample_listen
listen_socket = do
  (listening_fd, ret) ← sample_listen 55555
  pure (if is_negative ret then minus_one else listening_fd)

-- Accept(listening_fd) and one_accept(listening_fd).
unfoldable pub accept_socket : ℤ → M ℤ
accept_socket listening_fd = do
  linkage_fd ← result (accept listening_fd)
  pure (if is_negative linkage_fd then minus_one else linkage_fd)

-- one_connect()
unfoldable pub one_connect : M ℤ
one_connect = do
  socket_fd ← result socket
  let connecting = do
    ret ← result (λ r. connect socket_fd 55555)
    pure (if is_negative ret then minus_one else socket_fd)
  if is_negative socket_fd then pure minus_one else connecting

-- sample_connect(socket_fd): what is in socket_fd, and the result.
unfoldable pub sample_connect : M (ℤ × ℤ)
unfolding set_nonblocking
sample_connect = do
  socket_fd ← result socket
  let ready = set_nonblocking socket_fd >> pure (socket_fd, pos 0)
  let connecting = do
    ret ← result (λ r. connect socket_fd 9922)
    if is_negative ret then pure (socket_fd, minus_one) else ready
  if is_negative socket_fd then pure (socket_fd, minus_one) else connecting
