-- ===== src/Echo.antt =====
-- sample_epoll/echo_server.cpp: a server that answers each read with a text and what was read.
pub mod Answer
pub mod Bounds
pub mod Capacity
use test_server.Framing.StructTransfer.{over}
use test_server.Memory.{until_nul, store}
use test_server.Sockets.{sample_listen}
use test_server.Base.{
  ◌&&◌, zero, take, none, length, replicate, some, ◌++◌, [], suc, ◌∷◌, Option, if◌then◌else◌, ℕ,
  List,
}
use test_server.Base.Int.{◌-ℤ◌, eq_ℤ, pos, ◌+ℤ◌, is_negative, minus_one, to_size, is_positive, ℤ}
use test_server.Os.{
  write_call, checked, epoll_del, close, ◌>>◌, read_call, Os, epoll_add, incoming, transferred,
  accept, epoll_create, epoll_wait, result, pure, ask, starve, ◌>>=◌, Reply, M,
}

-- Up to cur_fds events; the kernel refuses a cur_fds that is not positive. The descriptor of each
-- event is in the reply's bytes.
abbrev pub events_of : ℤ → Reply → List ℕ
events_of cur_fds r = if is_positive cur_fds then incoming (to_size cur_fds) r else []

abbrev pub wait_events : ℤ → M (ℤ × List ℕ)
wait_events cur_fds = ask (λ r. epoll_wait cur_fds r.ret) >>= λ r. pure (
  if is_positive cur_fds then transferred r.ret (events_of cur_fds r) else minus_one,
  events_of cur_fds r,
)

-- buff2 before strncat.
abbrev pub greeting : List ℕ
greeting = b'h' ∷ b'a' ∷ b'h' ∷ b'a' ∷ b'h' ∷ b'a' ∷ b'h' ∷ b'h' ∷ b'a' ∷ []

-- strncat(buff2, buff, sizeof(buff)): what is written to the client.
unfoldable pub echo_reply : List ℕ → Option (List ℕ)
echo_reply buff = store 9 (greeting ++ replicate 91 0) (until_nul (take 50 buff) ++ 0 ∷ [])

-- One event: cur_fds and buff afterwards, or `none` where main returns. `buff` keeps from one event
-- to the next what no read overwrites.
unfoldable pub one_event : ℤ → ℕ → ℤ × List ℕ → M (Option (ℤ × List ℕ))
unfolding echo_reply
one_event listening_fd fd (cur_fds, buff) = do
  let accepting = do
    linkage_fd ← result (accept listening_fd)
    let adding = do
      added ← result epoll_add
      pure (if is_negative added then none else some (cur_fds +ℤ pos 1, buff))
    if is_negative linkage_fd then pure none else adding
  let reading = do
    (count, bytes, interrupted) ← read_call (pos fd) 50
    let buff' = over buff bytes
    let closing = do
      result (λ r. close (pos fd))
      result epoll_del
      pure (some (cur_fds -ℤ pos 1, buff'))
    let answering = do
      buff2 ← checked (echo_reply buff')
      write_call (pos fd) buff2
      pure (some (cur_fds, buff'))
    if is_positive count then answering else closing
  if eq_ℤ (pos fd) listening_fd && is_negative (cur_fds -ℤ pos 1000) then accepting else reading

-- The events of one epoll_wait.
unfoldable pub all_events : ℤ → List ℕ → ℤ × List ℕ → M (Option (ℤ × List ℕ))
unfolding one_event
all_events listening_fd [] state = pure (some state)
all_events listening_fd (fd ∷ events) state = one_event listening_fd fd state >>= λ next?.
    elim next? [ none ↦ pure none | some next ↦ all_events listening_fd events next ]

-- while (true)
unfoldable pub echo_loop : ℕ → ℤ → ℤ × List ℕ → M ℤ
unfolding all_events
echo_loop zero listening_fd state = starve
echo_loop (suc fuel) listening_fd (cur_fds, buff) = wait_events cur_fds >>= λ (wait_fds, events).
    let serve = all_events listening_fd events (cur_fds, buff) >>= λ next?. elim next? [
      | none ↦ pure (pos 0)
      | some next ↦ echo_loop fuel listening_fd next
    ] in
    if eq_ℤ wait_fds minus_one then pure (pos 0) else serve

-- main(), where `buff` is what stands in the array at first.
unfoldable pub echo_main : List ℕ → M ℤ
unfolding echo_loop
echo_main buff = do
  (listening_fd, ret) ← sample_listen 55555
  let start = do
    epoll_fd ← result epoll_create
    added ← result epoll_add
    let serve = λ (os : Os). echo_loop (length os.script) listening_fd (pos 1, buff) os
    if is_negative added then pure (pos 0) else serve
  if is_negative ret then pure (pos 0) else start
