-- ===== src/Select.antt =====
-- The select server of sample_socket/test_server.cpp: `add_fd`, `del_fd` and `select_accept`. The
-- two functions that it is given are parameters.
pub mod Refine
pub mod Table
pub mod Undefined
use test_server.Sockets.{accept_socket}
use test_server.Base.Int.{is_zero, ◌+ℤ◌, ◌-ℤ◌, negsuc, is_positive, eq_ℤ, minus_one, pos, ℤ}
use test_server.Base.{
  [], zero, none, ◌||◌, suc, ltb, ◌&&◌, replicate, false, if◌then◌else◌, some, ℕ, Option, Bool,
  length, ◌∷◌, List,
}
use mathlib.Core.Option
use test_server.Os.{
  close, result, select, filled, state_at, ◌>>◌, ◌>>=◌, has_bit, checked, pure, starve, M,
}

-- The first slot that is free, if there is one.
unfoldable pub add_fd : ℤ → List ℤ → List ℤ
add_fd fd [] = []
add_fd fd (slot ∷ table) =
    let rest = add_fd fd table in if is_positive slot then slot ∷ rest else fd ∷ table

unfoldable pub del_fd : ℤ → List ℤ → List ℤ
del_fd fd [] = []
del_fd fd (slot ∷ table) =
    let rest = del_fd fd table in if eq_ℤ slot fd then minus_one ∷ table else slot ∷ rest

-- FD_SET and FD_ISSET are defined from 0 to FD_SETSIZE - 1.
abbrev pub fd_setsize : ℕ
fd_setsize = 1024

abbrev pub in_range : ℤ → Bool
in_range (pos fd) = ltb fd fd_setsize
in_range (negsuc fd) = false

abbrev pub is_member : ℤ → List ℤ → Bool
is_member fd [] = false
is_member fd (g ∷ fds) = eq_ℤ g fd || is_member fd fds

-- FD_ISSET after select, which leaves in a set what was in it and is ready: bit 0 of a state for
-- reading, bit 1 for writing.
abbrev pub fd_isset : ℤ → List ℤ → ℕ → List ℕ → Option Bool
fd_isset fd fds bit states =
    if in_range fd then some (is_member fd fds && has_bit bit (state_at fd states)) else none

-- The loop of FD_SET: the connections, and max_fd.
unfoldable pub watch : List ℤ → ℤ → Option (List ℤ × ℤ)
watch [] max_fd = some ([], max_fd)
watch (slot ∷ table) max_fd =
    let higher = if is_positive (slot -ℤ max_fd) then slot else max_fd in
    let added = Option.map (λ (t : List ℤ × ℤ). (slot ∷ t.0, t.1)) (watch table higher) in
    let set = if in_range slot then added else none in
    let skipped = watch table max_fd in if is_positive slot then set else skipped

-- A loop of FD_ISSET over the table, with what is called for a descriptor that is ready.
unfoldable pub serve_ready : (ℤ → M ℤ) → List ℤ → ℕ → List ℕ → List ℤ → M ℤ
serve_ready act fds bit states [] = pure (pos 0)
serve_ready act fds bit states (slot ∷ table) =
    let rest = serve_ready act fds bit states table in
    checked (fd_isset slot fds bit states) >>= λ ready. if ready then act slot >> rest else rest

module _ (write_message read_message : ℤ → M ℤ) where
  -- while (1), with the table and max_fd.
  unfoldable pub select_accept_loop : ℕ → ℤ → List ℤ → ℤ → M ℤ
  unfolding add_fd watch serve_ready
  select_accept_loop zero listening_fd table max_fd = starve
  select_accept_loop (suc fuel) listening_fd table max_fd = do
    checked (if in_range listening_fd then some (pos 0) else none)
    (fds, max_fd') ← checked (watch table max_fd)
    (ret, states) ← filled (select (max_fd' +ℤ pos 1))
    let finish = result (λ r. close listening_fd) >> pure (pos 0)
    let added = accept_socket listening_fd >>= λ linkage_fd. pure (add_fd linkage_fd table)
    let serve = do
      ready ← checked (fd_isset listening_fd (listening_fd ∷ fds) 0 states)
      table' ← if ready then added else pure table
      serve_ready read_message (listening_fd ∷ fds) 0 states table'
      serve_ready write_message fds 1 states table'
      select_accept_loop fuel listening_fd table' max_fd'
    if is_zero ret || eq_ℤ ret minus_one then finish else serve

  -- A round takes a reply at least.
  unfoldable pub select_accept : ℤ → M ℤ
  unfolding select_accept_loop
  select_accept listening_fd os =
      select_accept_loop (length os.script) listening_fd (replicate 1024 minus_one) listening_fd os
