-- ===== src/Serve/Processes.antt =====
-- Which descriptors `process_accept` leaves open, in every process and on every path.
use test_server.Base.{List, ◌∷◌, ◌≡◌, ◌⊎◌}
use test_server.Base.Int.{ℤ, minus_one}
use test_server.Os.{Os}
use test_server.Os.Post.{Post}
use test_server.Sockets.Ledger.{open_fds, remove_fd}
use test_server.Serve.{Leaves, returned, exited}

-- How a process leaves `process_accept`, and what is open then, if `listening_fd` was opened last,
-- on top of `fds`. A return leaves the listener open and, if fork failed, the connection too. An
-- exit leaves nothing open, but the grandson has closed its connection twice.
abbrev pub ProcessLeaves : ℤ → List ℤ → Leaves → Os → Type 0
ProcessLeaves listening_fd fds (returned r) os =
    (r ≡ minus_one)
    × ((open_fds os.trace ≡ listening_fd ∷ fds)
        ⊎ ((fd : ℤ) × (open_fds os.trace ≡ fd ∷ listening_fd ∷ fds)))
ProcessLeaves listening_fd fds (exited status) os =
    (open_fds os.trace ≡ fds) ⊎ ((fd : ℤ) × (status ≡ 0) × (open_fds os.trace ≡ remove_fd fd fds))
