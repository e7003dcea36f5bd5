-- ===== src/Serve/Race.antt =====
-- The record that `thread_accept` passes to its threads: each round writes the next connection to
-- the same place on the stack, and a thread reads the place when it comes to it. An interleaving of
-- the main thread and the others is a list of actions.
use test_server.Select.{is_member}
use test_server.Base.Int.{ℤ}
use test_server.Base.{
  All, true, zero, refl, none, [], suc, ◌⊎◌, ℕ, ◌∷◌, ◌+◌, some, Option, List, length, ◌≡◌,
}
use test_server.Memory.{◌>>=◌}

-- `accepted` and `served` are the connections that were accepted and those that threads have read,
-- the newest first; `unread` is the number of threads that have not read the place yet.
pub record Shared : Type 0 where
  pub func_data : ℤ
  pub unread : ℕ
  pub accepted : List ℤ
  pub served : List ℤ

pub data Action : Type 0 where
  accept_one : ℤ → Action
  read_fd : Action

-- The main thread's round, up to pthread_create, and the first line of pthread_func.
abbrev pub read_place : ℤ → ℕ → List ℤ → List ℤ → Option Shared
read_place fd zero accepted served = none
read_place fd (suc n) accepted served =
    some (record { func_data = fd; unread = n; accepted = accepted; served = fd ∷ served })

unfoldable pub step : Action → Shared → Option Shared
step (accept_one fd) s = some (record {
  func_data = fd;
  unread = suc s.unread;
  accepted = fd ∷ s.accepted;
  served = s.served;
})
step read_fd s = read_place s.func_data s.unread s.accepted s.served

-- An interleaving; `none` if a thread reads that is not there.
unfoldable pub run : List Action → Shared → Option Shared
unfolding step
run [] s = some s
run (action ∷ actions) s = step action s >>= λ next. run actions next

-- An interleaving in which each thread reads before the next connection is accepted.
abbrev pub alternate : List ℤ → List Action
alternate [] = []
alternate (fd ∷ fds) = accept_one fd ∷ read_fd ∷ alternate fds

abbrev pub reverse_onto : List ℤ → List ℤ → List ℤ
reverse_onto [] done = done
reverse_onto (fd ∷ fds) done = reverse_onto fds (fd ∷ done)

-- If each thread reads the record before the main thread goes on, every connection is served by one
-- thread, in the order in which they came.
run-alternate :
    (fds : List ℤ) (place : ℤ) (before : List ℤ)
    → (s : Shared) × (run
          (alternate fds)
          (record { func_data = place; unread = 0; accepted = before; served = before })
        ≡ some s)
      × (s.accepted ≡ reverse_onto fds before)
      × (s.served ≡ s.accepted)
      × (s.unread ≡ 0)
unfolding run step
run-alternate [] place before = (
  record { func_data = place; unread = 0; accepted = before; served = before },
  refl,
  refl,
  refl,
  refl,
)
run-alternate (fd ∷ fds) place before = run-alternate fds fd (fd ∷ before)

-- If the main thread accepts twice before a thread reads, both threads serve the second connection
-- and none serves the first.
run_races :
    (first second : ℤ) (s : Shared)
    → s.unread ≡ 0
    → run (accept_one first ∷ accept_one second ∷ read_fd ∷ read_fd ∷ []) s
      ≡ some (record {
        func_data = second;
        unread = 0;
        accepted = second ∷ first ∷ s.accepted;
        served = second ∷ second ∷ s.served;
      })
unfolding run step
run_races first second s none_left = rw none_left refl

-- The threads that have read and those that have not are as many as the connections, and each has
-- read the descriptor of one of them.
abbrev pub Accounted : Shared → Type 0
Accounted s =
    (length s.served + s.unread ≡ length s.accepted)
    × (((s.unread ≡ 0) ⊎ (is_member s.func_data s.accepted ≡ true))
        × All (λ fd. is_member fd s.accepted ≡ true) s.served)
