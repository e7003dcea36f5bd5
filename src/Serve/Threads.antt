-- ===== src/Serve/Threads.antt =====
-- What the main thread of `thread_accept` leaves open.
use test_server.Os.Post.{if-Post, spend-Post, script_end, Post}
use test_server.Sockets.Ledger.{accepted, not_accepted, open_fds}
use test_server.Serve.{thread_accept, thread_loop}
use test_server.Base.Int.{is_zero, is_negative, pos, ℤ}
use test_server.Base.{refl, zero, suc, arith, ◌≤◌, [], length, ◌++◌, ◌∷◌, ℕ, ◌≡◌, List}
use test_server.Os.{spawn, accept, Os, M}

-- The result is 0, and what was open is still open, under some connections.
abbrev pub Stays : List ℤ → ℤ → Os → Type 0
Stays fds r after = (r ≡ pos 0) × ((more : List ℤ) × (open_fds after.trace ≡ more ++ fds))

module _ (write_message read_message : ℤ → M ℤ) where
  pub thread_loop-Stays :
      (fuel : ℕ) (listening_fd : ℤ) (fds more : List ℤ) (os : Os)
      → open_fds os.trace ≡ more ++ fds
      → length os.script ≤ fuel
      → Post (Stays fds) (thread_loop write_message read_message fuel listening_fd os)
  unfolding thread_loop open_fds
  thread_loop-Stays zero listening_fd fds more os h enough = script_end os.script enough
  thread_loop-Stays (suc fuel) listening_fd fds more os h enough =
      spend-Post (accept listening_fd) os _ (Stays fds) λ fd rest s0.
        if-Post (is_negative fd) _ _ _ (Stays fds)
          (λ down. (refl, (more, not_accepted listening_fd fd (more ++ fds) os.trace h down)))
          λ up.
            let added = accepted listening_fd fd (more ++ fds) os.trace h up in
            spend-Post (λ _. spawn fd)
              (record { script = rest; trace = accept listening_fd fd ∷ os.trace }) _ (Stays fds)
              λ ret rest1 s1.
                if-Post (is_zero ret) _ _ _ (Stays fds)
                  (λ _.
                    thread_loop-Stays fuel listening_fd fds (fd ∷ more)
                      (record {
                        script = rest1;
                        trace = spawn fd ∷ accept listening_fd fd ∷ os.trace;
                      })
                      added (omega arith))
                  λ _. (refl, (fd ∷ more, added))

  -- Unless the replies run out, `thread_accept` returns 0, after an accept or a pthread_create that
  -- fails, and its thread has closed nothing: the listener and all else that was open stays open.
  pub thread_accept-Stays :
      (listening_fd : ℤ) (fds : List ℤ) (os : Os)
      → open_fds os.trace ≡ listening_fd ∷ fds
      → Post (Stays (listening_fd ∷ fds)) (thread_accept write_message read_message listening_fd os)
  unfolding thread_accept
  thread_accept-Stays listening_fd fds os h =
      thread_loop-Stays (length os.script) listening_fd (listening_fd ∷ fds) [] os h (omega arith)
