-- ===== src/SocketTests/Leaving.antt =====
-- What the tests of sample_socket/test_server.cpp leave open.
use test_server.Base.{
  ◌++◌, length, arith, List, [], ◌∷◌, Bool, true, false, ◌&&◌, ◌≡◌, ◌⊎◌, inl, inr, refl, ◌∙◌, ℕ,
}
use test_server.Base.Int.{ℤ, pos, negsuc, is_zero, is_negative, minus_one}
use test_server.Os.{pure, M, Os, Call, Outcome, done, fault, starved, accept, close}
use test_server.Os.Post.{Post, bind-Post, result-Post, if-Post}
use test_server.Sockets.{sample_listen}
use test_server.Sockets.Ledger.{
  closed, accepted, Opens, not_accepted, IsNeutral, open_fds, opened, remove_fd-negative,
  open_fds-IsFd,
}
use test_server.Sockets.Opening.{Listening, sample_listen-Listening}
use test_server.Serve.{thread_loop, thread_accept, exchange, one_accept}
use test_server.Serve.Lifecycle.{exchange-Opens}
use test_server.Serve.Threads.{Stays, thread_loop-Stays}
use test_server.SocketTests.{thread_test, server_test, one_test}

-- A socket is in the listing unless its number is negative.
closed_opened :
    (fd : ℤ) (fds : List ℤ) (trace : List Call)
    → open_fds trace ≡ opened fd fds
    → open_fds (close fd ∷ trace) ≡ fds
unfolding open_fds
closed_opened (pos n) fds trace h = closed (pos n) fds trace h
closed_opened (negsuc n) fds trace h =
    remove_fd-negative (negsuc n) (open_fds trace) refl (open_fds-IsFd trace) ∙ h

-- sample_listen leaves open what it puts into listening_fd, whatever it returns.
Listening-Post :
    (port : ℕ) (trace : List Call) (o : Outcome (ℤ × ℤ))
    → Listening port trace o
    → Post (λ r os. Opens (opened r.0 (open_fds trace)) os) o
unfolding open_fds
Listening-Post port trace (done r os) (inl (up, zero_ret, calls)) = rw calls refl
Listening-Post port trace (done r os) (inr (failed, left)) = left
Listening-Post port trace (fault os) h = absurd h
Listening-Post port trace (starved os) h = h

-- What one_accept leaves open, the listener being there or not.
abbrev OneLeavesOpened : ℤ → List ℤ → ℤ → Os → Type 0
OneLeavesOpened listening_fd fds r os =
    ((r ≡ pos 0) × (open_fds os.trace ≡ fds))
    ⊎ ((r ≡ minus_one) × (open_fds os.trace ≡ opened listening_fd fds))

-- What a test leaves open: what was open before, or, if it has failed, one more.
abbrev pub TestLeaves : List ℤ → Bool → Os → Type 0
TestLeaves fds passed os =
    (open_fds os.trace ≡ fds) ⊎ ((passed ≡ false) × ((fd : ℤ) × (open_fds os.trace ≡ fd ∷ fds)))

module _ (write_message read_message : ℤ → M ℤ) (write_neutral : IsNeutral write_message)
    (read_neutral : IsNeutral read_message) where
  one_accept-Opened :
      (listening_fd : ℤ) (fds : List ℤ) (os : Os)
      → Opens (opened listening_fd fds) os
      → Post
          (OneLeavesOpened listening_fd fds)
          (one_accept write_message read_message listening_fd os)
  unfolding one_accept
  one_accept-Opened listening_fd fds os h =
      result-Post (accept listening_fd) os _ (OneLeavesOpened listening_fd fds) λ ret rest.
        if-Post (is_negative ret) _ _ _ (OneLeavesOpened listening_fd fds)
          (λ down.
            inr (refl, not_accepted listening_fd ret (opened listening_fd fds) os.trace h down))
          λ up.
            bind-Post
              (exchange write_message read_message ret
                (record { script = rest; trace = accept listening_fd ret ∷ os.trace }))
              _ (λ _. Opens (ret ∷ opened listening_fd fds)) (OneLeavesOpened listening_fd fds)
              (exchange-Opens write_message read_message write_neutral read_neutral ret
                (ret ∷ opened listening_fd fds) _
                (accepted listening_fd ret (opened listening_fd fds) os.trace h up))
              λ a after e.
                result-Post (λ _. close ret) after _ (OneLeavesOpened listening_fd fds)
                  λ r1 rest1.
                    result-Post (λ _. close listening_fd)
                      (record { script = rest1; trace = close ret ∷ after.trace })
                      (λ _. pure (pos 0)) (OneLeavesOpened listening_fd fds)
                      λ r2 rest2. inl (
                        refl,
                        closed_opened listening_fd fds _
                            (closed ret (opened listening_fd fds) after.trace e),
                      )

  test_leaves :
      (listening_fd listened ret : ℤ) (fds : List ℤ) (os : Os)
      → OneLeavesOpened listening_fd fds ret os
      → TestLeaves fds (is_zero listened && is_zero ret) os
  test_leaves listening_fd listened ret fds os (inl (_, left)) = inl left
  test_leaves (negsuc n) listened ret fds os (inr (down, left)) = inl left
  test_leaves (pos n) listened ret fds os (inr (down, left)) =
      inr (rw down (failing (is_zero listened)), (pos n, left))
    where
      failing : (b : Bool) → (b && false) ≡ false
      failing true = refl
      failing false = refl

  -- Given functions that open and close nothing: unless one of them is undefined or the replies run
  -- out, TEST(..., ONE) ends, also where sample_listen has failed, and leaves open what was open
  -- before, or, if it has not passed, one descriptor more.
  pub one_test-Leaves :
      (os : Os) → Post (TestLeaves (open_fds os.trace)) (one_test write_message read_message os)
  unfolding one_test server_test
  one_test-Leaves os =
      bind-Post (sample_listen 9922 os) _ (λ r mid. Opens (opened r.0 (open_fds os.trace)) mid)
        (TestLeaves (open_fds os.trace))
        (Listening-Post 9922 os.trace (sample_listen 9922 os) (sample_listen-Listening 9922 os))
        λ (listening_fd, listened) mid there.
          bind-Post (one_accept write_message read_message listening_fd mid)
            (λ ret. pure (is_zero listened && is_zero ret))
            (OneLeavesOpened listening_fd (open_fds os.trace)) (TestLeaves (open_fds os.trace))
            (one_accept-Opened listening_fd (open_fds os.trace) mid there)
            λ ret last left. test_leaves listening_fd listened ret (open_fds os.trace) last left

-- A listener that is there after sample_listen has returned 0.
abbrev Listens : List ℤ → ℤ × ℤ → Os → Type 0
Listens fds r os = (r.1 ≡ minus_one) ⊎ Opens (r.0 ∷ fds) os

Listening-Listens :
    (port : ℕ) (trace : List Call) (o : Outcome (ℤ × ℤ))
    → Listening port trace o
    → Post (Listens (open_fds trace)) o
unfolding open_fds
Listening-Listens port trace (done (pos n, ret) os) (inl (up, zero_ret, calls)) =
    inr (rw calls refl)
Listening-Listens port trace (done (negsuc n, ret) os) (inl (up, zero_ret, calls)) = absurd (cc)
Listening-Listens port trace (done r os) (inr (failed, left)) = inl failed
Listening-Listens port trace (fault os) h = absurd h
Listening-Listens port trace (starved os) h = h

-- What a test of thread_accept leaves open if it has passed: its listener, under connections.
abbrev pub ThreadTestLeaves : List ℤ → Bool → Os → Type 0
ThreadTestLeaves fds passed os =
    passed ≡ true
    → (listening_fd : ℤ) × (more : List ℤ) × (open_fds os.trace ≡ more ++ listening_fd ∷ fds)

module _ (write_message read_message : ℤ → M ℤ) where
  -- TEST(..., THREAD), whatever the functions are that it passes on, ends unless the replies run
  -- out, and if it passes it has left its listener open.
  pub thread_test-Leaves :
      (os : Os)
      → Post (ThreadTestLeaves (open_fds os.trace)) (thread_test write_message read_message os)
  unfolding thread_test server_test thread_accept
  thread_test-Leaves os =
      bind-Post (sample_listen 9922 os) _ (Listens (open_fds os.trace))
        (ThreadTestLeaves (open_fds os.trace))
        (Listening-Listens 9922 os.trace (sample_listen 9922 os) (sample_listen-Listening 9922 os))
        λ (listening_fd, listened) mid there.
          bind-Post (thread_loop write_message read_message (length mid.script) listening_fd mid)
            (λ ret. pure (is_zero listened && is_zero ret)) (Stays (open_fds mid.trace))
            (ThreadTestLeaves (open_fds os.trace))
            (thread_loop-Stays write_message read_message (length mid.script) listening_fd
              (open_fds mid.trace) [] mid refl (omega arith))
            λ ret last (zero_ret, (more, left)).
              by_listener listening_fd listened ret mid last there more left
    where
      by_listener :
          (listening_fd listened ret : ℤ) (mid last : Os)
          → Listens (open_fds os.trace) (listening_fd, listened) mid
          → (more : List ℤ) → open_fds last.trace ≡ more ++ open_fds mid.trace
          → ThreadTestLeaves (open_fds os.trace) (is_zero listened && is_zero ret) last
      by_listener listening_fd listened ret mid last (inl failed) more left passed =
          let never : false ≡ true = rw failed at passed in absurd (cc)
      by_listener listening_fd listened ret mid last (inr there) more left passed =
          (listening_fd, more, rw there at left)
