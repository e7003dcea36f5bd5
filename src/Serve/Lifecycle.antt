-- ===== src/Serve/Lifecycle.antt =====
-- Which descriptors `one_accept` leaves open, on every path.
use test_server.Base.{List, ◌∷◌, ◌≡◌, ◌⊎◌, inl, inr, refl, ◌∙◌}
use test_server.Base.Int.{ℤ, pos, is_negative, minus_one}
use test_server.Os.{pure, M, Os, accept, close}
use test_server.Os.Post.{call-Post, Post-map, Post, bind-Post, result-Post, if-Post}
use test_server.Sockets.Ledger.{Neutral, closed, accepted, Opens, not_accepted, IsNeutral, open_fds}
use test_server.Serve.{exchange, one_accept, pthread_func}

-- What `one_accept` returns, and what is open then.
abbrev pub OneLeaves : ℤ → List ℤ → ℤ → Os → Type 0
OneLeaves listening_fd fds r os =
    ((r ≡ pos 0) × (open_fds os.trace ≡ fds))
    ⊎ ((r ≡ minus_one) × (open_fds os.trace ≡ listening_fd ∷ fds))

module _ (write_message read_message : ℤ → M ℤ) (write_neutral : IsNeutral write_message)
    (read_neutral : IsNeutral read_message) where
  pub exchange-Opens :
      (fd : ℤ) (fds : List ℤ) (os : Os)
      → Opens fds os
      → Post (λ _. Opens fds) (exchange write_message read_message fd os)
  unfolding exchange
  exchange-Opens fd fds os h =
      bind-Post (write_message fd os) (λ _. read_message fd) (Neutral os) (λ _. Opens fds)
        (write_neutral fd os)
        λ a after (e, _).
          Post-map (read_message fd after) (λ r later (same, _). same ∙ e ∙ h)
            (read_neutral fd after)

  -- Unless one of the two functions is undefined or the replies run out, `one_accept` ends: it
  -- closes what it accepted and the listener and returns 0, unless accept fails: then it returns -1
  -- and the listener stays open.
  pub one_accept-Opens :
      (listening_fd : ℤ) (fds : List ℤ) (os : Os)
      → open_fds os.trace ≡ listening_fd ∷ fds
      → Post (OneLeaves listening_fd fds) (one_accept write_message read_message listening_fd os)
  unfolding one_accept
  one_accept-Opens listening_fd fds os h =
      result-Post (accept listening_fd) os _ (OneLeaves listening_fd fds) λ ret rest.
        if-Post (is_negative ret) _ _ _ (OneLeaves listening_fd fds)
          (λ down. inr (refl, not_accepted listening_fd ret (listening_fd ∷ fds) os.trace h down))
          λ up.
            bind-Post
              (exchange write_message read_message ret
                (record { script = rest; trace = accept listening_fd ret ∷ os.trace }))
              _ (λ _. Opens (ret ∷ listening_fd ∷ fds)) (OneLeaves listening_fd fds)
              (exchange-Opens ret (ret ∷ listening_fd ∷ fds) _
                (accepted listening_fd ret (listening_fd ∷ fds) os.trace h up))
              λ a after e.
                result-Post (λ _. close ret) after _ (OneLeaves listening_fd fds)
                  λ r1 rest1.
                    result-Post (λ _. close listening_fd)
                      (record { script = rest1; trace = close ret ∷ after.trace })
                      (λ _. pure (pos 0)) (OneLeaves listening_fd fds)
                      λ r2 rest2. inl (
                        refl,
                        closed listening_fd fds _ (closed ret (listening_fd ∷ fds) after.trace e),
                      )

  -- `pthread_func` closes the connection.
  pub pthread_func-Opens :
      (fd : ℤ) (fds : List ℤ) (os : Os)
      → Opens (fd ∷ fds) os
      → Post (λ _. Opens fds) (pthread_func write_message read_message fd os)
  unfolding pthread_func
  pthread_func-Opens fd fds os h =
      bind-Post (exchange write_message read_message fd os) _ (λ _. Opens (fd ∷ fds))
        (λ _. Opens fds) (exchange-Opens fd (fd ∷ fds) os h)
        λ a after e.
          call-Post (λ _. close fd) after (λ _. Opens fds) λ r rest. closed fd fds after.trace e
