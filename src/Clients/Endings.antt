-- ===== src/Clients/Endings.antt =====
-- How `select_client` and `poll_client` end, and when they do not.
use test_server.Clients.Closing.{when_ready-Post}
use test_server.Os.Post.{spend-Post, script_end, if-Post, filled-Post, Post}
use test_server.Base.{arith, ◌≤◌, refl, zero, length, suc, ◌∷◌, false, ◌≡◌, List}
use test_server.Clients.{
  sleep, state_at, poll, select, nth_or_zero, has_bit, Os, select_loop, ℕ, poll_loop, poll_client,
  select_client,
}
use test_server.Os.{fault, starved, Call, Reply, M}
use test_server.Base.Int.{◌+ℤ◌, pos, minus_one, eq_ℤ, is_positive, ℤ}
use test_server.Sockets.Ledger.{Opens, IsNeutral, open_fds}

module _ (write_message read_message : ℤ → M ℤ) (write_neutral : IsNeutral write_message)
    (read_neutral : IsNeutral read_message) where
  select_loop-Fails :
      (fuel : ℕ) (fd : ℤ) (fds : List ℤ) (os : Os)
      → Opens (fd ∷ fds) os
      → length os.script ≤ fuel
      → Post
          (λ r after. (r ≡ minus_one) × Opens fds after)
          (select_loop write_message read_message fuel fd os)
  unfolding select_loop open_fds
  select_loop-Fails zero fd fds os h enough = script_end os.script enough
  select_loop-Fails (suc fuel) fd fds os h enough =
      filled-Post (select (fd +ℤ pos 1)) os _ Fails λ ret states rest s0.
        if-Post (is_positive ret) _ _ _ Fails
          (λ _.
            when_ready-Post write_message read_message write_neutral read_neutral
              (has_bit 0 (state_at fd states)) read_message fd fds _ Fails
              (record { script = rest; trace = select (fd +ℤ pos 1) ret ∷ os.trace }) read_neutral h
              (λ after e. (refl, e))
              λ middle e s1.
                when_ready-Post write_message read_message write_neutral read_neutral
                  (has_bit 1 (state_at fd states)) write_message fd fds _ Fails middle write_neutral
                  e (λ after e'. (refl, e'))
                  λ after e' s2.
                    spend-Post (λ _. sleep) after _ Fails
                      λ r rest' s3.
                        select_loop-Fails fuel fd fds
                          (record { script = rest'; trace = sleep ∷ after.trace }) e' (omega arith))
          λ _. tt
    where
      Fails : ℤ → Os → Type 0
      Fails r after = (r ≡ minus_one) × Opens fds after

  -- Every run of `select_client` returns -1, with the socket closed, or is undefined, or uses up
  -- the replies.
  pub select_client-Fails :
      (socket_fd : ℤ) (fds : List ℤ) (os : Os)
      → open_fds os.trace ≡ socket_fd ∷ fds
      → Post
          (λ r after. (r ≡ minus_one) × (open_fds after.trace ≡ fds))
          (select_client write_message read_message socket_fd os)
  unfolding select_client
  select_client-Fails fd fds os h = select_loop-Fails (length os.script) fd fds os h (omega arith)

module _ (write_message read_message : ℤ → M ℤ) where
  -- If the first select finds no descriptor ready, or fails, `select_client` runs off its end,
  -- where the behaviour is undefined, with the socket still open.
  select_client_falls :
      (socket_fd : ℤ) (r : Reply) (script : List Reply) (trace : List Call)
      → is_positive r.ret ≡ false
      → select_client write_message read_message socket_fd
          (record { script = r ∷ script; trace = trace })
        ≡ fault (record { script = script; trace = select (socket_fd +ℤ pos 1) r.ret ∷ trace })
  unfolding select_client select_loop
  select_client_falls fd r script trace quiet = rw quiet refl

  poll_loop_spins :
      (fuel revents : ℕ) (fd : ℤ) (os : Os)
      → has_bit 0 revents ≡ false
      → poll_loop write_message read_message fuel revents fd os ≡ starved os
  unfolding poll_loop
  poll_loop_spins zero revents fd os unset = refl
  poll_loop_spins (suc fuel) revents fd os unset =
      rw unset (poll_loop_spins fuel revents fd os unset)

  -- If the one call of poll does not set POLLIN, `poll_client` turns round for any number of
  -- rounds, making no further call: it never reads, writes, closes or returns.
  poll_client_spins :
      (fuel : ℕ) (socket_fd : ℤ) (r : Reply) (script : List Reply) (trace : List Call)
      → eq_ℤ r.ret minus_one ≡ false
      → has_bit 0 (nth_or_zero 0 r.bytes) ≡ false
      → poll_client write_message read_message fuel socket_fd
          (record { script = r ∷ script; trace = trace })
        ≡ starved (record { script = script; trace = poll r.ret ∷ trace })
  unfolding poll_client
  poll_client_spins fuel fd r script trace ok unset =
      rw ok (poll_loop_spins fuel (nth_or_zero 0 r.bytes) fd _ unset)
