-- ===== src/Clients/Closing.antt =====
-- What `epoll_client` and `poll_client` close.
use test_server.Clients.{
  nth_or_zero, poll, epoll_add, epoll_wait, has_bit, poll_loop, epoll_create, wait_loop, ret_of,
  epoll_client, when_ready, poll_client, pure, leave,
}
use test_server.Os.Post.{spend-Post, script_end, bind-Post, if-Post, result-Post, Post}
use test_server.Os.{Reply, ◌>>=◌, close, Call, M, Os}
use test_server.Base.Int.{eq_ℤ, is_zero, is_negative, negsuc, minus_one, pos, ℤ}
use test_server.Base.{
  arith, ◌≤◌, false, zero, true, length, ap, inr, suc, inl, Bool, ℕ, refl, ◌∙◌, [], ◌⊎◌, ◌∷◌, ◌≡◌,
  List,
}
use test_server.Sockets.Ledger.{
  Neutral, open_fds-IsFd, remove_fd-negative, closed, opened, Opens, IsNeutral, open_fds,
}

-- A result of 0 or -1, and only `fds` are open.
abbrev pub Closes : List ℤ → ℤ → Os → Type 0
Closes fds r os = ((r ≡ pos 0) ⊎ (r ≡ minus_one)) × (open_fds os.trace ≡ fds)

closed_both :
    (epoll_fd fd : ℤ) (fds : List ℤ) (trace : List Call)
    → Opens (opened epoll_fd (fd ∷ fds)) (record { script = []; trace = trace })
    → open_fds (close fd ∷ close epoll_fd ∷ trace) ≡ fds
closed_both (pos epoll_fd) fd fds trace h =
    closed fd fds _ (closed (pos epoll_fd) (fd ∷ fds) trace h)
closed_both (negsuc epoll_fd) fd fds trace h = closed fd fds (close (negsuc epoll_fd) ∷ trace) (
    unfold open_fds in
    (remove_fd-negative (negsuc epoll_fd) (open_fds trace) refl (open_fds-IsFd trace) ∙ h))

module _ (write_message read_message : ℤ → M ℤ) (write_neutral : IsNeutral write_message)
    (read_neutral : IsNeutral read_message) where
  leave-Closes :
      (epoll_fd fd ret : ℤ) (fds : List ℤ) (os : Os)
      → Opens (opened epoll_fd (fd ∷ fds)) os
      → ((ret ≡ pos 0) ⊎ (ret ≡ minus_one))
      → Post (Closes fds) (leave write_message read_message epoll_fd fd ret os)
  leave-Closes epoll_fd fd ret fds os h answer =
      result-Post (λ _. close epoll_fd) os _ (Closes fds)
        λ r rest.
          result-Post (λ _. close fd) (record { script = rest; trace = close epoll_fd ∷ os.trace })
            (λ _. pure ret) (Closes fds)
            λ r' rest'. (answer, closed_both epoll_fd fd fds os.trace h)

  ret_of-cases :
      (count : ℤ)
      → (ret_of write_message read_message count ≡ pos 0)
        ⊎ (ret_of write_message read_message count ≡ minus_one)
  ret_of-cases (pos n) = inl refl
  ret_of-cases (negsuc n) = inr refl

  -- A callback, and what comes after it.
  act-Post :
      (act : ℤ → M ℤ) (fd : ℤ) (os : Os) (fds : List ℤ) (f : ℤ → M ℤ) (R : ℤ → Os → Type 0)
      → IsNeutral act
      → Opens fds os
      → ((count : ℤ) (after : Os)
          → Opens fds after
          → length after.script ≤ length os.script
          → Post R (f count after))
      → Post R ((act fd >>= f) os)
  act-Post act fd os fds f R neutral h k =
      bind-Post (act fd os) f (Neutral os) R (neutral fd os)
        λ count after (same, spent). k count after (same ∙ h) spent

  wait_loop-Closes :
      (fuel : ℕ) (epoll_fd fd : ℤ) (fds : List ℤ) (os : Os)
      → Opens (opened epoll_fd (fd ∷ fds)) os
      → length os.script ≤ fuel
      → Post (Closes fds) (wait_loop write_message read_message fuel epoll_fd fd os)
  unfolding wait_loop open_fds
  wait_loop-Closes zero epoll_fd fd fds os h enough = script_end os.script enough
  wait_loop-Closes (suc fuel) epoll_fd fd fds os h enough =
      spend-Post (epoll_wait (pos 1)) os _ (Closes fds) λ ret rest s0.
        let next : Os = record { script = rest; trace = epoll_wait (pos 1) ret ∷ os.trace } in
        if-Post (is_negative ret) _ _ next (Closes fds)
          (λ _. leave-Closes epoll_fd fd minus_one fds next h (inr refl))
          λ _.
            if-Post (is_zero ret) _ _ next (Closes fds)
              (λ _. wait_loop-Closes fuel epoll_fd fd fds next h (omega arith))
              λ _.
                act-Post read_message fd next (opened epoll_fd (fd ∷ fds)) _ (Closes fds)
                  read_neutral h
                  λ count after e _. leave-Closes epoll_fd fd _ fds after e (ret_of-cases count)

  -- Whatever the system and the two functions answer, unless they are undefined or the replies run
  -- out, `epoll_client` returns 0 or -1, and has closed both the socket and what epoll_create made.
  pub epoll_client-Closes :
      (socket_fd : ℤ) (fds : List ℤ) (os : Os)
      → open_fds os.trace ≡ socket_fd ∷ fds
      → Post (Closes fds) (epoll_client write_message read_message socket_fd os)
  unfolding epoll_client open_fds
  epoll_client-Closes fd fds os h = result-Post epoll_create os _ (Closes fds) λ epoll_fd rest.
      let both = ap (opened epoll_fd) h in
      result-Post epoll_add (record { script = rest; trace = epoll_create epoll_fd ∷ os.trace }) _
        (Closes fds)
        λ added rest1.
          let next : Os = record {
            script = rest1;
            trace = epoll_add added ∷ epoll_create epoll_fd ∷ os.trace;
          } in
          if-Post (is_negative added) _ _ next (Closes fds)
            (λ _. leave-Closes epoll_fd fd minus_one fds next both (inr refl))
            λ _.
              act-Post write_message fd next (opened epoll_fd (fd ∷ fds)) _ (Closes fds)
                write_neutral both
                λ count after e _.
                  if-Post (is_negative count) _ _ after (Closes fds)
                    (λ _. leave-Closes epoll_fd fd minus_one fds after e (inr refl))
                    λ _.
                      wait_loop-Closes (length after.script) epoll_fd fd fds after e (omega arith)

  -- `when_ready`, by its three ends.
  pub when_ready-Post :
      (ready : Bool) (act : ℤ → M ℤ) (fd : ℤ) (fds : List ℤ) (rest : M ℤ) (R : ℤ → Os → Type 0)
      (os : Os)
      → IsNeutral act
      → Opens (fd ∷ fds) os
      → ((after : Os) → open_fds after.trace ≡ fds → R minus_one after)
      → ((after : Os)
          → Opens (fd ∷ fds) after
          → length after.script ≤ length os.script
          → Post R (rest after))
      → Post R (when_ready write_message read_message ready act fd rest os)
  unfolding when_ready
  when_ready-Post false act fd fds rest R os neutral h failed k = k os h (omega arith)
  when_ready-Post true act fd fds rest R os neutral h failed k =
      act-Post act fd os (fd ∷ fds) _ R neutral h λ count after e spent.
        if-Post (is_negative count) _ _ after R
          (λ _.
            result-Post (λ _. close fd) after (λ _. pure minus_one) R
              λ r rest'. failed _ (closed fd fds after.trace e))
          λ _. k after e spent

  -- With a socket that poll finds readable, or a poll that fails, `poll_client` returns 0 or -1
  -- with the socket closed, unless the two functions are undefined or the replies run out; one
  -- round of its loop is enough.
  pub poll_client-Closes :
      (fuel : ℕ) (socket_fd : ℤ) (fds : List ℤ) (r : Reply) (script : List Reply)
      (trace : List Call)
      → open_fds trace ≡ socket_fd ∷ fds
      → (eq_ℤ r.ret minus_one ≡ true) ⊎ (has_bit 0 (nth_or_zero 0 r.bytes) ≡ true)
      → Post (Closes fds) (
          poll_client write_message read_message
            (suc fuel)
            socket_fd
            (record { script = r ∷ script; trace = trace }))
  unfolding poll_client poll_loop open_fds
  poll_client-Closes fuel fd fds r script trace h (inl failed) = rw failed (
      result-Post (λ _. close fd) (record { script = script; trace = poll r.ret ∷ trace })
        (λ _. pure minus_one) (Closes fds)
        λ r' rest'. (inr refl, closed fd fds (poll r.ret ∷ trace) h))
  poll_client-Closes fuel fd fds r script trace h (inr readable) = rw readable (
      if-Post (eq_ℤ r.ret minus_one) _ _ _ (Closes fds)
        (λ _.
          result-Post (λ _. close fd) (record { script = script; trace = poll r.ret ∷ trace })
            (λ _. pure minus_one) (Closes fds)
            λ r' rest'. (inr refl, closed fd fds (poll r.ret ∷ trace) h))
        λ _.
          when_ready-Post true read_message fd fds _ (Closes fds)
            (record { script = script; trace = poll r.ret ∷ trace }) read_neutral h
            (λ after e. (inr refl, e))
            λ middle e _.
              when_ready-Post true write_message fd fds _ (Closes fds) middle write_neutral e
                (λ after e'. (inr refl, e'))
                λ after e' _.
                  result-Post (λ _. close fd) after (λ _. pure (pos 0)) (Closes fds)
                    λ r' rest'. (inl refl, closed fd fds after.trace e'))
