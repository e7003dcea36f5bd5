-- ===== src/Select/Undefined.antt =====
-- How `select_accept` ends, on a table with a free slot.
use test_server.Os.Post.{
  IsFuelled, script_end, AllFuelled, Post-map, result-Post, filled-Post, then-Post, if-Post,
  bind-Post, checked-Post, Post,
}
use test_server.Base.{
  arith, ◌≤◌, ◌&&◌, ap, false, none, length, replicate, if◌then◌else◌, some, Bool, refl, zero, suc,
  true, [], ◌⊎◌, inl, inr, ◌≡◌, ◌||◌, ℕ, ◌∷◌, List,
}
use test_server.Base.Int.{eq_ℤ-refl, eq_ℤ→eq, negsuc, ◌+ℤ◌, eq_ℤ, pos, minus_one, is_zero, ℤ}
use test_server.Sockets.{accept_socket}
use test_server.Select.{
  is_member, in_range, watch, select_accept, fd_isset, select_accept_loop, add_fd, serve_ready,
}
use test_server.Os.{
  accept, fault, state_at, has_bit, Reply, pure, ◌>>=◌, select, close, ◌>>◌, Call, Os, M,
}

-- Some slot is -1.
abbrev pub HasFree : List ℤ → Type 0
HasFree [] = ⊥
HasFree (slot ∷ table) = (slot ≡ minus_one) ⊎ HasFree table

abbrev Never : ℤ → Os → Type 0
Never r os = ⊥

-- The loop of FD_ISSET does not end on a table with a free slot, whatever is called before.
serve_ready-Never :
    (act : ℤ → M ℤ) (fds : List ℤ) (bit : ℕ) (states : List ℕ) (table : List ℤ) (os : Os)
    → AllFuelled act
    → HasFree table
    → Post Never (serve_ready act fds bit states table os)
unfolding serve_ready
serve_ready-Never act fds bit states [] os fuelled h = absurd h
serve_ready-Never act fds bit states (slot ∷ table) os fuelled (inl e) = rw e tt
serve_ready-Never act fds bit states (slot ∷ table) os fuelled (inr h) =
    checked-Post (fd_isset slot fds bit states) _ os Never λ ready found.
      if-Post ready _ _ os Never
        (λ _.
          then-Post (act slot os) (λ _. serve_ready act fds bit states table) Never
            (fuelled slot os) λ r after. serve_ready-Never act fds bit states table after fuelled h)
        λ _. serve_ready-Never act fds bit states table os fuelled h

-- The table with a new connection in its first slot, or as it was.
add_fd-HasFree : (fd : ℤ) (table : List ℤ) → HasFree table → HasFree (add_fd fd (minus_one ∷ table))
unfolding add_fd
add_fd-HasFree fd table h = inr h

module _ (write_message read_message : ℤ → M ℤ) where
  -- All that happens before `select_accept` returns.
  abbrev pub Idle : ℤ → List Call → ℤ → Os → Type 0
  Idle listening_fd trace r after =
      (r ≡ pos 0)
      × ((ret : ℤ) × ((ret ≡ pos 0) ⊎ (ret ≡ minus_one))
          × (after.trace ≡ close listening_fd ∷ select (listening_fd +ℤ pos 1) ret ∷ trace))

  stopped :
      (ret : ℤ) → (is_zero ret || eq_ℤ ret minus_one) ≡ true → (ret ≡ pos 0) ⊎ (ret ≡ minus_one)
  stopped (pos zero) h = inl refl
  stopped (pos (suc n)) h = absurd (cc)
  stopped (negsuc n) h = inr (eq_ℤ→eq (negsuc n) minus_one h)

  -- The end of a round in which select reports something: no way to the next one.
  round-Never :
      (fuel : ℕ) (listening_fd max_fd : ℤ) (fds table : List ℤ) (states : List ℕ) (os : Os)
      → AllFuelled read_message
      → HasFree table
      → Post Never (
          (serve_ready read_message (listening_fd ∷ fds) 0 states table
              >> (serve_ready write_message fds 1 states table
                  >> select_accept_loop write_message read_message fuel listening_fd table max_fd))
            os)
  round-Never fuel listening_fd max_fd fds table states os fuelled h =
      bind-Post (serve_ready read_message (listening_fd ∷ fds) 0 states table os) _ Never Never
        (serve_ready-Never read_message (listening_fd ∷ fds) 0 states table os fuelled h)
        λ r after never. absurd never

  accept_socket-IsFuelled : (listening_fd : ℤ) (os : Os) → IsFuelled (accept_socket listening_fd os)
  unfolding accept_socket
  accept_socket-IsFuelled listening_fd os =
      result-Post (accept listening_fd) os _ (λ _ _. Unit) λ ret rest. tt

  -- What a round does about the listener.
  entered-HasFree :
      (ready : Bool) (listening_fd : ℤ) (table : List ℤ) (os : Os)
      → HasFree table
      → Post
          (λ t _. HasFree t)
          ((if ready
              then (accept_socket listening_fd >>= λ fd. pure (add_fd fd (minus_one ∷ table)))
              else pure (minus_one ∷ table))
            os)
  entered-HasFree true listening_fd table os h =
      then-Post (accept_socket listening_fd os) (λ fd. pure (add_fd fd (minus_one ∷ table)))
        (λ t _. HasFree t) (accept_socket-IsFuelled listening_fd os)
        λ fd after. add_fd-HasFree fd table h
  entered-HasFree false listening_fd table os h = inl refl

  first_round-Idle :
      (fuel : ℕ) (listening_fd : ℤ) (table : List ℤ) (os : Os)
      → AllFuelled read_message
      → length os.script ≤ fuel
      → HasFree table
      → watch (minus_one ∷ table) listening_fd ≡ some ([], listening_fd)
      → Post (Idle listening_fd os.trace) (
          select_accept_loop write_message read_message fuel listening_fd
            (minus_one ∷ table)
            listening_fd
            os)
  unfolding select_accept_loop
  first_round-Idle zero listening_fd table os fuelled enough h watched = script_end os.script enough
  first_round-Idle (suc fuel) listening_fd table os fuelled enough h watched =
      checked-Post (if in_range listening_fd then some (pos 0) else none) _ os Ends λ _ _.
        rw watched (
          filled-Post (select (listening_fd +ℤ pos 1)) os _ Ends λ ret states rest spent.
            let next : Os = record {
              script = rest;
              trace = select (listening_fd +ℤ pos 1) ret ∷ os.trace;
            } in
            if-Post (is_zero ret || eq_ℤ ret minus_one) _ _ next Ends
              (λ stops.
                result-Post (λ _. close listening_fd) next (λ _. pure (pos 0)) Ends
                  λ r rest'. (refl, (ret, stopped ret stops, refl)))
              λ goes.
                checked-Post (fd_isset listening_fd (listening_fd ∷ []) 0 states) _ next Ends
                  λ ready found.
                    bind-Post _ _ (λ t _. HasFree t) Ends
                      (entered-HasFree ready listening_fd table next h)
                      λ t after free.
                        Post-map _ (λ r end never. absurd never)
                          (round-Never fuel listening_fd listening_fd [] t states after fuelled
                            free))
    where
      Ends : ℤ → Os → Type 0
      Ends = Idle listening_fd os.trace

  watch-replicate : (n : ℕ) (max_fd : ℤ) → watch (replicate n minus_one) max_fd ≡ some ([], max_fd)
  unfolding watch
  watch-replicate zero max_fd = refl
  watch-replicate (suc n) max_fd = watch-replicate n max_fd

  -- If read_message does not run for ever, every run of `select_accept` is undefined (by FD_ISSET
  -- on a slot that is -1), or uses up the replies, or makes one select, which returns 0 or -1,
  -- closes the listener and returns 0.
  pub select_accept-Idle :
      (listening_fd : ℤ) (os : Os)
      → AllFuelled read_message
      → Post (Idle listening_fd os.trace) (select_accept write_message read_message listening_fd os)
  unfolding select_accept
  select_accept-Idle listening_fd os fuelled =
      first_round-Idle (length os.script) listening_fd (replicate 1023 minus_one) os fuelled
        (omega arith) (inl refl) (watch-replicate 1024 listening_fd)

  first_round_undefined :
      (fuel : ℕ) (listening_fd : ℤ) (table : List ℤ) (r : Reply) (script : List Reply)
      (trace : List Call)
      → watch (minus_one ∷ table) listening_fd ≡ some ([], listening_fd)
      → in_range listening_fd ≡ true
      → (is_zero r.ret || eq_ℤ r.ret minus_one) ≡ false
      → has_bit 0 (state_at listening_fd r.bytes) ≡ false
      → select_accept_loop write_message read_message
          (suc fuel)
          listening_fd
          (minus_one ∷ table)
          listening_fd
          (record { script = r ∷ script; trace = trace })
        ≡ fault (record { script = script; trace = select (listening_fd +ℤ pos 1) r.ret ∷ trace })
  unfolding select_accept_loop serve_ready
  first_round_undefined fuel listening_fd table r script trace watched range goes quiet =
      let inside : (if in_range listening_fd then some (pos 0) else none) ≡ some (pos 0) =
        ap (λ (b : Bool). if b then some (pos 0) else none) range in
      let unset : (if in_range listening_fd
            then some (
                is_member listening_fd (listening_fd ∷ [])
                && has_bit 0 (state_at listening_fd r.bytes))
            else none)
          ≡ some false =
        rw (range, eq_ℤ-refl listening_fd, quiet) refl in
      rw (inside, watched, goes, unset) refl

  -- A listener in range, and a first select that finds a descriptor ready, but not the listener:
  -- the first slot of the table is -1, and FD_ISSET on it is undefined.
  select_accept_undefined :
      (listening_fd : ℤ) (r : Reply) (script : List Reply) (trace : List Call)
      → in_range listening_fd ≡ true
      → (is_zero r.ret || eq_ℤ r.ret minus_one) ≡ false
      → has_bit 0 (state_at listening_fd r.bytes) ≡ false
      → select_accept write_message read_message listening_fd
          (record { script = r ∷ script; trace = trace })
        ≡ fault (record { script = script; trace = select (listening_fd +ℤ pos 1) r.ret ∷ trace })
  unfolding select_accept
  select_accept_undefined listening_fd r script trace range goes quiet =
      first_round_undefined (length script) listening_fd (replicate 1023 minus_one) r script trace
        (watch-replicate 1024 listening_fd) range goes quiet
