-- ===== src/Sessions/Runs.antt =====
-- What the two programs of socket_basic leave open at their end.
use test_server.Sessions.Threads.{thread_server-Leaves}
use test_server.Framing.Transfer.{read_chars, write_chars}
use test_server.Framing.Protobuf.{read_protobuf, write_protobuf}
use test_server.Sessions.Quiet.{
  printing-IsQuiet, write_structs-IsQuiet, read_chars-IsQuiet, write_chars-IsQuiet,
  read_protobuf-IsQuiet, write_protobuf-IsQuiet, read_struct-IsQuiet, write_struct-IsQuiet,
  read_char-IsQuiet, write_char-IsQuiet,
}
use test_server.Sockets.{listen_socket}
use test_server.Sessions.Programs.{
  client_addresses, client_rows, client_read_structs, client_write_structs, client_read_chars,
  client_write_chars, client_read_protobuf, client_write_protobuf, client_read_struct,
  client_write_struct, client_read_char, client_write_char, client_structs, client_chars,
  client_proto, client_struct, client_char, printing, server_addresses, server_rows, server_user,
  thread_char, fork_char, server_structs, server_chars, server_proto, server_struct, server_text,
  server_char,
}
use test_server.Sessions.Fork.{fork_loop-Leaves, ForkLeaves}
use test_server.Framing.StructTransfer.{
  read_structs, write_structs, read_struct, write_struct, read_char, write_char,
}
use test_server.Generated.{TextMessage}
use test_server.Sessions.Suites.{
  client_program, exit_code, server_program, client_tests, RunsInOrder, server_tests, in_process,
  passing, run_in_order,
}
use test_server.Sockets.Ledger.{open_fds}
use test_server.Os.Post.{Post-map, if-Post, bind-Post, Post}
use test_server.Sessions.Ledger.{
  answer_func-IsServing, Opened-down, Opened-up, listen_socket-Opened, thread_func-IsServing,
  Leaks-on, Leaks-more, server_session-Leaves, client_session-Leaves, SessionLeaves, Opened,
  IsServing, IsQuiet, Leaks,
}
use test_server.Base.{
  subst, codes, replicate, inr, inl, false, ◌⊎◌, append_assoc, sym, ap, ◌∙◌, length-append, ◌≡◌,
  ◌&&◌, ◌++◌, ◌∷◌, length, refl, ◌+◌, ◌≤◌, arith, if◌then◌else◌, Bool, [], true, ℕ, List,
}
use test_server.Os.{Call, Os, M, pure}
use test_server.Base.Int.{is_positive, pos, ℤ}
use test_server.Sessions.{
  father, child, fork_loop, listen_socket, Side, thread_func, server_session, client_session, ℕ,
  pure, fork_server, ℤ, Verdict,
}

-- At most `p` descriptors more after a test that passes, and at most `n` after one that fails.
abbrev pub IsTidy : ℕ → ℕ → M Bool → Type 0
IsTidy p n test =
    (os : Os) → Post (λ passed. Leaks (if passed then p else n) (open_fds os.trace)) (test os)

-- The leaks of two parts add up.
Leaks-after :
    (fds : List ℤ) (os after : Os) (m n : ℕ)
    → Leaks m fds os
    → Leaks n (open_fds os.trace) after
    → Leaks (m + n) fds after
Leaks-after fds os after m n (first, few, h) (second, few', h') =
    let e : length (second ++ first) ≡ length second + length first = length-append second first in
    (
      second ++ first,
      omega (arith, e),
      h' ∙ (ap (◌++◌ second) h ∙ sym (append_assoc second first fds)),
    )

skip-IsTidy : IsTidy 0 0 (pure true)
skip-IsTidy os = ([], omega arith, refl)

one_more-IsTidy :
    (p n p' n' : ℕ) (test : M Bool) (tests : List (M Bool))
    → IsTidy p n test
    → IsTidy p' n' (run_in_order tests)
    → p ≤ n
    → p' ≤ n'
    → IsTidy (p + p') (n + n') (run_in_order (test ∷ tests))
one_more-IsTidy p n p' n' test tests first rest less less' os =
    bind-Post (test os) _ (λ passed. Leaks (if passed then p else n) (open_fds os.trace)) R
      (first os)
      λ ok mid leaks.
        bind-Post (run_in_order tests mid) _
          (λ passed. Leaks (if passed then p' else n') (open_fds mid.trace)) R (rest mid)
          λ ok' after leaks'. both ok ok' after (
            Leaks-after (open_fds os.trace) mid after (if ok then p else n) (if ok' then p' else n')
              leaks leaks')
  where
    R : Bool → Os → Type 0
    R passed = Leaks (if passed then p + p' else n + n') (open_fds os.trace)

    both :
        (ok ok' : Bool) (after : Os)
        → Leaks ((if ok then p else n) + (if ok' then p' else n')) (open_fds os.trace) after
        → R (ok && ok') after
    both true true after h = h
    both true false after h = Leaks-more _ after _ _ h (omega arith)
    both false true after h = Leaks-more _ after _ _ h (omega arith)
    both false false after h = h

-- The bounds of several tests, and their sums.
abbrev passed_sum : List (ℕ × ℕ) → ℕ
passed_sum [] = 0
passed_sum ((p, n) ∷ bounds) = p + passed_sum bounds

abbrev failed_sum : List (ℕ × ℕ) → ℕ
failed_sum [] = 0
failed_sum ((p, n) ∷ bounds) = n + failed_sum bounds

abbrev AllTidy : List (ℕ × ℕ) → List (M Bool) → Type 0
AllTidy [] [] = Unit {0}
AllTidy ((p, n) ∷ bounds) (test ∷ tests) = (p ≤ n) × (IsTidy p n test × AllTidy bounds tests)
AllTidy _ _ = ⊥

sums :
    (bounds : List (ℕ × ℕ)) (tests : List (M Bool))
    → AllTidy bounds tests
    → passed_sum bounds ≤ failed_sum bounds
sums [] [] h = omega arith
sums ((p, n) ∷ bounds) (test ∷ tests) (less, (first, rest)) = omega (arith, sums bounds tests rest)
sums [] (test ∷ tests) h = absurd h
sums ((p, n) ∷ bounds) [] h = absurd h

run_in_order-IsTidy :
    (bounds : List (ℕ × ℕ)) (tests : List (M Bool))
    → AllTidy bounds tests
    → IsTidy (passed_sum bounds) (failed_sum bounds) (run_in_order tests)
run_in_order-IsTidy [] [] h = skip-IsTidy
run_in_order-IsTidy ((p, n) ∷ bounds) (test ∷ tests) (less, (first, rest)) =
    one_more-IsTidy p n (passed_sum bounds) (failed_sum bounds) test tests first
      (run_in_order-IsTidy bounds tests rest) less (sums bounds tests rest)
run_in_order-IsTidy [] (test ∷ tests) h = absurd h
run_in_order-IsTidy ((p, n) ∷ bounds) [] h = absurd h

module _ {P : Type 0} where
  -- A test of suite A, by what it leaves open.
  passing-IsTidy :
      (n : ℕ) (test : M (Verdict P))
      → ((os : Os) → Post (SessionLeaves n (open_fds os.trace)) (test os))
      → IsTidy 0 n (passing test)
  passing-IsTidy n test h os =
      bind-Post (test os) _ (SessionLeaves n (open_fds os.trace)) R (h os)
        λ v after leaves. tidy v.passed after leaves
    where
      R : Bool → Os → Type 0
      R passed = Leaks (if passed then 0 else n) (open_fds os.trace)

      tidy :
          (passed : Bool) (after : Os)
          → ((passed ≡ true) × (open_fds after.trace ≡ open_fds os.trace))
            ⊎ ((passed ≡ false) × Leaks n (open_fds os.trace) after)
          → R passed after
      tidy passed after (inl (ok, e)) = rw ok ([], omega arith, e)
      tidy passed after (inr (failed, leaks)) = rw failed leaks

  server_test-IsTidy :
      (serve : ℤ → M (Verdict P)) → IsServing serve → IsTidy 0 2 (passing (server_session serve))
  server_test-IsTidy serve serving =
      passing-IsTidy 2 (server_session serve) (server_session-Leaves serve serving)

  client_test-IsTidy :
      (write_message : ℤ → M ℤ) (read_message : ℤ → M (ℤ × P))
      → IsQuiet write_message
      → IsQuiet read_message
      → IsTidy 0 1 (passing (client_session write_message read_message))
  client_test-IsTidy write_message read_message quiet quiet' =
      passing-IsTidy 1 (client_session write_message read_message)
        (client_session-Leaves write_message read_message quiet quiet')

  fork_server-IsTidy :
      (serve : ℤ → M (Verdict P)) → IsServing serve → IsTidy 1 2 (in_process (fork_server serve))
  unfolding fork_server
  fork_server-IsTidy serve serving os =
      bind-Post (fork_server serve os) _ Q (λ passed. Leaks (if passed then 1 else 2) fds) sides
        λ (side, ok) after leaks. leaks
    where
      fds : List ℤ
      fds = open_fds os.trace

      Q : Side × Bool → Os → Type 0
      Q (side, ok) = Leaks (if ok then 1 else 2) fds

      tidy :
          (l : ℤ) (start : List Call) (r : Side × Bool) (after : Os)
          → ForkLeaves 3 l fds start r after
          → Q r after
      tidy l start (father, true) after (trace, e) = ([], omega arith, e)
      tidy l start (father, false) after leaks = Leaks-on fds after l 1 leaks
      tidy l start (child, true) after e = (l ∷ [], omega arith, e)
      tidy l start (child, false) after leaks = Leaks-on fds after l 1 leaks

      sides : Post Q (fork_server serve os)
      sides = bind-Post (listen_socket os) _ (Opened fds) Q (listen_socket-Opened os) λ l next o.
          if-Post (is_positive l) _ _ next Q
            (λ up.
              Post-map (fork_loop serve 3 l next) (tidy l next.trace)
                (fork_loop-Leaves serve serving 3 l fds next (Opened-up _ _ next o up)))
            λ down. Leaks-more fds next 1 2 (Opened-down _ _ next o down) (omega arith)

-- A quiet pair of functions, in the order of thread_func and in that of answer_func.
char-IsServing : IsServing (thread_func (write_char server_text) (read_char (replicate 100 0)))
char-IsServing =
    thread_func-IsServing (write_char server_text) (read_char (replicate 100 0))
      (write_char-IsQuiet server_text) (read_char-IsQuiet (replicate 100 0))

module _ (request reply : TextMessage) (stale table : List ℕ) where
  server_tests-IsTidy : IsTidy 1 16 (run_in_order (server_tests request reply stale table))
  unfolding server_tests server_char server_struct server_proto server_chars server_structs
      fork_char thread_char
  server_tests-IsTidy =
      run_in_order-IsTidy
        ((0, 2) ∷ (0, 2) ∷ (0, 2) ∷ (0, 2) ∷ (0, 2) ∷ (0, 0) ∷ (1, 2) ∷ (0, 4) ∷ [])
        (server_tests request reply stale table)
        ((
          omega arith,
          (
            server_test-IsTidy _ char-IsServing,
            (
              omega arith,
              (
                server_test-IsTidy _ (
                    thread_func-IsServing (write_struct server_user) (read_struct stale)
                      (write_struct-IsQuiet server_user) (read_struct-IsQuiet stale)),
                (
                  omega arith,
                  (
                    server_test-IsTidy _ (
                        answer_func-IsServing (write_protobuf reply (codes "10C.xxx"))
                          (read_protobuf request) (write_protobuf-IsQuiet reply (codes "10C.xxx"))
                          (read_protobuf-IsQuiet request)),
                    (
                      omega arith,
                      (
                        server_test-IsTidy _ (
                            thread_func-IsServing (write_chars server_rows) read_chars
                              (write_chars-IsQuiet server_rows) read_chars-IsQuiet),
                        (
                          omega arith,
                          (
                            server_test-IsTidy _ (
                                thread_func-IsServing (write_structs server_addresses)
                                  (printing (read_structs table))
                                  (write_structs-IsQuiet server_addresses)
                                  (printing-IsQuiet table)),
                            (
                              omega arith,
                              (
                                skip-IsTidy,
                                (
                                  omega arith,
                                  (
                                    fork_server-IsTidy _ char-IsServing,
                                    (omega arith, (thread_server-Leaves _ char-IsServing, tt)),
                                  ),
                                ),
                              ),
                            ),
                          ),
                        ),
                      ),
                    ),
                  ),
                ),
              ),
            ),
          ),
        ))

  client_tests-IsTidy : IsTidy 0 5 (run_in_order (client_tests request reply stale table))
  unfolding client_tests client_char client_struct client_proto client_chars client_structs
      client_write_char client_read_char client_write_struct client_read_struct
      client_write_protobuf client_read_protobuf client_write_chars client_read_chars
      client_write_structs client_read_structs
  client_tests-IsTidy =
      run_in_order-IsTidy ((0, 1) ∷ (0, 1) ∷ (0, 1) ∷ (0, 1) ∷ (0, 1) ∷ (0, 0) ∷ [])
        (client_tests request reply stale table)
        ((
          omega arith,
          (
            client_test-IsTidy _ _ (write_char-IsQuiet (codes "Hello World, Lily."))
                (read_char-IsQuiet (replicate 100 0)),
            (
              omega arith,
              (
                client_test-IsTidy _ _
                    (write_struct-IsQuiet (record { attr1 = 101; attr2 = 201; attr3 = 0 }))
                    (read_struct-IsQuiet stale),
                (
                  omega arith,
                  (
                    client_test-IsTidy _ _ (write_protobuf-IsQuiet request (codes "Knightwu"))
                        (read_protobuf-IsQuiet reply),
                    (
                      omega arith,
                      (
                        client_test-IsTidy _ _ (write_chars-IsQuiet client_rows) read_chars-IsQuiet,
                        (
                          omega arith,
                          (
                            client_test-IsTidy _ _ (write_structs-IsQuiet client_addresses)
                                (printing-IsQuiet table),
                            (omega arith, (skip-IsTidy, tt)),
                          ),
                        ),
                      ),
                    ),
                  ),
                ),
              ),
            ),
          ),
        ))

-- What a program leaves open, by its exit code.
abbrev pub ProgramLeaves : ℕ → ℕ → List ℤ → ℤ → Os → Type 0
ProgramLeaves p n fds code os =
    ((code ≡ pos 0) × Leaks p fds os) ⊎ ((code ≡ pos 1) × Leaks n fds os)

program-Leaves :
    (run_all_tests : List (M Bool) → M ℤ) (p n : ℕ) (tests : List (M Bool)) (os : Os)
    → RunsInOrder run_all_tests
    → IsTidy p n (run_in_order tests)
    → Post (ProgramLeaves p n (open_fds os.trace)) (run_all_tests tests os)
program-Leaves run_all_tests p n tests os in_order tidy = subst (Post R) (sym (in_order tests os)) (
    bind-Post (run_in_order tests os) (λ passed. pure (exit_code passed))
      (λ passed. Leaks (if passed then p else n) (open_fds os.trace)) R (tidy os)
      λ passed after leaks. code passed after leaks)
  where
    R : ℤ → Os → Type 0
    R = ProgramLeaves p n (open_fds os.trace)

    code :
        (passed : Bool) (after : Os)
        → Leaks (if passed then p else n) (open_fds os.trace) after
        → R (exit_code passed) after
    code true after leaks = inl (refl, leaks)
    code false after leaks = inr (refl, leaks)

module _ (request reply : TextMessage) (stale table : List ℕ) (run_all_tests : List (M Bool) → M ℤ)
    (in_order : RunsInOrder run_all_tests) where
  -- If GoogleTest runs the tests in order, then whatever the system answers, the server ends,
  -- unless it is undefined or the replies run out. It returns 0 with at most one descriptor open
  -- that was not open before, or 1 with at most 16 of them.
  pub server_program-Leaves :
      (os : Os)
      → Post
          (ProgramLeaves 1 16 (open_fds os.trace))
          (server_program request reply stale table run_all_tests os)
  unfolding server_program
  server_program-Leaves os =
      program-Leaves run_all_tests 1 16 (server_tests request reply stale table) os in_order
        (server_tests-IsTidy request reply stale table)

  -- So does the client, which returns 0 with the descriptors of before, or 1 with at most five
  -- more.
  pub client_program-Leaves :
      (os : Os)
      → Post
          (ProgramLeaves 0 5 (open_fds os.trace))
          (client_program request reply stale table run_all_tests os)
  unfolding client_program
  client_program-Leaves os =
      program-Leaves run_all_tests 0 5 (client_tests request reply stale table) os in_order
        (client_tests-IsTidy request reply stale table)
