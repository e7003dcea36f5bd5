-- ===== src/SocketTests/Verdicts.antt =====
-- Which tests of the socket programs cannot pass.
use test_server.Base.{
  not, ℕ, zero, suc, Bool, true, false, ◌&&◌, some, ◌≡◌, ◌≢◌, refl, if◌then◌else◌, length,
}
use test_server.Base.Int.{◌+ℤ◌, pos, ℤ, is_zero, is_negative, is_positive, minus_one}
use test_server.Os.{
  filled, select, sleep, has_bit, state_at, result, fork, close, accept, wait, pure, Os, M, Outcome,
  done, fault, starved, bind_outcome,
}
use test_server.Sockets.{sample_listen, sample_connect}
use test_server.Serve.{pthread_func, child, process_loop, process_accept, Leaves, returned, exited}
use test_server.Clients.{when_ready, select_loop, select_client}
use test_server.SocketTests.{process_test, select_test, client_test, verdict_of}

-- What holds of a result, if there is one.
abbrev pub AtEnd {ℓ} : {A : Type ℓ} → (A → Type 0) → Outcome A → Type 0
AtEnd P (done a os) = P a
AtEnd P (fault os) = Unit
AtEnd P (starved os) = Unit

module _ {ℓ κ} {A : Type ℓ} {B : Type κ} where
  bind-AtEnd :
      (o : Outcome A) (f : A → M B) (P : A → Type 0) (Q : B → Type 0)
      → AtEnd P o
      → ((a : A) (os : Os) → P a → AtEnd Q (f a os))
      → AtEnd Q (bind_outcome o f)
  bind-AtEnd (done a os) f P Q h k = k a os h
  bind-AtEnd (fault os) f P Q h k = tt
  bind-AtEnd (starved os) f P Q h k = tt

  then-AtEnd :
      (o : Outcome A) (f : A → M B) (Q : B → Type 0)
      → ((a : A) (os : Os) → AtEnd Q (f a os))
      → AtEnd Q (bind_outcome o f)
  then-AtEnd (done a os) f Q k = k a os
  then-AtEnd (fault os) f Q k = tt
  then-AtEnd (starved os) f Q k = tt

module _ {ℓ} {A : Type ℓ} where
  if-AtEnd :
      (b : Bool) (m n : M A) (os : Os) (Q : A → Type 0)
      → AtEnd Q (m os)
      → AtEnd Q (n os)
      → AtEnd Q ((if b then m else n) os)
  if-AtEnd true m n os Q h k = h
  if-AtEnd false m n os Q h k = k

-- A process that comes back from its server was not served: the result is -1.
abbrev ComesBack : Leaves → Type 0
ComesBack (returned ret) = ret ≡ minus_one
ComesBack (exited status) = Unit

module _ (write_message read_message : ℤ → M ℤ) where
  child-ComesBack : (fd : ℤ) (os : Os) → AtEnd ComesBack (child write_message read_message fd os)
  unfolding child
  child-ComesBack fd os = then-AtEnd (result fork os) _ ComesBack λ pid mid.
      if-AtEnd (is_negative pid) _ _ mid ComesBack
        (then-AtEnd (result (λ r. close fd) mid) (λ r. pure (exited 1)) ComesBack λ r next. tt)
        (if-AtEnd (is_positive pid) _ _ mid ComesBack
          (then-AtEnd (result (λ r. close fd) mid) (λ r. pure (exited 0)) ComesBack λ r next. tt)
          (then-AtEnd (pthread_func write_message read_message fd mid) _ ComesBack λ r next.
            then-AtEnd (result (λ r. close fd) next) (λ r. pure (exited 0)) ComesBack
              λ r' last. tt))

  process_loop-ComesBack :
      (fuel : ℕ) (listening_fd : ℤ) (os : Os)
      → AtEnd ComesBack (process_loop write_message read_message fuel listening_fd os)
  unfolding process_loop
  process_loop-ComesBack zero listening_fd os = tt
  process_loop-ComesBack (suc fuel) listening_fd os =
      then-AtEnd (result (accept listening_fd) os) _ ComesBack λ linkage_fd mid.
        if-AtEnd (is_negative linkage_fd) _ _ mid ComesBack refl (
          then-AtEnd (result fork mid) _ ComesBack λ pid next.
            if-AtEnd (is_negative pid) _ _ next ComesBack refl (
              if-AtEnd (is_positive pid) _ _ next ComesBack
                (then-AtEnd (result (λ r. wait) next) _ ComesBack λ r last.
                  then-AtEnd (result (λ r. close linkage_fd) last) _ ComesBack
                    λ r' end. process_loop-ComesBack fuel listening_fd end)
                (then-AtEnd (result (λ r. close listening_fd) next) _ ComesBack
                  λ r last. child-ComesBack linkage_fd last)))

  -- No process comes back from TEST(..., PROCESS) with a test that has passed: its server returns
  -- -1 only.
  pub process_test-Fails :
      (os : Os)
      → AtEnd (λ verdict. verdict ≢ some true) (process_test write_message read_message os)
  unfolding process_test process_accept
  process_test-Fails os =
      then-AtEnd (sample_listen 9922 os) _ (λ verdict. verdict ≢ some true)
        λ (listening_fd, listened) mid.
          bind-AtEnd (process_loop write_message read_message (length mid.script) listening_fd mid)
            (λ leaves. pure (verdict_of listened leaves)) ComesBack (λ verdict. verdict ≢ some true)
            (process_loop-ComesBack (length mid.script) listening_fd mid)
            λ leaves last back. not_passed listened leaves back
    where
      not_passed :
          (listened : ℤ) (leaves : Leaves)
          → ComesBack leaves
          → verdict_of listened leaves ≢ some true
      not_passed listened (returned ret) back e = failing (is_zero listened) (rw back at e)
        where
          failing : (b : Bool) → some (b && false) ≢ some true
          failing true e' = cc
          failing false e' = cc
      not_passed listened (exited status) back e = absurd (cc)

  when_ready-AtEnd :
      (ready : Bool) (act : ℤ → M ℤ) (fd : ℤ) (rest : M ℤ) (os : Os)
      → ((next : Os) → AtEnd (λ ret. ret ≡ minus_one) (rest next))
      → AtEnd (λ ret. ret ≡ minus_one) (when_ready write_message read_message ready act fd rest os)
  unfolding when_ready
  when_ready-AtEnd ready act fd rest os goes_on =
      if-AtEnd (not ready) rest _ os (λ ret. ret ≡ minus_one) (goes_on os)
        (then-AtEnd (act fd os) _ (λ ret. ret ≡ minus_one)
          λ count mid.
            if-AtEnd (is_negative count) _ rest mid (λ ret. ret ≡ minus_one)
              (then-AtEnd (result (λ r. close fd) mid) (λ r. pure minus_one)
                (λ ret. ret ≡ minus_one) λ r next. refl)
              (goes_on mid))

  select_loop-AtEnd :
      (fuel : ℕ) (fd : ℤ) (os : Os)
      → AtEnd (λ ret. ret ≡ minus_one) (select_loop write_message read_message fuel fd os)
  unfolding select_loop
  select_loop-AtEnd zero fd os = tt
  select_loop-AtEnd (suc fuel) fd os =
      then-AtEnd (filled (select (fd +ℤ pos 1)) os) _ (λ ret. ret ≡ minus_one)
        λ (ret, states) mid.
          if-AtEnd (is_positive ret) _ _ mid (λ ret. ret ≡ minus_one)
            (when_ready-AtEnd (has_bit 0 (state_at fd states)) read_message fd _ mid λ reading.
              when_ready-AtEnd (has_bit 1 (state_at fd states)) write_message fd _ reading λ again.
                then-AtEnd (result (λ r. sleep) again) _ (λ ret. ret ≡ minus_one)
                  λ r last. select_loop-AtEnd fuel fd last)
            tt

  -- TEST(CHAR, SELECT) of the client does not pass: where select_client returns at all, it is -1.
  pub select_test-Fails :
      (os : Os) → AtEnd (λ passed. passed ≡ false) (select_test write_message read_message os)
  unfolding select_test client_test select_client
  select_test-Fails os =
      then-AtEnd (sample_connect os) _ (λ passed. passed ≡ false)
        λ (socket_fd, connected) mid.
          bind-AtEnd (select_loop write_message read_message (length mid.script) socket_fd mid)
            (λ ret. pure (is_zero connected && is_zero ret)) (λ ret. ret ≡ minus_one)
            (λ passed. passed ≡ false) (select_loop-AtEnd (length mid.script) socket_fd mid)
            λ ret last back. rw back (failing (is_zero connected))
    where
      failing : (b : Bool) → (b && false) ≡ false
      failing true = refl
      failing false = refl

  -- Whatever the system and the functions that they pass on do: no process comes back from
  -- TEST(..., PROCESS) of the server with a test that has passed, and TEST(CHAR, SELECT) of the
  -- client has not passed if it ends.
  pub socket_tests-Fail :
      (os : Os)
      → AtEnd (λ verdict. verdict ≢ some true) (process_test write_message read_message os)
        × AtEnd (λ passed. passed ≡ false) (select_test write_message read_message os)
  socket_tests-Fail os = (process_test-Fails os, select_test-Fails os)
