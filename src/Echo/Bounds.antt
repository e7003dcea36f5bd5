-- ===== src/Echo/Bounds.antt =====
-- How many events the echo server asks epoll_wait for, at any time.
use test_server.Os.Safe.{checked-Safe, bind-Safe, ask-Safe, result-Safe, if-Safe, Safe}
use test_server.Os.{
  epoll_del, close, pure, epoll_create, M, write_call, read_call, incoming, epoll_add, accept,
  epoll_wait, Os, listen, bind, setsockopt, socket, outgoing, write, read, Call,
}
use test_server.Sockets.{sample_listen}
use test_server.Framing.StructTransfer.{over}
use test_server.Echo.{echo_reply, echo_main, all_events, echo_loop, one_event, wait_events}
use test_server.Base.Int.{minus_one, is_positive, eq_ℤ, ◌+ℤ◌, negsuc, ◌-ℤ◌, pos, is_negative, ℤ}
use test_server.Base.{
  length, inr, inl, ◌+◌, leb, Bool-cases, false, zero, ◌&&◌, [], arith, none, true, Bool, ◌≤◌, ◌≡◌,
  ◌∷◌, some, suc, Option, List, ℕ,
}

-- The array `evs` has 1000 entries.
abbrev pub InArray : ℤ → Type 0
InArray (pos n) = n ≤ 1000
InArray (negsuc n) = Unit

-- Every epoll_wait was given a maximum that fits.
abbrev pub Bounded : List Call → Type 0
Bounded [] = Unit
Bounded (epoll_wait maximum ret ∷ trace) = InArray maximum × Bounded trace
Bounded (_ ∷ trace) = Bounded trace

abbrev Fits : Option (ℤ × List ℕ) → List Call → Type 0
Fits none trace = Bounded trace
Fits (some (cur_fds, buff)) trace = InArray cur_fds × Bounded trace

abbrev Ends : ℤ → List Call → Type 0
Ends r trace = Bounded trace

one_more : (cur_fds : ℤ) → is_negative (cur_fds -ℤ pos 1000) ≡ true → InArray (cur_fds +ℤ pos 1)
one_more (pos n) h = ground arith
one_more (negsuc zero) h = omega arith
one_more (negsuc (suc n)) h = let e : leb (suc (suc n) + 0) 1 ≡ false = ground arith in rw e tt

one_less : (cur_fds : ℤ) → InArray cur_fds → InArray (cur_fds -ℤ pos 1)
one_less (pos zero) h = tt
one_less (pos (suc n)) h = ground arith
one_less (negsuc n) h = let e : leb (suc n + 1) 0 ≡ false = ground arith in rw e tt

abbrev Read {ℓ} : {A : Type ℓ} → A → List Call → Type 0
Read r trace = Bounded trace

reads : (fd : ℤ) (n : ℕ) (os : Os) → Bounded os.trace → Safe Bounded Read (read_call fd n os)
reads fd n os h = ask-Safe Bounded Read (λ r. read fd (incoming n r)) os _ h λ r rest. h

writes :
    (fd : ℤ) (bytes : List ℕ) (os : Os)
    → Bounded os.trace
    → Safe Bounded Read (write_call fd bytes os)
writes fd bytes os h = ask-Safe Bounded Read (λ r. write fd (outgoing bytes r)) os _ h λ r rest. h

one_event-Safe :
    (listening_fd : ℤ) (fd : ℕ) (cur_fds : ℤ) (buff : List ℕ) (os : Os)
    → InArray cur_fds
    → Bounded os.trace
    → Safe Bounded Fits (one_event listening_fd fd (cur_fds, buff) os)
unfolding one_event
one_event-Safe listening_fd fd cur_fds buff os fits h =
    if-Safe Bounded Fits (eq_ℤ (pos fd) listening_fd && is_negative (cur_fds -ℤ pos 1000)) _ _ os
      (λ both. result-Safe Bounded Fits (accept listening_fd) os _ h λ linkage_fd rest.
        if-Safe Bounded Fits (is_negative linkage_fd) _ _ _ (λ _. h)
          λ _.
            result-Safe Bounded Fits epoll_add
              (record { script = rest; trace = accept listening_fd linkage_fd ∷ os.trace }) _ h
              λ added rest'. elim (Bool-cases (is_negative added)) [
                | inl failed ↦ rw failed h
                | inr fine ↦
                    rw fine (one_more cur_fds (second (eq_ℤ (pos fd) listening_fd) both), h)
              ])
      λ _.
        bind-Safe Bounded (read_call (pos fd) 50 os) _ Read Fits (reads (pos fd) 50 os h)
          λ (count, bytes, interrupted) after h'.
            if-Safe Bounded Fits (is_positive count) _ _ after
              (λ _. checked-Safe Bounded Fits (echo_reply (over buff bytes)) _ after h' λ buff2.
                bind-Safe Bounded (write_call (pos fd) buff2 after) _ Read Fits
                  (writes (pos fd) buff2 after h') λ _ last h''. (fits, h''))
              λ _.
                result-Safe Bounded Fits (λ _. close (pos fd)) after _ h'
                  λ r rest.
                    result-Safe Bounded Fits epoll_del
                      (record { script = rest; trace = close (pos fd) ∷ after.trace }) _ h'
                      λ r' rest'. (one_less cur_fds fits, h')
  where
    second : (a : Bool) {b : Bool} → (a && b) ≡ true → b ≡ true
    second true h = h
    second false h = absurd (cc)

-- What comes after some events, on both of their ends.
next-Safe {ℓ} :
    {B : Type ℓ} (R : B → List Call → Type 0) (stop : M B) (go : ℤ × List ℕ → M B)
    → ((after : Os) → Bounded after.trace → Safe Bounded R (stop after))
    → ((cur : ℤ) (buff : List ℕ) (after : Os)
        → InArray cur
        → Bounded after.trace
        → Safe Bounded R (go (cur, buff) after))
    → (next? : Option (ℤ × List ℕ)) (after : Os) → Fits next? after.trace
    → Safe Bounded R ((elim next? as (λ _. M B) [ none ↦ stop | some state ↦ go state ]) after)
next-Safe R stop go h k none after fits = h after fits
next-Safe R stop go h k (some (cur, buff)) after (fits, bounded) = k cur buff after fits bounded

all_events-Safe :
    (listening_fd : ℤ) (events : List ℕ) (cur_fds : ℤ) (buff : List ℕ) (os : Os)
    → InArray cur_fds
    → Bounded os.trace
    → Safe Bounded Fits (all_events listening_fd events (cur_fds, buff) os)
unfolding all_events
all_events-Safe listening_fd [] cur_fds buff os fits h = (fits, h)
all_events-Safe listening_fd (fd ∷ events) cur_fds buff os fits h =
    bind-Safe Bounded (one_event listening_fd fd (cur_fds, buff) os) _ Fits Fits
      (one_event-Safe listening_fd fd cur_fds buff os fits h)
      (next-Safe Fits (pure none) (all_events listening_fd events) (λ after h'. h')
        (all_events-Safe listening_fd events))

echo_loop-Safe :
    (fuel : ℕ) (listening_fd cur_fds : ℤ) (buff : List ℕ) (os : Os)
    → InArray cur_fds
    → Bounded os.trace
    → Safe Bounded Ends (echo_loop fuel listening_fd (cur_fds, buff) os)
unfolding echo_loop
echo_loop-Safe zero listening_fd cur_fds buff os fits h = h
echo_loop-Safe (suc fuel) listening_fd cur_fds buff os fits h =
    bind-Safe Bounded (wait_events cur_fds os) _ Read Ends
      (ask-Safe Bounded Read (λ r. epoll_wait cur_fds r.ret) os _ h λ r rest. (fits, h))
      λ (wait_fds, events) after h'.
        if-Safe Bounded Ends (eq_ℤ wait_fds minus_one) _ _ after (λ _. h')
          λ _.
            bind-Safe Bounded (all_events listening_fd events (cur_fds, buff) after) _ Fits Ends
              (all_events-Safe listening_fd events cur_fds buff after fits h')
              (next-Safe Ends (pure (pos 0)) (echo_loop fuel listening_fd) (λ after h'. h')
                (echo_loop-Safe fuel listening_fd))

sample_listen-Safe :
    (port : ℕ) (os : Os) → Bounded os.trace → Safe Bounded Read (sample_listen port os)
unfolding sample_listen
sample_listen-Safe port os h = result-Safe Bounded Read socket os _ h λ fd rest.
    if-Safe Bounded Read (is_positive fd) _ _ _
      (λ _.
        result-Safe Bounded Read (λ _. setsockopt fd)
          (record { script = rest; trace = socket fd ∷ os.trace }) _ h
          λ r rest1.
            if-Safe Bounded Read (is_negative r) _ _ _ (λ _. h)
              λ _.
                result-Safe Bounded Read (λ _. bind fd port)
                  (record { script = rest1; trace = setsockopt fd ∷ socket fd ∷ os.trace }) _ h
                  λ r' rest2.
                    if-Safe Bounded Read (is_negative r') _ _ _ (λ _. h)
                      λ _.
                        result-Safe Bounded Read (λ _. listen fd 5)
                          (record {
                            script = rest2;
                            trace = bind fd port ∷ setsockopt fd ∷ socket fd ∷ os.trace;
                          })
                          _ h
                          λ r'' rest3. if-Safe Bounded Read (is_negative r'') _ _ _ (λ _. h) λ _. h)
      λ _. h

-- At any time of any run of the echo server, also after its end and where it is undefined, every
-- epoll_wait was given a maximum of at most 1000, the size of its array.
pub echo_main-Bounded :
    (buff : List ℕ) (os : Os) → Bounded os.trace → Safe Bounded (λ _. Bounded) (echo_main buff os)
unfolding echo_main
echo_main-Bounded buff os h =
    bind-Safe Bounded (sample_listen 55555 os) _ Read Ends (sample_listen-Safe 55555 os h)
      λ (listening_fd, ret) after h'.
        if-Safe Bounded Ends (is_negative ret) _ _ after (λ _. h')
          λ _. result-Safe Bounded Ends epoll_create after _ h' λ epoll_fd rest.
            result-Safe Bounded Ends epoll_add
              (record { script = rest; trace = epoll_create epoll_fd ∷ after.trace }) _ h'
              λ added rest'.
                if-Safe Bounded Ends (is_negative added) _ _ _ (λ _. h')
                  λ _.
                    echo_loop-Safe (length rest') listening_fd (pos 1) buff
                      (record {
                        script = rest';
                        trace = epoll_add added ∷ epoll_create epoll_fd ∷ after.trace;
                      })
                      (omega arith) h'
