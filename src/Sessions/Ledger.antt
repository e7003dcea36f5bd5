-- ===== src/Sessions/Ledger.antt =====
-- Which descriptors the tests of suite A leave open.
use test_server.Sockets.Opening.{sample_listen-Listening, Listening}
use test_server.Os.Post.{if-Post, bind-Post, result-Post, Post}
use test_server.Sockets.Ledger.{remove_fd_self, closed, remove_fd, opened, open_fds}
use test_server.Os.{
  starved, fault, done, bind_outcome, Outcome, pure, connect, setsockopt, bind, close, listen,
  accept, socket, Call, ◌>>=◌, Os, M,
}
use test_server.Base.{
  subst, append_assoc, sym, refl, ap, length-append, ◌∙◌, zero, ◌+◌, suc, inl, inr, Bool, arith, [],
  false, ◌∷◌, ◌++◌, ◌⊎◌, if◌then◌else◌, true, ◌≤◌, length, ◌≡◌, ℕ, List,
}
use test_server.Sockets.{sample_listen, one_connect, listen_socket, accept_socket}
use test_server.Base.Int.{is_negative, minus_one, negsuc, is_positive, pos, ℤ}
use test_server.Sessions.{
  one_connect, answer_func, client_session, thread_func, server_session, M, Verdict, listen_socket,
  ℕ, ℤ, accept_socket,
}

-- A function that opens and closes nothing.
abbrev pub IsQuiet : {A : Type 0} → (ℤ → M A) → Type 0
IsQuiet m =
    (fd : ℤ) (os : Os) → Post (λ _ after. open_fds after.trace ≡ open_fds os.trace) (m fd os)

-- One that closes its connection exactly if every ASSERT holds.
abbrev pub IsServing : {P : Type 0} → (ℤ → M (Verdict P)) → Type 0
IsServing serve =
    (fd : ℤ) (os : Os)
    → Post
        (λ v after.
          open_fds after.trace
          ≡ (if v.passed then remove_fd fd (open_fds os.trace) else open_fds os.trace))
        (serve fd os)

-- At most `n` descriptors more than `fds` are open.
abbrev pub Leaks : ℕ → List ℤ → Os → Type 0
Leaks n fds os = (leaked : List ℤ) × (length leaked ≤ n) × (open_fds os.trace ≡ leaked ++ fds)

-- What holds after a test that has passed, or not.
abbrev pub SessionLeaves : {P : Type 0} → ℕ → List ℤ → Verdict P → Os → Type 0
SessionLeaves n fds v os =
    ((v.passed ≡ true) × (open_fds os.trace ≡ fds)) ⊎ ((v.passed ≡ false) × Leaks n fds os)

-- A descriptor that was opened, or not.
abbrev pub Opened : List ℤ → ℤ → Os → Type 0
Opened fds r os =
    ((is_positive r ≡ true) × (open_fds os.trace ≡ r ∷ fds))
    ⊎ ((is_positive r ≡ false) × Leaks 1 fds os)

leaked_of : (fd : ℤ) (fds : List ℤ) (os : Os) → open_fds os.trace ≡ opened fd fds → Leaks 1 fds os
leaked_of (pos fd) fds os h = (pos fd ∷ [], omega arith, h)
leaked_of (negsuc fd) fds os h = ([], omega arith, h)

opened_of : (fd : ℤ) (fds : List ℤ) (os : Os) → open_fds os.trace ≡ opened fd fds → Opened fds fd os
opened_of (pos zero) fds os h = inr (refl, leaked_of (pos zero) fds os h)
opened_of (pos (suc fd)) fds os h = inl (refl, h)
opened_of (negsuc fd) fds os h = inr (refl, leaked_of (negsuc fd) fds os h)

-- What a function returns that has called `socket` or `accept`, and may have failed then.
pub opened_unless :
    (failed : Bool) (fd : ℤ) (fds : List ℤ) (os : Os)
    → open_fds os.trace ≡ opened fd fds
    → Opened fds (if failed then minus_one else fd) os
opened_unless true fd fds os h = inr (refl, leaked_of fd fds os h)
opened_unless false fd fds os h = opened_of fd fds os h

pub Opened-up :
    (fds : List ℤ) (r : ℤ) (os : Os)
    → Opened fds r os
    → is_positive r ≡ true
    → open_fds os.trace ≡ r ∷ fds
Opened-up fds r os (inl (up, h)) now = h
Opened-up fds r os (inr (down, h)) now = absurd (cc)

pub Opened-down :
    (fds : List ℤ) (r : ℤ) (os : Os) → Opened fds r os → is_positive r ≡ false → Leaks 1 fds os
Opened-down fds r os (inl (up, h)) now = absurd (cc)
Opened-down fds r os (inr (down, h)) now = h

pub Leaks-more : (fds : List ℤ) (os : Os) (m n : ℕ) → Leaks m fds os → m ≤ n → Leaks n fds os
Leaks-more fds os m n (leaked, few, h) more = (leaked, omega arith, h)

-- What was open before is a leak too, if it stays open.
pub Leaks-on :
    (fds : List ℤ) (os : Os) (fd : ℤ) (n : ℕ) → Leaks n (fd ∷ fds) os → Leaks (suc n) fds os
Leaks-on fds os fd n (leaked, few, h) =
    let e : length (leaked ++ fd ∷ []) ≡ length leaked + 1 = length-append leaked (fd ∷ []) in
    (leaked ++ fd ∷ [], omega (arith, e), h ∙ sym (append_assoc leaked (fd ∷ []) fds))

-- The parts of a state that depends on a test.
pub if_true : (b : Bool) {x : List ℤ} (y z : List ℤ) → x ≡ (if b then y else z) → b ≡ true → x ≡ y
if_true true y z h now = h
if_true false y z h now = absurd (cc)

pub if_false : (b : Bool) {x : List ℤ} (y z : List ℤ) → x ≡ (if b then y else z) → b ≡ false → x ≡ z
if_false true y z h now = absurd (cc)
if_false false y z h now = h

pub closing :
    (fd : ℤ) (trace : List Call) → open_fds (close fd ∷ trace) ≡ remove_fd fd (open_fds trace)
unfolding open_fds
closing fd trace = refl

-- A quiet function, and what comes after it.
quiet-Post :
    {A B : Type 0} (m : ℤ → M A) (fd : ℤ) (os : Os) (f : A → M B) (R : B → Os → Type 0)
    → IsQuiet m
    → ((a : A) (after : Os) → open_fds after.trace ≡ open_fds os.trace → Post R (f a after))
    → Post R ((m fd >>= f) os)
quiet-Post m fd os f R quiet k =
    bind-Post (m fd os) f (λ _ after. open_fds after.trace ≡ open_fds os.trace) R (quiet fd os) k

one_connect-Opened : (os : Os) → Post (Opened (open_fds os.trace)) (one_connect os)
unfolding one_connect open_fds
one_connect-Opened os = result-Post socket os _ (Opened (open_fds os.trace)) λ fd rest.
    if-Post (is_negative fd) _ _ _ (Opened (open_fds os.trace))
      (λ down. inr (
        refl,
        leaked_of fd (open_fds os.trace) (record { script = rest; trace = socket fd ∷ os.trace })
            refl,
      ))
      λ up.
        result-Post (λ _. connect fd 55555) (record { script = rest; trace = socket fd ∷ os.trace })
          _ (Opened (open_fds os.trace))
          λ ret rest'.
            opened_unless (is_negative ret) fd (open_fds os.trace)
              (record { script = rest'; trace = connect fd 55555 ∷ socket fd ∷ os.trace }) refl

pub listen_socket-Opened : (os : Os) → Post (Opened (open_fds os.trace)) (listen_socket os)
unfolding listen_socket
listen_socket-Opened os = go (sample_listen 55555 os) (sample_listen-Listening 55555 os)
  where
    fds : List ℤ
    fds = open_fds os.trace

    up :
        (fd : ℤ) (trace : List Call)
        → trace ≡ listen fd 5 ∷ bind fd 55555 ∷ setsockopt fd ∷ socket fd ∷ os.trace
        → open_fds trace ≡ opened fd fds
    up fd trace h = unfold open_fds in ap open_fds h

    go :
        (o : Outcome (ℤ × ℤ))
        → Listening 55555 os.trace o
        → Post
            (Opened fds)
            (bind_outcome o λ (fd, ret). pure (if is_negative ret then minus_one else fd))
    go (done r after) (inl (positive, ok, h)) =
        opened_unless (is_negative r.1) r.0 fds after (up r.0 after.trace h)
    go (done r after) (inr (failed, h)) = opened_unless (is_negative r.1) r.0 fds after h
    go (fault after) h = absurd h
    go (starved after) h = h

pub accept_socket-Opened :
    (listening_fd : ℤ) (os : Os) → Post (Opened (open_fds os.trace)) (accept_socket listening_fd os)
unfolding accept_socket open_fds
accept_socket-Opened listening_fd os =
    result-Post (accept listening_fd) os _ (Opened (open_fds os.trace)) λ fd rest.
      opened_unless (is_negative fd) fd (open_fds os.trace)
        (record { script = rest; trace = accept listening_fd fd ∷ os.trace }) refl

module _ {P : Type 0} (write_message : ℤ → M ℤ) (read_message : ℤ → M (ℤ × P))
    (write_quiet : IsQuiet write_message) (read_quiet : IsQuiet read_message) where
  pub thread_func-IsServing : IsServing (thread_func write_message read_message)
  unfolding thread_func
  thread_func-IsServing fd os = quiet-Post write_message fd os _ R write_quiet λ ret os1 e1.
      if-Post (is_positive ret) _ _ os1 R
        (λ _. quiet-Post read_message fd os1 _ R read_quiet λ (got, seen) os2 e2.
          if-Post (is_positive got) _ _ os2 R
            (λ _.
              result-Post (λ _. close fd) os2 _ R
                λ r rest. closing fd os2.trace ∙ ap (remove_fd fd) (e2 ∙ e1))
            λ _. e2 ∙ e1)
        λ _. e1
    where
      R : Verdict P → Os → Type 0
      R v after =
          open_fds after.trace
          ≡ (if v.passed then remove_fd fd (open_fds os.trace) else open_fds os.trace)

  pub answer_func-IsServing : IsServing (answer_func write_message read_message)
  unfolding answer_func
  answer_func-IsServing fd os = quiet-Post read_message fd os _ R read_quiet λ (got, seen) os1 e1.
      if-Post (is_positive got) _ _ os1 R
        (λ _. quiet-Post write_message fd os1 _ R write_quiet λ ret os2 e2.
          if-Post (is_positive ret) _ _ os2 R
            (λ _.
              result-Post (λ _. close fd) os2 _ R
                λ r rest. closing fd os2.trace ∙ ap (remove_fd fd) (e2 ∙ e1))
            λ _. e2 ∙ e1)
        λ _. e1
    where
      R : Verdict P → Os → Type 0
      R v after =
          open_fds after.trace
          ≡ (if v.passed then remove_fd fd (open_fds os.trace) else open_fds os.trace)

  -- Unless the two functions are undefined or the replies run out, a test of the client ends with
  -- the descriptors of before, but for the socket, if it could not be connected.
  pub client_session-Leaves :
      (os : Os)
      → Post (SessionLeaves 1 (open_fds os.trace)) (client_session write_message read_message os)
  unfolding client_session
  client_session-Leaves os =
      bind-Post (one_connect os) _ (Opened (open_fds os.trace)) R (one_connect-Opened os)
        λ fd os1 o1.
          if-Post (is_positive fd) _ _ os1 R
            (λ up. quiet-Post write_message fd os1 _ R write_quiet λ ret os2 e2.
              quiet-Post read_message fd os2 _ R read_quiet λ (got, seen) os3 e3.
                result-Post (λ _. close fd) os3 _ R
                  λ r rest. inl (refl, closed fd _ os3.trace (e3 ∙ e2 ∙ Opened-up _ _ os1 o1 up)))
            λ down. inr (refl, Opened-down _ _ os1 o1 down)
    where
      R : Verdict P → Os → Type 0
      R = SessionLeaves 1 (open_fds os.trace)

module _ {P : Type 0} (serve : ℤ → M (Verdict P)) (serving : IsServing serve) where
  -- A test of the server that passes leaves the descriptors of before open; one that fails leaves
  -- up to two more open, the listener and the connection.
  pub server_session-Leaves :
      (os : Os) → Post (SessionLeaves 2 (open_fds os.trace)) (server_session serve os)
  unfolding server_session
  server_session-Leaves os =
      bind-Post (listen_socket os) _ (Opened fds) R (listen_socket-Opened os) λ l os1 o1.
        if-Post (is_positive l) _ _ os1 R
          (λ up.
            bind-Post (accept_socket l os1) _ (Opened (open_fds os1.trace)) R
              (accept_socket-Opened l os1)
              λ c os2 o2.
                if-Post (is_positive c) _ _ os2 R
                  (λ linked.
                    let both = Opened-up _ _ os2 o2 linked ∙ ap (◌∷◌ c) (Opened-up _ _ os1 o1 up) in
                    bind-Post (serve c os2) _ _ R (serving c os2) λ v os3 e3.
                      if-Post v.passed _ _ os3 R
                        (λ ok.
                          result-Post (λ _. close l) os3 (λ _. pure v) R
                            λ r rest. inl (
                              ok,
                              closed l fds os3.trace (
                                  if_true v.passed _ _ e3 ok
                                  ∙ (ap (remove_fd c) both ∙ remove_fd_self c (l ∷ fds))),
                            ))
                        λ no.
                          inr (no, (c ∷ l ∷ [], omega arith, if_false v.passed _ _ e3 no ∙ both)))
                  λ down. inr (
                    refl,
                    Leaks-on fds os2 l 1 (
                        subst (λ now. Leaks 1 now os2) (Opened-up _ _ os1 o1 up)
                          (Opened-down _ _ os2 o2 down)),
                  ))
          λ down. inr (refl, Leaks-more fds os1 1 2 (Opened-down _ _ os1 o1 down) (omega arith))
    where
      fds : List ℤ
      fds = open_fds os.trace

      R : Verdict P → Os → Type 0
      R = SessionLeaves 2 fds
