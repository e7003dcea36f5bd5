-- ===== src/Sessions/Fork.antt =====
-- The forking test of the server: its calls, and which descriptors it leaves open.
use test_server.Os.Post.{Post-map, bind-Post, if-Post, result-Post, Post}
use test_server.Sockets.{accept_socket}
use test_server.Sessions.Ledger.{Opened-down, Opened-up, opened_unless, Leaks, IsServing, Opened}
use test_server.Os.{fork, wait, accept, Os, close, Call, M}
use test_server.Base.Int.{is_zero, negsuc, pos, minus_one, is_negative, is_positive, ℤ}
use test_server.Base.{
  sym, arith, [], ap, ◌∙◌, subst, zero, refl, false, suc, ◌∷◌, true, ◌≡◌, Bool, if◌then◌else◌, List,
  ℕ,
}
use test_server.Sockets.Ledger.{remove_fd_self, remove_fd, closed, open_fds}
use test_server.Sessions.{father, child, fork_loop, Verdict, Side}

-- The calls that the father adds for `num` connections before it closes the listener.
abbrev pub FatherTrace : ℕ → ℤ → List Call → List Call → Type 0
FatherTrace zero listening_fd start trace = trace ≡ close listening_fd ∷ start
FatherTrace (suc num) listening_fd start trace =
    (fd : ℤ) × (pid : ℤ) × (is_positive fd ≡ true)
    × FatherTrace num listening_fd (close fd ∷ wait ∷ fork pid ∷ accept listening_fd fd ∷ start)
        trace

-- How the two processes of the loop end, with `listening_fd` on top of `fds` at first.
abbrev pub ForkLeaves : ℕ → ℤ → List ℤ → List Call → Side × Bool → Os → Type 0
ForkLeaves num listening_fd fds start (father, true) os =
    FatherTrace num listening_fd start os.trace × (open_fds os.trace ≡ fds)
ForkLeaves num listening_fd fds start (father, false) os = Leaks 1 (listening_fd ∷ fds) os
ForkLeaves num listening_fd fds start (child, true) os = open_fds os.trace ≡ listening_fd ∷ fds
ForkLeaves num listening_fd fds start (child, false) os = Leaks 1 (listening_fd ∷ fds) os

-- What `accept_socket` returns, and its one call.
abbrev Accepting : ℤ → List Call → ℤ → Os → Type 0
Accepting l trace r os =
    Opened (open_fds trace) r os
    × ((ret : ℤ) × (r ≡ (if is_negative ret then minus_one else ret))
        × (os.trace ≡ accept l ret ∷ trace))

accept_socket-Accepting : (l : ℤ) (os : Os) → Post (Accepting l os.trace) (accept_socket l os)
unfolding accept_socket open_fds
accept_socket-Accepting l os = result-Post (accept l) os _ (Accepting l os.trace) λ ret rest. (
  opened_unless (is_negative ret) ret (open_fds os.trace)
      (record { script = rest; trace = accept l ret ∷ os.trace }) refl,
  (ret, refl, refl),
)

unless_positive :
    (ret r : ℤ) → r ≡ (if is_negative ret then minus_one else ret) → is_positive r ≡ true → ret ≡ r
unless_positive (pos n) r e h = sym e
unless_positive (negsuc n) r e h = let no : is_positive r ≡ false = ap is_positive e in absurd (cc)

-- A connection before the others.
one_more :
    (num : ℕ) (l : ℤ) (fds : List ℤ) (fd pid : ℤ) (start : List Call) {later : List Call}
    → is_positive fd ≡ true
    → later ≡ close fd ∷ wait ∷ fork pid ∷ accept l fd ∷ start
    → (r : Side × Bool) (os : Os) → ForkLeaves num l fds later r os
    → ForkLeaves (suc num) l fds start r os
one_more num l fds fd pid start up same (father, true) os (trace, h) =
    ((fd, pid, up, subst (λ now. FatherTrace num l now os.trace) same trace), h)
one_more num l fds fd pid start up same (father, false) os h = h
one_more num l fds fd pid start up same (child, true) os h = h
one_more num l fds fd pid start up same (child, false) os h = h

module _ {P : Type 0} (serve : ℤ → M (Verdict P)) (serving : IsServing serve) where
  -- Whatever the system answers, the loop ends, unless what a child does is undefined or the
  -- replies run out. A father whose ASSERTs hold has made exactly the calls accept, fork, wait and
  -- close for each of the `num` connections, has closed the listener, and leaves the descriptors of
  -- before; a child whose ASSERTs hold leaves the listener open. In all other cases the listener is
  -- open, and up to one connection.
  pub fork_loop-Leaves :
      (num : ℕ) (listening_fd : ℤ) (fds : List ℤ) (os : Os)
      → open_fds os.trace ≡ listening_fd ∷ fds
      → Post (ForkLeaves num listening_fd fds os.trace) (fork_loop serve num listening_fd os)
  unfolding fork_loop accept_socket
  fork_loop-Leaves zero l fds os h =
      result-Post (λ _. close l) os _ (ForkLeaves zero l fds os.trace)
        λ r rest. (refl, closed l fds os.trace h)
  fork_loop-Leaves (suc num) l fds os h =
      bind-Post (accept_socket l os) _ (Accepting l os.trace) R (accept_socket-Accepting l os)
        λ fd next (o, (ret, e, t)).
          if-Post (is_positive fd) _ _ next R
            (λ up.
              let start : List Call = next.trace in
              let same : start ≡ accept l fd ∷ os.trace =
                t ∙ ap (λ (x : ℤ). accept l x ∷ os.trace) (unless_positive ret fd e up) in
              let both : open_fds start ≡ fd ∷ l ∷ fds = Opened-up _ _ next o up ∙ ap (◌∷◌ fd) h in
              result-Post fork next _ R λ pid rest1.
                let forked : open_fds (fork pid ∷ start) ≡ fd ∷ l ∷ fds = unfold open_fds in both in
                if-Post (is_negative pid) _ _ _ R (λ _. (fd ∷ [], omega arith, forked))
                  λ _.
                    if-Post (is_zero pid) _ _ _ R
                      (λ _.
                        bind-Post (serve fd (record { script = rest1; trace = fork pid ∷ start })) _
                          _ R (serving fd (record { script = rest1; trace = fork pid ∷ start }))
                          λ v after e. child_leaves fd v after (fork pid ∷ start) e forked)
                      λ _.
                        result-Post (λ _. wait)
                          (record { script = rest1; trace = fork pid ∷ start }) _ R
                          λ w rest2.
                            let waited : open_fds (wait ∷ fork pid ∷ start) ≡ fd ∷ l ∷ fds =
                              unfold open_fds in both in
                            result-Post (λ _. close fd)
                              (record { script = rest2; trace = wait ∷ fork pid ∷ start }) _ R
                              λ c rest3.
                                let later : Os = record {
                                  script = rest3;
                                  trace = close fd ∷ wait ∷ fork pid ∷ start;
                                } in
                                Post-map (fork_loop serve num l later)
                                  (one_more num l fds fd pid os.trace up
                                    (ap (λ calls. close fd ∷ wait ∷ fork pid ∷ calls) same))
                                  (fork_loop-Leaves num l fds later (closed fd (l ∷ fds) _ waited)))
            λ down. subst (λ now. Leaks 1 now next) h (Opened-down _ _ next o down)
    where
      R : Side × Bool → Os → Type 0
      R = ForkLeaves (suc num) l fds os.trace

      child_leaves :
          (fd : ℤ) (v : Verdict P) (after : Os) (trace : List Call)
          → open_fds after.trace
            ≡ (if v.passed then remove_fd fd (open_fds trace) else open_fds trace)
          → open_fds trace ≡ fd ∷ l ∷ fds
          → R (child, v.passed) after
      child_leaves fd v after trace e both = go v.passed e
        where
          go :
              (b : Bool)
              → open_fds after.trace ≡ (if b then remove_fd fd (open_fds trace) else open_fds trace)
              → R (child, b) after
          go true e' = e' ∙ (ap (remove_fd fd) both ∙ remove_fd_self fd (l ∷ fds))
          go false e' = (fd ∷ [], omega arith, e' ∙ both)
