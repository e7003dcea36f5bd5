-- ===== src/Sessions/Threads.antt =====
-- The threaded test of the server: which descriptors it leaves open.
use test_server.Sockets.{listen_socket, accept_socket}
use test_server.Os.Post.{Post-map, if-Post, bind-Post, result-Post, Post}
use test_server.Sessions.Ledger.{
  listen_socket-Opened, Opened-down, Leaks-more, Opened-up, accept_socket-Opened, Opened, closing,
  Leaks, IsServing,
}
use test_server.Os.{pure, ◌>>=◌, spawn, Call, close, Os, M}
use test_server.Sockets.Ledger.{remove_fd_self, open_fds, remove_fd}
use test_server.Base.Int.{is_zero, is_positive, eq_ℤ, ℤ}
use test_server.Base.{
  zero, ◌&&◌, refl, inr, append_assoc, sym, ap, length-append, ◌∙◌, [], inl, arith, Bool-cases,
  false, suc, ◌∷◌, true, if◌then◌else◌, ◌≤◌, ◌++◌, ◌+◌, ◌≡◌, length, Bool, List, ℕ,
}
use test_server.Sessions.{listen_socket, accept_socket, thread_server, join_loop, M, ℕ, ℤ, Verdict}

-- A close of one of several descriptors, whichever of them it hits.
remove_fd_among :
    (fd : ℤ) (before fds : List ℤ)
    → (left : List ℤ) × (length left ≡ length before)
      × (remove_fd fd (before ++ fd ∷ fds) ≡ left ++ fds)
unfolding remove_fd
remove_fd_among fd [] fds = ([], refl, remove_fd_self fd fds)
remove_fd_among fd (g ∷ before) fds = elim (Bool-cases (eq_ℤ fd g)) [
  | inl same ↦ (
    before ++ fd ∷ [],
    length-append before (fd ∷ []) ∙ omega arith,
    rw same (sym (append_assoc before (fd ∷ []) fds)),
  )
  | inr other ↦
      let (left, size, e) = remove_fd_among fd before fds in
      (g ∷ left, ap suc size, rw other (ap (◌∷◌ g) e))
]

-- What the loop leaves open for `num` further connections, of which `n` were left open so far.
abbrev pub JoinLeaves : ℕ → ℕ → List ℤ → Bool → Os → Type 0
JoinLeaves num n fds true os = Leaks n fds os
JoinLeaves num n fds false os = Leaks (n + num + 1) fds os

-- The listener below the connections that threads have left open.
below-Leaks :
    (l : ℤ) (fds leaked more : List ℤ) (n num : ℕ) (os : Os)
    → length leaked ≡ n
    → length more ≤ 1
    → open_fds os.trace ≡ more ++ (leaked ++ l ∷ fds)
    → Leaks (n + suc num + 1) fds os
below-Leaks l fds leaked more n num os size few h =
    let e : length (leaked ++ l ∷ []) ≡ length leaked + 1 = length-append leaked (l ∷ []) in
    let e' : length (more ++ (leaked ++ l ∷ [])) ≡ length more + length (leaked ++ l ∷ []) =
      length-append more (leaked ++ l ∷ []) in
    (
      more ++ (leaked ++ l ∷ []),
      omega (arith, e, e'),
      h
          ∙ (ap (◌++◌ more) (sym (append_assoc leaked (l ∷ []) fds))
              ∙ sym (append_assoc more (leaked ++ l ∷ []) fds)),
    )

module _ {P : Type 0} (serve : ℤ → M (Verdict P)) (serving : IsServing serve) where
  join_loop-Leaves :
      (num n : ℕ) (l : ℤ) (fds leaked : List ℤ) (os : Os)
      → length leaked ≡ n
      → open_fds os.trace ≡ leaked ++ l ∷ fds
      → Post (JoinLeaves num n fds) (join_loop serve num l os)
  unfolding join_loop
  join_loop-Leaves zero n l fds leaked os size h =
      result-Post (λ _. close l) os _ (JoinLeaves zero n fds)
        λ r rest.
          let (left, size', e) = remove_fd_among l leaked fds in
          (left, omega arith, closing l os.trace ∙ (ap (remove_fd l) h ∙ e))
  join_loop-Leaves (suc num) n l fds leaked os size h =
      bind-Post (accept_socket l os) _ (Opened (open_fds os.trace)) R (accept_socket-Opened l os)
        λ c next o.
          if-Post (is_positive c) _ _ next R
            (λ up.
              let both : open_fds next.trace ≡ c ∷ (leaked ++ l ∷ fds) =
                Opened-up _ _ next o up ∙ ap (◌∷◌ c) h in
              result-Post (λ _. spawn c) next _ R
                λ ret rest.
                  let started : Os = record { script = rest; trace = spawn c ∷ next.trace } in
                  let same : open_fds started.trace ≡ c ∷ (leaked ++ l ∷ fds) =
                    spawned c next.trace both in
                  if-Post (is_zero ret) _ _ started R
                    (λ _. bind-Post (serve c started) _ _ R (serving c started) λ v after e.
                      joined c v.passed after started.trace
                        (λ k kept later size' h'. join_loop-Leaves num k l fds kept later size' h')
                        e same)
                    λ _. below-Leaks l fds leaked (c ∷ []) n num started size (omega arith) same)
            λ down.
              let (more, few, e) = Opened-down _ _ next o down in
              below-Leaks l fds leaked more n num next size few (e ∙ ap (◌++◌ more) h)
    where
      R : Bool → Os → Type 0
      R = JoinLeaves (suc num) n fds

      spawned :
          (c : ℤ) (trace : List Call) {fds : List ℤ}
          → open_fds trace ≡ fds
          → open_fds (spawn c ∷ trace) ≡ fds
      spawned c trace e = unfold open_fds in e

      joined :
          (c : ℤ) (passed : Bool) (after : Os) (trace : List Call)
          → ((k : ℕ) (kept : List ℤ) (later : Os)
              → length kept ≡ k
              → open_fds later.trace ≡ kept ++ l ∷ fds
              → Post (JoinLeaves num k fds) (join_loop serve num l later))
          → open_fds after.trace ≡ (if passed then remove_fd c (open_fds trace) else open_fds trace)
          → open_fds trace ≡ c ∷ (leaked ++ l ∷ fds)
          → Post R ((join_loop serve num l >>= λ rest. pure (passed && rest)) after)
      joined c true after trace ih e both =
          bind-Post (join_loop serve num l after) _ (JoinLeaves num n fds) R
            (ih n leaked after size
              (e ∙ (ap (remove_fd c) both ∙ remove_fd_self c (leaked ++ l ∷ fds))))
            λ b later left. all_passed b later left
        where
          all_passed : (b : Bool) (later : Os) → JoinLeaves num n fds b later → R b later
          all_passed true later left = left
          all_passed false later left = Leaks-more fds later _ _ left (omega arith)
      joined c false after trace ih e both =
          bind-Post (join_loop serve num l after) _ (JoinLeaves num (suc n) fds) R
            (ih (suc n) (c ∷ leaked) after (ap suc size) (e ∙ both))
            λ b later left. one_failed b later left
        where
          one_failed : (b : Bool) (later : Os) → JoinLeaves num (suc n) fds b later → R false later
          one_failed true later left = Leaks-more fds later _ _ left (omega arith)
          one_failed false later left = Leaks-more fds later _ _ left (omega arith)

  -- Whatever the system answers, the test ends, unless what a thread does is undefined or the
  -- replies run out. If all of its ASSERTs hold, those of the threads included, the descriptors of
  -- before are open; if not, at most four more.
  pub thread_server-Leaves :
      (os : Os)
      → Post
          (λ passed. Leaks (if passed then 0 else 4) (open_fds os.trace))
          (thread_server serve os)
  unfolding thread_server
  thread_server-Leaves os =
      bind-Post (listen_socket os) _ (Opened (open_fds os.trace)) R (listen_socket-Opened os)
        λ l next o.
          if-Post (is_positive l) _ _ next R
            (λ up.
              Post-map (join_loop serve 3 l next) tidy
                (join_loop-Leaves 3 0 l (open_fds os.trace) [] next refl (Opened-up _ _ next o up)))
            λ down. Leaks-more _ next 1 4 (Opened-down _ _ next o down) (omega arith)
    where
      R : Bool → Os → Type 0
      R passed = Leaks (if passed then 0 else 4) (open_fds os.trace)

      tidy : (b : Bool) (after : Os) → JoinLeaves 3 0 (open_fds os.trace) b after → R b after
      tidy true after left = left
      tidy false after left = left
