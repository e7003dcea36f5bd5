-- ===== src/Daemon/Processes.antt =====
-- How the three processes leave `deamon`.
use test_server.Os.Post.{call-Post, bind-Post, IsFuelled, then-Post, if-Post, result-Post, Post}
use test_server.Daemon.{
  sleep, ends_with_zero, callback_sleep, deamon_main, result, pure, dup2, open_null, close, umask,
  chdir, wait, exited, setsid, returned, fork, Leaves, background, deamon,
}
use test_server.Base.{◌∙◌, inr, ap, false, refl, inl, zero, ◌⊎◌, ◌∷◌, suc, true, ◌≡◌, List}
use test_server.Base.Int.{
  eq_ℤ→eq, is_negative, eq_ℤ, negsuc, minus_one, is_positive, pos, is_zero, ℤ,
}
use test_server.Os.{sleep, ◌>>◌, fault, Reply, Os, Call, M}

-- A return is -1, of a parent or a child whose fork has failed. An exit with another status than 0
-- is that of the grandson, and has status 1, the last call being a chdir that failed.
abbrev pub DaemonLeaves : List Call → Leaves → Os → Type 0
DaemonLeaves trace (returned r) after =
    (r ≡ minus_one)
    × ((after.trace ≡ fork minus_one ∷ trace)
        ⊎ (after.trace ≡ fork minus_one ∷ fork (pos 0) ∷ trace))
DaemonLeaves trace (exited zero) after = Unit
DaemonLeaves trace (exited (suc n)) after =
    (n ≡ 0)
    × ((moved sid : ℤ) × (is_negative moved ≡ true)
        × (after.trace ≡ chdir moved ∷ setsid sid ∷ fork (pos 0) ∷ fork (pos 0) ∷ trace))

module _ (callback : M ℤ) (fuelled : (os : Os) → IsFuelled (callback os)) where
  is_zero→eq : (n : ℤ) → is_zero n ≡ true → n ≡ pos 0
  is_zero→eq (pos zero) h = refl
  is_zero→eq (pos (suc n)) h = absurd (cc)
  is_zero→eq (negsuc n) h = absurd (cc)

  background-Leaves :
      (trace : List Call) (os : Os)
      → os.trace ≡ fork (pos 0) ∷ fork (pos 0) ∷ trace
      → Post (DaemonLeaves trace) (background callback os)
  unfolding background
  background-Leaves trace os h = result-Post setsid os _ (DaemonLeaves trace) λ sid rest.
      result-Post chdir (record { script = rest; trace = setsid sid ∷ os.trace }) _
        (DaemonLeaves trace)
        λ moved rest1.
          if-Post (is_negative moved) _ _ _ (DaemonLeaves trace)
            (λ failed.
              (refl, (moved, sid, failed, ap (λ (t : List Call). chdir moved ∷ setsid sid ∷ t) h)))
            λ _.
              step (λ _. umask) _
                (step (λ _. close (pos 0)) _
                  (step open_null _ (step (dup2 1) _ (step (dup2 2) _ last))))
                _
    where
      step :
          (call : ℤ → Call) (k : M Leaves)
          → ((later : Os) → Post (DaemonLeaves trace) (k later))
          → (before : Os) → Post (DaemonLeaves trace) ((result call >> k) before)
      step call k h before = result-Post call before (λ _. k) (DaemonLeaves trace) λ r rest. h _

      last : (before : Os) → Post (DaemonLeaves trace) ((callback >> pure (exited 0)) before)
      last before =
          then-Post (callback before) (λ _. pure (exited 0)) (DaemonLeaves trace) (fuelled before)
            λ _ _. tt

  pub deamon-Leaves : (os : Os) → Post (DaemonLeaves os.trace) (deamon callback os)
  unfolding deamon
  deamon-Leaves os = result-Post fork os _ Leave λ pid rest.
      let first : Os = record { script = rest; trace = fork pid ∷ os.trace } in
      if-Post (eq_ℤ pid minus_one) _ _ first Leave
        (λ failed. (refl, inl (ap (λ (p : ℤ). fork p ∷ os.trace) (eq_ℤ→eq pid minus_one failed))))
        λ _.
          if-Post (is_positive pid) _ _ first Leave
            (λ _. result-Post {B = Leaves} (λ _. wait) first _ Leave λ r rest'. tt)
            λ _.
              if-Post (is_zero pid) _ _ first Leave
                (λ zero_pid.
                  let here : first.trace ≡ fork (pos 0) ∷ os.trace =
                    ap (λ (p : ℤ). fork p ∷ os.trace) (is_zero→eq pid zero_pid) in
                  result-Post fork first _ Leave λ pid2 rest2.
                    let second : Os = record { script = rest2; trace = fork pid2 ∷ first.trace } in
                    if-Post (eq_ℤ pid2 minus_one) _ _ second Leave
                      (λ failed. (
                        refl,
                        inr (
                            ap (λ (p : ℤ). fork p ∷ first.trace) (eq_ℤ→eq pid2 minus_one failed)
                            ∙ ap (◌∷◌ (fork minus_one)) here),
                      ))
                      λ _.
                        if-Post (is_positive pid2) _ _ second Leave (λ _. tt)
                          λ _.
                            if-Post (is_zero pid2) _ _ second Leave
                              (λ zero_pid2. background-Leaves os.trace second (
                                ap (λ (p : ℤ). fork p ∷ first.trace) (is_zero→eq pid2 zero_pid2)
                                ∙ ap (◌∷◌ (fork (pos 0))) here))
                              λ _. tt)
                λ _. tt
    where
      Leave : Leaves → Os → Type 0
      Leave = DaemonLeaves os.trace

module _ (callback : M ℤ) where
  -- The first process waits for its child and then runs off the end of `deamon`: the behaviour is
  -- undefined, although nothing has failed.
  deamon_parent :
      (pid status : Reply) (script : List Reply) (trace : List Call)
      → is_positive pid.ret ≡ true
      → deamon callback (record { script = pid ∷ status ∷ script; trace = trace })
        ≡ fault (record { script = script; trace = wait ∷ fork pid.ret ∷ trace })
  unfolding deamon
  deamon_parent pid status script trace up = rw (not_minus pid.ret up, up) refl
    where
      not_minus : (n : ℤ) → is_positive n ≡ true → eq_ℤ n minus_one ≡ false
      not_minus (pos n) h = refl
      not_minus (negsuc n) h = absurd (cc)

-- A process that exits with 1 is the grandson whose chdir has failed.
abbrev pub MainLeaves : List Call → Leaves → Os → Type 0
MainLeaves trace (returned r) after = ⊥
MainLeaves trace (exited zero) after = Unit
MainLeaves trace (exited (suc n)) after = DaemonLeaves trace (exited (suc n)) after

-- No process of the program returns from main with anything but 0, and one that exits with another
-- status than 0 is the grandson, whose status is 1 and whose chdir has failed; the rest are
-- undefined or wait.
pub deamon_main-Leaves : (os : Os) → Post (MainLeaves os.trace) (deamon_main os)
unfolding deamon_main callback_sleep
deamon_main-Leaves os =
    bind-Post (deamon callback_sleep os) _ (DaemonLeaves os.trace) (MainLeaves os.trace)
      (deamon-Leaves callback_sleep (λ now. call-Post (λ _. sleep) now (λ _ _. Unit) λ ret rest. tt)
        os)
      λ leaves after h. ends leaves after h
  where
    ends :
        (leaves : Leaves) (after : Os)
        → DaemonLeaves os.trace leaves after
        → MainLeaves os.trace (ends_with_zero leaves) after
    ends (returned r) after h = tt
    ends (exited zero) after h = tt
    ends (exited (suc n)) after h = h
