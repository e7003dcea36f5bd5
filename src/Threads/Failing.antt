-- ===== src/Threads/Failing.antt =====
-- sample_thread/test_thread.cpp when pthread_create fails: main goes on and joins a thread that is
-- not there.
use test_server.Base.{
  ◌==◌, [], ◌∷◌, subst, ℕ, suc, List, Option, none, some, true, false, ◌≡◌, ◌≢◌, arith,
}
use mathlib.Core.Option.{some-injective}
use test_server.Memory.Laws.{bind_inverse}
use test_server.Threads.{
  Thread, main_thread, child_thread, Mutex, raw, unlocked, held, Member, missing, blank, filled,
  MainPc, ChildPc, absent, Program, run, step, main_step, child_step, start, Line,
}
use test_server.Threads.Sound.{at_fields}

-- main on its way to pthread_join.
data Alone (name : List ℕ) : MainPc → ChildPc → Mutex → Member → Type 0 where
  allocating : Alone name MainPc.allocating absent raw missing
  filling : Alone name MainPc.filling absent raw blank
  showing : Alone name MainPc.showing absent raw (filled name 16)
  initialising : Alone name MainPc.initialising absent raw (filled name 16)
  creating : Alone name MainPc.creating absent unlocked (filled name 16)
  reporting : Alone name MainPc.reporting absent unlocked (filled name 16)
  resting : Alone name MainPc.resting absent unlocked (filled name 16)
  locking : Alone name MainPc.locking absent unlocked (filled name 16)
  speaking : Alone name MainPc.speaking absent (held main_thread) (filled name 16)
  unlocking : Alone name MainPc.unlocking absent (held main_thread) (filled name 16)
  joining : Alone name MainPc.joining absent unlocked (filled name 16)

-- What holds of a program if it goes on.
abbrev IfDefined : (Program → Type 0) → Option Program → Type 0
IfDefined P none = Unit
IfDefined P (some p) = P p

abbrev IsAlone : List ℕ → Program → Type 0
IsAlone name p = Alone name p.main p.child p.mutex p.member

module _ (name : List ℕ) (k : ℕ) where
  main_step-Alone :
      {main : MainPc} {child : ChildPc} {mutex : Mutex} {member : Member} (lines : List Line)
      → Alone name main child mutex member
      → IfDefined
          (IsAlone name)
          (main_step (some name) true (suc k) main (at_fields main child mutex member lines))
  unfolding main_step
  main_step-Alone lines Alone.allocating = Alone.filling
  main_step-Alone lines Alone.filling = Alone.showing
  main_step-Alone lines Alone.showing = Alone.initialising
  main_step-Alone lines Alone.initialising = Alone.creating
  main_step-Alone lines Alone.creating = rw not_zero Alone.reporting
    where
      not_zero : (suc k == 0) ≡ false
      not_zero = ground arith
  main_step-Alone lines Alone.reporting = Alone.resting
  main_step-Alone lines Alone.resting = Alone.locking
  main_step-Alone lines Alone.locking = Alone.speaking
  main_step-Alone lines Alone.speaking = Alone.unlocking
  main_step-Alone lines Alone.unlocking = Alone.joining
  main_step-Alone lines Alone.joining = tt

  child_step-Alone :
      {main : MainPc} {child : ChildPc} {mutex : Mutex} {member : Member} (lines : List Line)
      → Alone name main child mutex member
      → IfDefined (IsAlone name) (child_step child (at_fields main child mutex member lines))
  unfolding child_step
  child_step-Alone lines Alone.allocating = Alone.allocating
  child_step-Alone lines Alone.filling = Alone.filling
  child_step-Alone lines Alone.showing = Alone.showing
  child_step-Alone lines Alone.initialising = Alone.initialising
  child_step-Alone lines Alone.creating = Alone.creating
  child_step-Alone lines Alone.reporting = Alone.reporting
  child_step-Alone lines Alone.resting = Alone.resting
  child_step-Alone lines Alone.locking = Alone.locking
  child_step-Alone lines Alone.speaking = Alone.speaking
  child_step-Alone lines Alone.unlocking = Alone.unlocking
  child_step-Alone lines Alone.joining = Alone.joining

  step-Alone :
      (thread : Thread) (p : Program)
      → IsAlone name p
      → IfDefined (IsAlone name) (step (some name) true (suc k) thread p)
  unfolding step
  step-Alone main_thread p h = main_step-Alone p.lines h
  step-Alone child_thread p h = child_step-Alone p.lines h

  run-Alone :
      (threads : List Thread) (p : Program) {q : Program}
      → IsAlone name p
      → run (some name) true (suc k) threads p ≡ some q
      → IsAlone name q
  unfolding run
  run-Alone [] p h e = subst (IsAlone name) (some-injective p _ e) h
  run-Alone (thread ∷ threads) p h e =
      let (next, stepped, rest) =
        bind_inverse (step (some name) true (suc k) thread p) (run (some name) true (suc k) threads)
          e in
      run-Alone threads next (rw stepped at (step-Alone thread p h)) rest

  Alone-ne-ended :
      {main : MainPc} {child : ChildPc} {mutex : Mutex} {member : Member}
      → Alone name main child mutex member
      → main ≢ MainPc.ended
  Alone-ne-ended Alone.allocating e = absurd (cc)
  Alone-ne-ended _ e = absurd (cc)

  -- If malloc has memory and pthread_create fails, main never returns: no interleaving brings it
  -- further than pthread_join, which is undefined on the identifier that was never set.
  pub failed_create-ne-ended :
      (threads : List Thread) {p : Program}
      → run (some name) true (suc k) threads start ≡ some p
      → p.main ≢ MainPc.ended
  failed_create-ne-ended threads e = Alone-ne-ended (run-Alone threads start Alone.allocating e)
