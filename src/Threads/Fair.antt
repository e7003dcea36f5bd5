-- ===== src/Threads/Fair.antt =====
-- The program of sample_thread/test_thread.cpp comes to its end, whatever the order of the threads
-- was.
use test_server.Base.{
  sym, ap, subst, ◌∙◌, ℕ, zero, suc, ◌+◌, ◌-◌, ◌≤◌, List, [], ◌∷◌, ◌++◌, Option, some, Bool, true,
  false, ◌≡◌, refl, arith,
}
use mathlib.Core.Path.{fun_ext}
use test_server.Memory.Laws.{bind_assoc}
use test_server.Memory.{◌>>=◌}
use test_server.Threads.{
  Thread, main_thread, child_thread, Mutex, Member, MainPc, ChildPc, absent, Program, run, step,
  main_step, child_step, start, Line,
}
use test_server.Threads.Sound.{
  run-IsSound, both-Defined, Running, Outside, Together, IsSound, Defined, bind-Defined,
  run-Defined, step-IsSound, at_fields,
}

-- The steps that are left, at most.
abbrev left_child : ChildPc → ℕ
left_child absent = 6
left_child ChildPc.locking = 6
left_child ChildPc.waiting = 5
left_child ChildPc.naming = 4
left_child ChildPc.reading = 3
left_child ChildPc.unlocking = 2
left_child ChildPc.finished = 0

abbrev left : MainPc → ChildPc → ℕ
left MainPc.allocating child = 13 + left_child child
left MainPc.filling child = 12 + left_child child
left MainPc.showing child = 11 + left_child child
left MainPc.initialising child = 10 + left_child child
left MainPc.creating child = 9 + left_child child
left MainPc.reporting child = 8 + left_child child
left MainPc.resting child = 7 + left_child child
left MainPc.locking child = 6 + left_child child
left MainPc.speaking child = 5 + left_child child
left MainPc.unlocking child = 4 + left_child child
left MainPc.joining child = 3 + left_child child
left MainPc.freeing child = 2 + left_child child
left MainPc.destroying child = 1 + left_child child
left MainPc.ended child = 0

-- Each thread takes a turn, `n` times.
abbrev pub rounds : ℕ → List Thread
rounds zero = []
rounds (suc n) = main_thread ∷ child_thread ∷ rounds n

left-ended : (main : MainPc) (child : ChildPc) → left main child ≤ 0 → main ≡ MainPc.ended
left-ended MainPc.ended child h = refl
left-ended main child h = absurd (omega arith)

left-le : (main : MainPc) (child : ChildPc) → left main child ≤ 19
left-le main child = grind arith

module _ (name : List ℕ) (allocated : Bool) where
  -- A round brings the end nearer.
  round-left :
      {main : MainPc} {child : ChildPc} {mutex : Mutex} {member : Member} (lines : List Line)
      → Together name allocated main child mutex member
      → Defined
          (λ q. left q.main q.child ≤ left main child - 1)
          (run (some name) allocated 0 (rounds 1) (at_fields main child mutex member lines))
  unfolding run step main_step child_step
  round-left lines Together.allocating = by_malloc allocated
    where
      by_malloc :
          (b : Bool)
          → Defined
              (λ q. left q.main q.child ≤ 18)
              (run
                (some name)
                b
                0
                (rounds 1)
                (at_fields MainPc.allocating absent Mutex.raw Member.missing lines))
      by_malloc true = omega arith
      by_malloc false = omega arith
  round-left lines Together.filling = omega arith
  round-left lines Together.showing = omega arith
  round-left lines Together.initialising = omega arith
  round-left lines Together.creating = omega arith
  round-left lines (Together.reporting Running.locking) = omega arith
  round-left lines (Together.reporting Running.waiting) = omega arith
  round-left lines (Together.reporting Running.naming) = omega arith
  round-left lines (Together.reporting Running.reading) = omega arith
  round-left lines (Together.reporting Running.unlocking) = omega arith
  round-left lines (Together.reporting Running.finished) = omega arith
  round-left lines (Together.resting Running.locking) = omega arith
  round-left lines (Together.resting Running.waiting) = omega arith
  round-left lines (Together.resting Running.naming) = omega arith
  round-left lines (Together.resting Running.reading) = omega arith
  round-left lines (Together.resting Running.unlocking) = omega arith
  round-left lines (Together.resting Running.finished) = omega arith
  round-left lines (Together.locking Running.locking) = omega arith
  round-left lines (Together.locking Running.waiting) = omega arith
  round-left lines (Together.locking Running.naming) = omega arith
  round-left lines (Together.locking Running.reading) = omega arith
  round-left lines (Together.locking Running.unlocking) = omega arith
  round-left lines (Together.locking Running.finished) = omega arith
  round-left lines (Together.speaking Outside.early) = omega arith
  round-left lines (Together.speaking Outside.late) = omega arith
  round-left lines (Together.unlocking Outside.early) = omega arith
  round-left lines (Together.unlocking Outside.late) = omega arith
  round-left lines (Together.joining Running.locking) = omega arith
  round-left lines (Together.joining Running.waiting) = omega arith
  round-left lines (Together.joining Running.naming) = omega arith
  round-left lines (Together.joining Running.reading) = omega arith
  round-left lines (Together.joining Running.unlocking) = omega arith
  round-left lines (Together.joining Running.finished) = omega arith
  round-left lines Together.freeing = omega arith
  round-left lines Together.destroying = omega arith
  round-left lines Together.ended = omega arith
  round-left lines (Together.failed none_left) = omega arith

  run-append :
      (first second : List Thread) (p : Program)
      → run (some name) allocated 0 (first ++ second) p
        ≡ (run (some name) allocated 0 first p >>= run (some name) allocated 0 second)
  unfolding run
  run-append [] second p = refl
  run-append (thread ∷ first) second p =
      ap (λ (next : Program → Option Program). step (some name) allocated 0 thread p >>= next)
        (fun_ext (run-append first second))
      ∙ sym (
          bind_assoc (step (some name) allocated 0 thread p) (run (some name) allocated 0 first)
            (run (some name) allocated 0 second))

  rounds-ended_from :
      (n : ℕ) (p : Program)
      → IsSound name allocated p
      → left p.main p.child ≤ n
      → Defined (λ q. q.main ≡ MainPc.ended) (run (some name) allocated 0 (rounds n) p)
  unfolding run
  rounds-ended_from zero p sound h = left-ended p.main p.child h
  rounds-ended_from (suc n) p sound h =
      subst (Defined (λ q. q.main ≡ MainPc.ended)) (sym (run-append (rounds 1) (rounds n) p)) (
        bind-Defined
          (λ q. IsSound name allocated q × (left q.main q.child ≤ left p.main p.child - 1))
          (λ q. q.main ≡ MainPc.ended) (run (some name) allocated 0 (rounds 1) p)
          (run (some name) allocated 0 (rounds n))
          (both-Defined (IsSound name allocated)
            (λ q. left q.main q.child ≤ left p.main p.child - 1)
            (run (some name) allocated 0 (rounds 1) p)
            (run-Defined name allocated (IsSound name allocated) (step-IsSound name allocated)
              (rounds 1) p sound)
            (round-left p.lines sound))
          λ q (sound', fewer). rounds-ended_from n q sound' (omega arith))

  -- If the name can be assigned and pthread_create succeeds: after any interleaving main returns
  -- within 19 rounds in which both threads have a turn, and nothing is undefined on the way.
  pub rounds-ended :
      (threads : List Thread)
      → Defined
          (λ q. q.main ≡ MainPc.ended)
          (run (some name) allocated 0 (threads ++ rounds 19) start)
  rounds-ended threads =
      subst (Defined (λ q. q.main ≡ MainPc.ended)) (sym (run-append threads (rounds 19) start)) (
        bind-Defined (IsSound name allocated) (λ q. q.main ≡ MainPc.ended)
          (run (some name) allocated 0 threads start) (run (some name) allocated 0 (rounds 19))
          (run-IsSound name allocated threads)
          λ q sound. rounds-ended_from 19 q sound (left-le q.main q.child))
