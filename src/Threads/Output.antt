-- ===== src/Threads/Output.antt =====
-- The lines that the two threads of sample_thread/test_thread.cpp print with the mutex held.
use test_server.Base.{
  append-nil, ◌≢◌, ◌∙◌, ap, ℕ, List, [], ◌∷◌, ◌++◌, some, true, ◌≡◌, refl, ◌⊎◌, inl, inr,
}
use test_server.Threads.{
  filled, Thread, main_thread, child_thread, Mutex, Member, MainPc, ChildPc, Program, run, step,
  main_step, child_step, start, Line, main_speaks, child_wait, child_id, child_member,
}
use test_server.Threads.Sound.{
  both-Defined, Running, Outside, Together, IsSound, Defined, ended-finished, step-IsSound,
  run-Defined, at_fields,
}

-- The newest first, as in `lines`.
abbrev pub locked_lines : List Line → List Line
locked_lines [] = []
locked_lines (main_speaks ∷ lines) = main_speaks ∷ locked_lines lines
locked_lines (child_wait ∷ lines) = child_wait ∷ locked_lines lines
locked_lines (child_id ∷ lines) = child_id ∷ locked_lines lines
locked_lines (child_member name age ∷ lines) = child_member name age ∷ locked_lines lines
locked_lines (_ ∷ lines) = locked_lines lines

-- What main, and func, have printed with the mutex held when they come to a place.
abbrev pub spoken : MainPc → List Line
spoken MainPc.unlocking = main_speaks ∷ []
spoken MainPc.joining = main_speaks ∷ []
spoken MainPc.freeing = main_speaks ∷ []
spoken MainPc.destroying = main_speaks ∷ []
spoken MainPc.ended = main_speaks ∷ []
spoken _ = []

abbrev pub told : List ℕ → ChildPc → List Line
told name ChildPc.naming = child_wait ∷ []
told name ChildPc.reading = child_id ∷ child_wait ∷ []
told name ChildPc.unlocking = child_member name 16 ∷ child_id ∷ child_wait ∷ []
told name ChildPc.finished = child_member name 16 ∷ child_id ∷ child_wait ∷ []
told name _ = []

-- One after the other: func first, and main only when it has finished; or main first.
abbrev pub InSequence : List Line → List Line → ChildPc → List Line → Type 0
InSequence by_main by_child child lines =
    (((by_main ≡ []) ⊎ (child ≡ ChildPc.finished)) × (lines ≡ by_main ++ by_child))
    ⊎ (lines ≡ by_child ++ by_main)

abbrev pub InTurn : List ℕ → MainPc → ChildPc → List Line → Type 0
InTurn name main child lines = InSequence (spoken main) (told name child) child lines

only_child :
    (by_child : List Line) (child : ChildPc) (lines : List Line)
    → InSequence [] by_child child lines
    → lines ≡ by_child
only_child by_child child lines (inl (_, e)) = e
only_child by_child child lines (inr e) = e ∙ append-nil by_child

-- func's next line, or none.
child_prints :
    (by_main by_child : List Line) (child next : ChildPc) (lines : List Line) (line : Line)
    → child ≢ ChildPc.finished
    → InSequence by_main by_child child lines
    → InSequence by_main (line ∷ by_child) next (line ∷ lines)
child_prints by_main by_child child next lines line on (inl (inl none_yet, e)) =
    inl (inl none_yet, rw (e, none_yet) refl)
child_prints by_main by_child child next lines line on (inl (inr over, e)) = absurd (on over)
child_prints by_main by_child child next lines line on (inr e) = inr (ap (◌∷◌ line) e)

child_moves :
    (by_main by_child : List Line) (child next : ChildPc) (lines : List Line)
    → child ≢ ChildPc.finished
    → InSequence by_main by_child child lines
    → InSequence by_main by_child next lines
child_moves by_main by_child child next lines on (inl (inl none_yet, e)) = inl (inl none_yet, e)
child_moves by_main by_child child next lines on (inl (inr over, e)) = absurd (on over)
child_moves by_main by_child child next lines on (inr e) = inr e

module _ (name : List ℕ) where
  main_step-InTurn :
      {main : MainPc} {child : ChildPc} {mutex : Mutex} {member : Member} (lines : List Line)
      → Together name true main child mutex member
      → InTurn name main child (locked_lines lines)
      → Defined
          (λ p. InTurn name p.main p.child (locked_lines p.lines))
          (main_step (some name) true 0 main (at_fields main child mutex member lines))
  unfolding main_step
  main_step-InTurn lines Together.allocating h = h
  main_step-InTurn lines Together.filling h = h
  main_step-InTurn lines Together.showing h = h
  main_step-InTurn lines Together.initialising h = h
  main_step-InTurn lines Together.creating h =
      inr (only_child [] ChildPc.absent (locked_lines lines) h)
  main_step-InTurn lines (Together.reporting r) h = h
  main_step-InTurn lines (Together.resting r) h = h
  main_step-InTurn lines (Together.locking Running.locking) h = h
  main_step-InTurn lines (Together.locking Running.waiting) h = h
  main_step-InTurn lines (Together.locking Running.naming) h = h
  main_step-InTurn lines (Together.locking Running.reading) h = h
  main_step-InTurn lines (Together.locking Running.unlocking) h = h
  main_step-InTurn lines (Together.locking Running.finished) h = h
  main_step-InTurn lines (Together.speaking Outside.early) h =
      inr (ap (◌∷◌ main_speaks) (only_child [] ChildPc.locking (locked_lines lines) h))
  main_step-InTurn lines (Together.speaking Outside.late) h = inl (
    inr refl,
    ap (◌∷◌ main_speaks)
        (only_child (told name ChildPc.finished) ChildPc.finished (locked_lines lines) h),
  )
  main_step-InTurn lines (Together.unlocking Outside.early) h = h
  main_step-InTurn lines (Together.unlocking Outside.late) h = h
  main_step-InTurn lines (Together.joining Running.locking) h = h
  main_step-InTurn lines (Together.joining Running.waiting) h = h
  main_step-InTurn lines (Together.joining Running.naming) h = h
  main_step-InTurn lines (Together.joining Running.reading) h = h
  main_step-InTurn lines (Together.joining Running.unlocking) h = h
  main_step-InTurn lines (Together.joining Running.finished) h = h
  main_step-InTurn lines Together.freeing h = h
  main_step-InTurn lines Together.destroying h = h
  main_step-InTurn lines Together.ended h = h
  main_step-InTurn lines (Together.failed none_left) h = h

  running_step-InTurn :
      (main : MainPc) {child : ChildPc} {mutex : Mutex} (lines : List Line)
      → Running child mutex
      → InTurn name main child (locked_lines lines)
      → Defined
          (λ p. InTurn name p.main p.child (locked_lines p.lines))
          (child_step child (at_fields main child mutex (filled name 16) lines))
  unfolding child_step
  running_step-InTurn main lines Running.locking h =
      child_moves (spoken main) [] ChildPc.locking ChildPc.waiting (locked_lines lines) (λ e. cc) h
  running_step-InTurn main lines Running.waiting h =
      child_prints (spoken main) [] ChildPc.waiting ChildPc.naming (locked_lines lines) child_wait
        (λ e. cc) h
  running_step-InTurn main lines Running.naming h =
      child_prints (spoken main) (told name ChildPc.naming) ChildPc.naming ChildPc.reading
        (locked_lines lines) child_id (λ e. cc) h
  running_step-InTurn main lines Running.reading h =
      child_prints (spoken main) (told name ChildPc.reading) ChildPc.reading ChildPc.unlocking
        (locked_lines lines) (child_member name 16) (λ e. cc) h
  running_step-InTurn main lines Running.unlocking h =
      child_moves (spoken main) (told name ChildPc.unlocking) ChildPc.unlocking ChildPc.finished
        (locked_lines lines) (λ e. cc) h
  running_step-InTurn main lines Running.finished h = h

  child_step-InTurn :
      {main : MainPc} {child : ChildPc} {mutex : Mutex} {member : Member} (lines : List Line)
      → Together name true main child mutex member
      → InTurn name main child (locked_lines lines)
      → Defined
          (λ p. InTurn name p.main p.child (locked_lines p.lines))
          (child_step child (at_fields main child mutex member lines))
  unfolding child_step
  child_step-InTurn lines (Together.reporting r) h = running_step-InTurn _ lines r h
  child_step-InTurn lines (Together.resting r) h = running_step-InTurn _ lines r h
  child_step-InTurn lines (Together.locking r) h = running_step-InTurn _ lines r h
  child_step-InTurn lines (Together.joining r) h = running_step-InTurn _ lines r h
  child_step-InTurn lines (Together.speaking Outside.early) h = h
  child_step-InTurn lines (Together.speaking Outside.late) h = h
  child_step-InTurn lines (Together.unlocking Outside.early) h = h
  child_step-InTurn lines (Together.unlocking Outside.late) h = h
  child_step-InTurn lines Together.allocating h = h
  child_step-InTurn lines Together.filling h = h
  child_step-InTurn lines Together.showing h = h
  child_step-InTurn lines Together.initialising h = h
  child_step-InTurn lines Together.creating h = h
  child_step-InTurn lines Together.freeing h = h
  child_step-InTurn lines Together.destroying h = h
  child_step-InTurn lines Together.ended h = h
  child_step-InTurn lines (Together.failed none_left) h = h

  step-InTurn :
      (thread : Thread) (p : Program)
      → IsSound name true p × InTurn name p.main p.child (locked_lines p.lines)
      → Defined
          (λ q. IsSound name true q × InTurn name q.main q.child (locked_lines q.lines))
          (step (some name) true 0 thread p)
  unfolding step
  step-InTurn main_thread p (sound, h) =
      both-Defined (IsSound name true) (λ q. InTurn name q.main q.child (locked_lines q.lines))
        (main_step (some name) true 0 p.main p) (step-IsSound name true main_thread p sound)
        (main_step-InTurn p.lines sound h)
  step-InTurn child_thread p (sound, h) =
      both-Defined (IsSound name true) (λ q. InTurn name q.main q.child (locked_lines q.lines))
        (child_step p.child p) (step-IsSound name true child_thread p sound)
        (child_step-InTurn p.lines sound h)

  -- main's line under the mutex and the three of func, in the order in which they are in `lines`.
  abbrev pub InOneOrder : List Line → Type 0
  InOneOrder lines =
      (lines ≡ main_speaks ∷ child_member name 16 ∷ child_id ∷ child_wait ∷ [])
      ⊎ (lines ≡ child_member name 16 ∷ child_id ∷ child_wait ∷ main_speaks ∷ [])

  in_one_order :
      (main : MainPc) (child : ChildPc) (mutex : Mutex) (member : Member) (lines : List Line)
      → main ≡ MainPc.ended
      → Together name true main child mutex member × InTurn name main child lines
      → InOneOrder lines
  in_one_order main child mutex member lines over (sound, h) = elim (ended-finished sound over) [
    | inl none_left ↦ absurd (cc)
    | inr (finished, _, _) ↦ printed lines (rw (over, finished) at h)
  ]
    where
      printed : (ls : List Line) → InTurn name MainPc.ended ChildPc.finished ls → InOneOrder ls
      printed ls (inl (_, e)) = inl e
      printed ls (inr e) = inr e

  -- If malloc and pthread_create succeed and the name can be assigned: when main has returned, in
  -- any interleaving, its line "main thread MMMM" and the three lines of func were printed, the
  -- three in their order and main's before or behind them all.
  pub run-locked_lines :
      (threads : List Thread) {p : Program}
      → run (some name) true 0 threads start ≡ some p
      → p.main ≡ MainPc.ended
      → InOneOrder (locked_lines p.lines)
  run-locked_lines threads {p} e over =
      in_one_order p.main p.child p.mutex p.member (locked_lines p.lines) over (
        rw e at (
          run-Defined name true
            (λ q. IsSound name true q × InTurn name q.main q.child (locked_lines q.lines))
            step-InTurn threads start (Together.allocating, inr refl)))
