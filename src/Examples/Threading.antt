-- ===== src/Examples/Threading.antt =====
-- Interleavings of the threads of sample_thread.
use test_server.Base.{List, [], ◌∷◌, ◌++◌, codes, true, refl, ◌≡◌, some}
use test_server.Threads.{
  ChildPc, destroyed, freed, main_wait, created_ret, main_member, run, step, start, Thread,
  main_thread, MainPc, Program, main_speaks, child_wait, child_id, child_member,
}
use test_server.Threads.Sound.{Defined, IsSound, run-IsSound}
use test_server.Threads.Output.{locked_lines, InOneOrder, run-locked_lines}
use test_server.Threads.Fair.{rounds, rounds-ended}

-- The thread takes the mutex while main waits.
abbrev child_takes : List Thread
child_takes = rounds 9

run-IsSound_example :
    Defined (IsSound (codes "HH") true) (run (some (codes "HH")) true 0 child_takes start)
run-IsSound_example = run-IsSound (codes "HH") true child_takes

rounds-ended_example :
    Defined
      (λ q. q.main ≡ MainPc.ended)
      (run (some (codes "HH")) true 0 ((main_thread ∷ main_thread ∷ []) ++ rounds 19) start)
rounds-ended_example = rounds-ended (codes "HH") true (main_thread ∷ main_thread ∷ [])

-- The end of the program, where func has the mutex first.
abbrev func_first : Program
func_first = record {
  main = MainPc.ended;
  child = ChildPc.finished;
  mutex = destroyed;
  member = freed;
  lines =
      main_speaks
      ∷ child_member (codes "HH") 16
      ∷ child_id
      ∷ main_wait
      ∷ child_wait
      ∷ created_ret 0
      ∷ main_member (codes "HH") 16
      ∷ [];
}

run-rounds : run (some (codes "HH")) true 0 (rounds 19) start ≡ some func_first
unfolding run step
run-rounds = refl

run-locked_lines_example : InOneOrder (codes "HH") (locked_lines func_first.lines)
run-locked_lines_example = run-locked_lines (codes "HH") (rounds 19) run-rounds refl
