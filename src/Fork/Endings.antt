-- ===== src/Fork/Endings.antt =====
-- How the processes of sample_process end.
use test_server.Base.{List, [], ◌∷◌, ◌≡◌, ◌⊎◌, inl, inr, refl, true, false}
use test_server.Base.Int.{ℤ, is_negative, is_positive}
use test_server.Os.{Os, Call, fork, sleep, pure}
use test_server.Os.Post.{Post, if-Post, result-Post}
use test_server.Fork.{
  Line, process_line, error_line, children_line, child_exit, father_line, father_exit, process_main,
}

-- The calls that a process has made, the newest first, and the lines that it has printed.
abbrev pub Ends : List Call → List Line → Os → Type 0
Ends before lines os =
    ((pid : ℤ) × (is_negative pid ≡ true)
      × (lines ≡ process_line ∷ error_line ∷ [])
      × (os.trace ≡ fork pid ∷ before))
    ⊎ (((pid : ℤ) × (is_positive pid ≡ true)
          × (lines ≡ process_line ∷ father_line ∷ father_exit ∷ [])
          × (os.trace ≡ fork pid ∷ before))
        ⊎ ((pid : ℤ) × (is_positive pid ≡ false)
            × (lines ≡ process_line ∷ children_line ∷ child_exit ∷ [])
            × (os.trace ≡ sleep ∷ fork pid ∷ before)))

-- Unless the replies run out, every process comes to its end: without a fork, as the father, who
-- waits for nothing, or as the child, who has slept once.
pub process_main-Ends : (os : Os) → Post (Ends os.trace) (process_main os)
unfolding process_main
process_main-Ends os = result-Post fork os _ (Ends os.trace) λ pid rest.
    if-Post (is_negative pid) _ _ _ (Ends os.trace) (λ failed. inl (pid, failed, refl, refl))
      λ forked.
        if-Post (is_positive pid) _ _ _ (Ends os.trace)
          (λ father. inr (inl (pid, father, refl, refl)))
          λ child.
            result-Post (λ r. sleep) (record { script = rest; trace = fork pid ∷ os.trace })
              (λ x. pure (process_line ∷ children_line ∷ child_exit ∷ [])) (Ends os.trace)
              λ slept rest'. inr (inr (pid, child, refl, refl))
