-- ===== src/Counting/Monotone.antt =====
-- What main of sample_thread/test_thread2.cpp prints, in every interleaving.
use test_server.Base.{
  Bool-cases, ltb, ltb→lt, inl, inr, ap, ℕ, suc, ◌+◌, ◌≤◌, List, [], ◌∷◌, Option, none, some, Bool,
  true, false, ◌≡◌, refl, arith,
}
use test_server.Counting.{
  increment, is_over, is_over, MainPc, Counter, limit, work_step, main_step, step, Turn, main_turn,
  work_turn, run, start,
}

-- The thread has counted as often as it has gone round, which is not more than its limit.
abbrev InStep : Option ℕ → ℕ → Type 0
InStep none count = count ≡ 0
InStep (some i) count = (count ≡ i) × (i ≤ limit)

-- What was printed when main has come to a place, the newest first: nothing, the count as it was,
-- or that and the count as it is.
abbrev pub Printed : MainPc → Option ℕ → ℕ → List ℕ → Type 0
Printed MainPc.starting work count output = (work ≡ none) × (count ≡ 0) × (output ≡ [])
Printed MainPc.first_sleep work count output = output ≡ []
Printed MainPc.first_output work count output = output ≡ []
Printed MainPc.second_sleep work count output =
    (first : ℕ) × (output ≡ first ∷ []) × (first ≤ count)
Printed MainPc.second_output work count output =
    (first : ℕ) × (output ≡ first ∷ []) × (first ≤ count)
Printed MainPc.returned work count output =
    (first : ℕ) × (output ≡ count ∷ first ∷ []) × (first ≤ count)
Printed MainPc.terminated work count output = output ≡ []

abbrev pub IsMonotone : Counter → Type 0
IsMonotone c = InStep c.work c.count × Printed c.main c.work c.count c.output

main_step-IsMonotone :
    (started : Bool) (main : MainPc) (count : ℕ) (work : Option ℕ) (output : List ℕ)
    → InStep work count
    → Printed main work count output
    → IsMonotone (
        main_step started main
          (record { main = main; count = count; work = work; output = output }))
unfolding main_step
main_step-IsMonotone true MainPc.starting count work output h (no_work, none_yet, e) =
    ((none_yet, omega arith), e)
main_step-IsMonotone false MainPc.starting count work output h (no_work, none_yet, e) = (h, e)
main_step-IsMonotone started MainPc.first_sleep count work output h e = (h, e)
main_step-IsMonotone started MainPc.first_output count work output h e =
    (h, (count, ap (◌∷◌ count) e, omega arith))
main_step-IsMonotone started MainPc.second_sleep count work output h e = (h, e)
main_step-IsMonotone started MainPc.second_output count work output h (first, e, le) =
    (h, (first, ap (◌∷◌ count) e, le))
main_step-IsMonotone started MainPc.returned count work output h e = (h, e)
main_step-IsMonotone started MainPc.terminated count work output h e = (h, e)

Printed-grow :
    (main : MainPc) (i j count : ℕ) (output : List ℕ)
    → is_over main ≡ false
    → Printed main (some i) count output
    → Printed main (some j) (suc count) output
Printed-grow MainPc.starting i j count output on (no_work, _, _) = absurd (cc)
Printed-grow MainPc.first_sleep i j count output on e = e
Printed-grow MainPc.first_output i j count output on e = e
Printed-grow MainPc.second_sleep i j count output on (first, e, le) = (first, e, omega arith)
Printed-grow MainPc.second_output i j count output on (first, e, le) = (first, e, omega arith)
Printed-grow MainPc.returned i j count output on h = absurd (cc)
Printed-grow MainPc.terminated i j count output on h = absurd (cc)

-- The thread's increments do not wrap around, and only make the count larger.
work_step-IsMonotone :
    (main : MainPc) (count : ℕ) (work : Option ℕ) (output : List ℕ)
    → is_over main ≡ false
    → InStep work count
    → Printed main work count output
    → IsMonotone
        (work_step work (record { main = main; count = count; work = work; output = output }))
unfolding work_step
work_step-IsMonotone main count none output on h printed = (h, printed)
work_step-IsMonotone main count (some i) output on (same, le) printed =
    elim (Bool-cases (ltb i limit)) [
      | inl more ↦
          rw (more, no_wrap more)
            (
              (omega (arith, same), omega (arith, ltb→lt i limit more)),
              Printed-grow main i (i + 1) count output on printed,
            )
      | inr last ↦ rw last ((same, le), printed)
    ]
  where
    no_wrap : ltb i limit ≡ true → increment count ≡ suc count
    no_wrap more = omega (arith, same, le, ltb→lt i limit more)

step-IsMonotone :
    (started : Bool) (turn : Turn) (c : Counter) → IsMonotone c → IsMonotone (step started turn c)
unfolding step
step-IsMonotone started main_turn c (h, printed) =
    main_step-IsMonotone started c.main c.count c.work c.output h printed
step-IsMonotone started work_turn c (h, printed) = elim (Bool-cases (is_over c.main)) [
  | inl over ↦ rw over (h, printed)
  | inr on ↦ rw on (work_step-IsMonotone c.main c.count c.work c.output on h printed)
]

pub run-IsMonotone :
    (started : Bool) (turns : List Turn) (c : Counter)
    → IsMonotone c
    → IsMonotone (run started turns c)
unfolding run
run-IsMonotone started [] c h = h
run-IsMonotone started (turn ∷ turns) c h =
    run-IsMonotone started turns (step started turn c) (step-IsMonotone started turn c h)

two_counts :
    (c : Counter)
    → c.main ≡ MainPc.returned
    → IsMonotone c
    → (first : ℕ) × (second : ℕ) × (c.output ≡ second ∷ first ∷ [])
      × (first ≤ second)
      × (second ≤ limit)
two_counts c over (h, printed) = at_return c.main c.work c.count c.output over h printed
  where
    at_return :
        (main : MainPc) (work : Option ℕ) (count : ℕ) (output : List ℕ)
        → main ≡ MainPc.returned
        → InStep work count
        → Printed main work count output
        → (first : ℕ) × (second : ℕ) × (output ≡ second ∷ first ∷ [])
          × (first ≤ second)
          × (second ≤ limit)
    at_return MainPc.returned none count output e h' (first, printed', le) =
        (first, count, printed', le, omega arith)
    at_return MainPc.returned (some i) count output e h' (first, printed', le) =
        (first, count, printed', le, omega arith)
    at_return _ work count output e h' printed' = absurd (cc)

-- In any interleaving, when main has returned it has printed two numbers, the first no larger than
-- the second, and the second no larger than the limit of the thread's loop.
pub run-two_counts :
    (turns : List Turn)
    → (run true turns start).main ≡ MainPc.returned
    → (first : ℕ) × (second : ℕ) × ((run true turns start).output ≡ second ∷ first ∷ [])
      × (first ≤ second)
      × (second ≤ limit)
run-two_counts turns over =
    two_counts (run true turns start) over
      (run-IsMonotone true turns start (refl, (refl, refl, refl)))
