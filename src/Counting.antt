-- ===== src/Counting.antt =====
-- main, work and output of sample_thread/test_thread2.cpp: a detached thread counts while main
-- looks twice.
pub mod Monotone
use test_server.Base.{
  false, true, ℕ, zero, suc, ◌+◌, ◌%◌, ◌^◌, List, [], ◌∷◌, Option, none, some, Bool, if◌then◌else◌,
  ltb,
}

-- Where main is. Without a thread its constructor throws, and nothing catches that.
pub data MainPc : Type 0 where
  starting : MainPc
  first_sleep : MainPc
  first_output : MainPc
  second_sleep : MainPc
  second_output : MainPc
  returned : MainPc
  terminated : MainPc

-- `work` is the i of the thread's loop, and `output` what was printed, the newest first.
pub record Counter : Type 0 where
  pub main : MainPc
  pub count : ℕ
  pub work : Option ℕ
  pub output : List ℕ

abbrev pub limit : ℕ
limit = 10000000000

-- count++, an atomic int64_t as the number modulo 2^64 that it is represented by.
abbrev pub increment : ℕ → ℕ
increment count = (count + 1) % 2 ^ 64

-- A round of work's loop.
unfoldable pub work_step : Option ℕ → Counter → Counter
work_step none c = c
work_step (some i) c =
    if ltb i limit then record c { count = increment c.count; work = some (i + 1) } else c

-- main, up to its next step; `started` says whether the system gave it a thread. sleep only takes
-- time.
unfoldable pub main_step : Bool → MainPc → Counter → Counter
main_step started starting c =
    if started
    then record c { main = first_sleep; work = some 0 }
    else record c { main = terminated }
main_step started first_sleep c = record c { main = first_output }
main_step started first_output c = record c { main = second_sleep; output = c.count ∷ c.output }
main_step started second_sleep c = record c { main = second_output }
main_step started second_output c = record c { main = returned; output = c.count ∷ c.output }
main_step started returned c = c
main_step started terminated c = c

pub data Turn : Type 0 where
  main_turn : Turn
  work_turn : Turn

-- The process is over when main is.
abbrev pub is_over : MainPc → Bool
is_over returned = true
is_over terminated = true
is_over main = false

unfoldable pub step : Bool → Turn → Counter → Counter
unfolding main_step work_step
step started main_turn c = main_step started c.main c
step started work_turn c = if is_over c.main then c else work_step c.work c

unfoldable pub run : Bool → List Turn → Counter → Counter
unfolding step
run started [] c = c
run started (turn ∷ turns) c = run started turns (step started turn c)

abbrev pub start : Counter
start = record { main = starting; count = 0; work = none; output = [] }
