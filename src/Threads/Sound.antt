-- ===== src/Threads/Sound.antt =====
-- The mutex and the struct of sample_thread/test_thread.cpp, in every interleaving.
use test_server.Memory.{◌>>=◌}
use test_server.Base.{
  ◌⊎◌, inl, inr, ◌≡◌, refl, if◌then◌else◌, ℕ, List, [], ◌∷◌, Option, none, some, Bool, true, false,
}
use test_server.Threads.{
  ◌>>=◌, Thread, main_thread, child_thread, Mutex, raw, unlocked, held, destroyed, Member, missing,
  blank, filled, freed, MainPc, ChildPc, absent, Program, run, step, main_step, child_step, start,
  malloc_error, Line,
}

-- func and the mutex while the mutex is not held by main and the thread is there.
pub data Running : ChildPc → Mutex → Type 0 where
  locking : Running ChildPc.locking unlocked
  waiting : Running ChildPc.waiting (held child_thread)
  naming : Running ChildPc.naming (held child_thread)
  reading : Running ChildPc.reading (held child_thread)
  unlocking : Running ChildPc.unlocking (held child_thread)
  finished : Running ChildPc.finished unlocked

-- func while main holds the mutex.
pub data Outside : ChildPc → Type 0 where
  early : Outside ChildPc.locking
  late : Outside ChildPc.finished

-- Where the two are, who holds the mutex, and what has become of the struct, whose name is `name`.
pub data Together (name : List ℕ) (allocated : Bool)
    : MainPc → ChildPc → Mutex → Member → Type 0 where
  allocating : Together name allocated MainPc.allocating absent raw missing
  filling : Together name allocated MainPc.filling absent raw blank
  showing : Together name allocated MainPc.showing absent raw (filled name 16)
  initialising : Together name allocated MainPc.initialising absent raw (filled name 16)
  creating : Together name allocated MainPc.creating absent unlocked (filled name 16)
  reporting :
      {c : ChildPc} {m : Mutex}
      → Running c m
      → Together name allocated MainPc.reporting c m (filled name 16)
  resting :
      {c : ChildPc} {m : Mutex}
      → Running c m
      → Together name allocated MainPc.resting c m (filled name 16)
  locking :
      {c : ChildPc} {m : Mutex}
      → Running c m
      → Together name allocated MainPc.locking c m (filled name 16)
  speaking :
      {c : ChildPc}
      → Outside c
      → Together name allocated MainPc.speaking c (held main_thread) (filled name 16)
  unlocking :
      {c : ChildPc}
      → Outside c
      → Together name allocated MainPc.unlocking c (held main_thread) (filled name 16)
  joining :
      {c : ChildPc} {m : Mutex}
      → Running c m
      → Together name allocated MainPc.joining c m (filled name 16)
  freeing : Together name allocated MainPc.freeing ChildPc.finished unlocked (filled name 16)
  destroying : Together name allocated MainPc.destroying ChildPc.finished unlocked freed
  ended : Together name allocated MainPc.ended ChildPc.finished destroyed freed
  failed : allocated ≡ false → Together name allocated MainPc.ended absent raw missing

abbrev pub IsSound : List ℕ → Bool → Program → Type 0
IsSound name allocated p = Together name allocated p.main p.child p.mutex p.member

-- When main has returned, and malloc had memory, func has finished, and the mutex and the struct
-- are gone.
pub ended-finished :
    {name : List ℕ} {allocated : Bool} {main : MainPc} {child : ChildPc} {mutex : Mutex}
    {member : Member}
    → Together name allocated main child mutex member
    → main ≡ MainPc.ended
    → (allocated ≡ false) ⊎ ((child ≡ ChildPc.finished) × (mutex ≡ destroyed) × (member ≡ freed))
ended-finished Together.ended e = inr (refl, refl, refl)
ended-finished (Together.failed none_left) e = inl none_left
ended-finished _ e = absurd (cc)

-- What holds of a program that goes on; undefined behaviour does not.
abbrev pub Defined : (Program → Type 0) → Option Program → Type 0
Defined P none = ⊥
Defined P (some p) = P p

pub bind-Defined :
    (P Q : Program → Type 0) (m : Option Program) (f : Program → Option Program)
    → Defined P m
    → ((p : Program) → P p → Defined Q (f p))
    → Defined Q (m >>= f)
bind-Defined P Q none f h next = h
bind-Defined P Q (some p) f h next = next p h

pub both-Defined :
    (P Q : Program → Type 0) (m : Option Program)
    → Defined P m
    → Defined Q m
    → Defined (λ p. P p × Q p) m
both-Defined P Q none h h' = h
both-Defined P Q (some p) h h' = (h, h')

abbrev pub at_fields : MainPc → ChildPc → Mutex → Member → List Line → Program
at_fields main child mutex member lines = record {
  main = main;
  child = child;
  mutex = mutex;
  member = member;
  lines = lines;
}

module _ (name : List ℕ) (allocated : Bool) where
  main_step-IsSound :
      {main : MainPc} {child : ChildPc} {mutex : Mutex} {member : Member} (lines : List Line)
      → Together name allocated main child mutex member
      → Defined
          (IsSound name allocated)
          (main_step (some name) allocated 0 main (at_fields main child mutex member lines))
  unfolding main_step
  main_step-IsSound lines Together.allocating = by_malloc allocated refl
    where
      by_malloc :
          (b : Bool)
          → allocated ≡ b
          → Defined (IsSound name allocated) (
              if b
              then some (at_fields MainPc.filling absent raw blank lines)
              else some (at_fields MainPc.ended absent raw missing (malloc_error ∷ lines)))
      by_malloc true e = Together.filling
      by_malloc false e = Together.failed e
  main_step-IsSound lines Together.filling = Together.showing
  main_step-IsSound lines Together.showing = Together.initialising
  main_step-IsSound lines Together.initialising = Together.creating
  main_step-IsSound lines Together.creating = Together.reporting Running.locking
  main_step-IsSound lines (Together.reporting r) = Together.resting r
  main_step-IsSound lines (Together.resting r) = Together.locking r
  main_step-IsSound lines (Together.locking Running.locking) = Together.speaking Outside.early
  main_step-IsSound lines (Together.locking Running.waiting) = Together.locking Running.waiting
  main_step-IsSound lines (Together.locking Running.naming) = Together.locking Running.naming
  main_step-IsSound lines (Together.locking Running.reading) = Together.locking Running.reading
  main_step-IsSound lines (Together.locking Running.unlocking) = Together.locking Running.unlocking
  main_step-IsSound lines (Together.locking Running.finished) = Together.speaking Outside.late
  main_step-IsSound lines (Together.speaking o) = Together.unlocking o
  main_step-IsSound lines (Together.unlocking Outside.early) = Together.joining Running.locking
  main_step-IsSound lines (Together.unlocking Outside.late) = Together.joining Running.finished
  main_step-IsSound lines (Together.joining Running.locking) = Together.joining Running.locking
  main_step-IsSound lines (Together.joining Running.waiting) = Together.joining Running.waiting
  main_step-IsSound lines (Together.joining Running.naming) = Together.joining Running.naming
  main_step-IsSound lines (Together.joining Running.reading) = Together.joining Running.reading
  main_step-IsSound lines (Together.joining Running.unlocking) = Together.joining Running.unlocking
  main_step-IsSound lines (Together.joining Running.finished) = Together.freeing
  main_step-IsSound lines Together.freeing = Together.destroying
  main_step-IsSound lines Together.destroying = Together.ended
  main_step-IsSound lines Together.ended = Together.ended
  main_step-IsSound lines (Together.failed none_left) = Together.failed none_left

  -- A step of func, where main allows it any.
  running_step :
      (main : MainPc)
      (allowed : (c : ChildPc) (m : Mutex)
        → Running c m
        → Together name allocated main c m (filled name 16))
      {child : ChildPc} {mutex : Mutex} (lines : List Line)
      → Running child mutex
      → Defined
          (IsSound name allocated)
          (child_step child (at_fields main child mutex (filled name 16) lines))
  unfolding child_step
  running_step main allowed lines Running.locking = allowed _ _ Running.waiting
  running_step main allowed lines Running.waiting = allowed _ _ Running.naming
  running_step main allowed lines Running.naming = allowed _ _ Running.reading
  running_step main allowed lines Running.reading = allowed _ _ Running.unlocking
  running_step main allowed lines Running.unlocking = allowed _ _ Running.finished
  running_step main allowed lines Running.finished = allowed _ _ Running.finished

  child_step-IsSound :
      {main : MainPc} {child : ChildPc} {mutex : Mutex} {member : Member} (lines : List Line)
      → Together name allocated main child mutex member
      → Defined
          (IsSound name allocated)
          (child_step child (at_fields main child mutex member lines))
  unfolding child_step
  child_step-IsSound lines (Together.reporting r) =
      running_step _ (λ c m. Together.reporting) lines r
  child_step-IsSound lines (Together.resting r) = running_step _ (λ c m. Together.resting) lines r
  child_step-IsSound lines (Together.locking r) = running_step _ (λ c m. Together.locking) lines r
  child_step-IsSound lines (Together.joining r) = running_step _ (λ c m. Together.joining) lines r
  child_step-IsSound lines (Together.speaking Outside.early) = Together.speaking Outside.early
  child_step-IsSound lines (Together.speaking Outside.late) = Together.speaking Outside.late
  child_step-IsSound lines (Together.unlocking Outside.early) = Together.unlocking Outside.early
  child_step-IsSound lines (Together.unlocking Outside.late) = Together.unlocking Outside.late
  child_step-IsSound lines Together.allocating = Together.allocating
  child_step-IsSound lines Together.filling = Together.filling
  child_step-IsSound lines Together.showing = Together.showing
  child_step-IsSound lines Together.initialising = Together.initialising
  child_step-IsSound lines Together.creating = Together.creating
  child_step-IsSound lines Together.freeing = Together.freeing
  child_step-IsSound lines Together.destroying = Together.destroying
  child_step-IsSound lines Together.ended = Together.ended
  child_step-IsSound lines (Together.failed none_left) = Together.failed none_left

  pub step-IsSound :
      (thread : Thread) (p : Program)
      → IsSound name allocated p
      → Defined (IsSound name allocated) (step (some name) allocated 0 thread p)
  unfolding step
  step-IsSound main_thread p h = main_step-IsSound p.lines h
  step-IsSound child_thread p h = child_step-IsSound p.lines h

  -- What each step keeps holds at the end of any interleaving.
  pub run-Defined :
      (P : Program → Type 0)
      → ((thread : Thread) (p : Program) → P p → Defined P (step (some name) allocated 0 thread p))
      → (threads : List Thread) (p : Program) → P p
      → Defined P (run (some name) allocated 0 threads p)
  unfolding run
  run-Defined P keeps [] p h = h
  run-Defined P keeps (thread ∷ threads) p h =
      bind-Defined P P (step (some name) allocated 0 thread p) (run (some name) allocated 0 threads)
        (keeps thread p h) λ q h'. run-Defined P keeps threads q h'

  -- If the name can be assigned and pthread_create succeeds, no interleaving is undefined: at any
  -- time the two threads, the mutex and the struct are as the table has them. So the mutex is held
  -- by the one thread that is between its lock and its unlock, the struct is there and filled as
  -- long as func may read it, and when main has returned func has finished, the mutex is destroyed
  -- and the struct freed, or malloc has failed.
  pub run-IsSound :
      (threads : List Thread)
      → Defined (IsSound name allocated) (run (some name) allocated 0 threads start)
  run-IsSound threads =
      run-Defined (IsSound name allocated) step-IsSound threads start Together.allocating
