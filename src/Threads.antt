-- ===== src/Threads.antt =====
-- main and func of sample_thread/test_thread.cpp: two threads, a mutex, and a struct in memory that
-- malloc gave.
pub mod Sound
pub mod Output
pub mod Fair
pub mod Failing
use test_server.Base.{
  ◌==◌, if◌then◌else◌, Bool, ℕ, zero, suc, List, [], ◌∷◌, Option, none, some, codes,
}
use test_server.Memory.{◌>>=◌}

pub data Thread : Type 0 where
  main_thread : Thread
  child_thread : Thread

-- m_mutex, and the struct that `a` points to.
pub data Mutex : Type 0 where
  raw : Mutex
  unlocked : Mutex
  held : Thread → Mutex
  destroyed : Mutex

pub data Member : Type 0 where
  missing : Member
  blank : Member
  filled : List ℕ → ℕ → Member
  freed : Member

-- The printfs of the program, without the ids of the threads.
pub data Line : Type 0 where
  malloc_error : Line
  main_member : List ℕ → ℕ → Line
  created_ret : ℕ → Line
  main_wait : Line
  main_speaks : Line
  child_wait : Line
  child_id : Line
  child_member : List ℕ → ℕ → Line

-- Where main is: what it does next.
pub data MainPc : Type 0 where
  allocating : MainPc
  filling : MainPc
  showing : MainPc
  initialising : MainPc
  creating : MainPc
  reporting : MainPc
  resting : MainPc
  locking : MainPc
  speaking : MainPc
  unlocking : MainPc
  joining : MainPc
  freeing : MainPc
  destroying : MainPc
  ended : MainPc

-- Where func is. There is no thread before pthread_create, or if it fails.
pub data ChildPc : Type 0 where
  absent : ChildPc
  locking : ChildPc
  waiting : ChildPc
  naming : ChildPc
  reading : ChildPc
  unlocking : ChildPc
  finished : ChildPc

-- `lines` has the newest line first.
pub record Program : Type 0 where
  pub main : MainPc
  pub child : ChildPc
  pub mutex : Mutex
  pub member : Member
  pub lines : List Line

-- pthread_mutex_lock: `none` is undefined; where the mutex is held the thread stays where it is.
unfoldable pub lock : Thread → Program → Program → Mutex → Option Program
lock thread before after raw = none
lock thread before after unlocked = some (record after { mutex = held thread })
lock thread before after (held other) = some before
lock thread before after destroyed = none

-- pthread_mutex_unlock, defined for the thread that holds the mutex.
unfoldable pub unlock : Thread → Program → Mutex → Option Program
unlock main_thread after (held main_thread) = some (record after { mutex = unlocked })
unlock child_thread after (held child_thread) = some (record after { mutex = unlocked })
unlock thread after mutex = none

-- pthread_mutex_destroy, defined for one that nobody holds.
unfoldable pub destroy : Program → Mutex → Option Program
destroy after unlocked = some (record after { mutex = destroyed })
destroy after mutex = none

-- printf("m.name=%s, m.age=%d\n", ...), by either thread.
unfoldable pub show : (List ℕ → ℕ → Line) → Program → Member → Option Program
show line after (filled name age) = some (record after { lines = line name age ∷ after.lines })
show line after member = none

-- free: the struct, once.
unfoldable pub release : Program → Member → Option Program
release after (filled name age) = some (record after { member = freed })
release after blank = some (record after { member = freed })
release after member = none

-- pthread_join waits for func's end. Without a thread `tid` has no value.
unfoldable pub join : Program → ChildPc → Program → Option Program
join before absent after = none
join before finished after = some after
join before other after = some before

-- a->name = "HH"; a->age = 16. No constructor ran for the name; the parameter says what the
-- assignment does.
unfoldable pub fill : Option (List ℕ) → Program → Member → Option Program
fill assigned after blank = assigned >>= λ name. some (record after { member = filled name 16 })
fill assigned after member = none

-- func, up to its next step.
unfoldable pub child_step : ChildPc → Program → Option Program
unfolding lock unlock show
child_step absent p = some p
child_step locking p = lock child_thread p (record p { child = waiting }) p.mutex
child_step waiting p = some (record p { child = naming; lines = child_wait ∷ p.lines })
child_step naming p = some (record p { child = reading; lines = child_id ∷ p.lines })
child_step reading p = show child_member (record p { child = unlocking }) p.member
child_step unlocking p = unlock child_thread (record p { child = finished }) p.mutex
child_step finished p = some p

-- `assigned` is the name after its assignment, `allocated` says that malloc had memory, and `ret`
-- is the result of pthread_create.
module _ (assigned : Option (List ℕ)) (allocated : Bool) (ret : ℕ) where
  -- main, up to its next step.
  unfoldable pub main_step : MainPc → Program → Option Program
  unfolding lock unlock destroy show release join fill
  main_step allocating p =
      if allocated
      then some (record p { main = filling; member = blank })
      else some (record p { main = ended; lines = malloc_error ∷ p.lines })
  main_step filling p = fill assigned (record p { main = showing }) p.member
  main_step showing p = show main_member (record p { main = initialising }) p.member
  main_step initialising p = some (record p { main = creating; mutex = unlocked })
  main_step creating p =
      some (record p { main = reporting; child = if ret == 0 then locking else absent })
  main_step reporting p = some (record p { main = resting; lines = created_ret ret ∷ p.lines })
  main_step resting p = some (record p { main = locking; lines = main_wait ∷ p.lines })
  main_step locking p = lock main_thread p (record p { main = speaking }) p.mutex
  main_step speaking p = some (record p { main = unlocking; lines = main_speaks ∷ p.lines })
  main_step unlocking p = unlock main_thread (record p { main = joining }) p.mutex
  main_step joining p = join p p.child (record p { main = freeing })
  main_step freeing p = release (record p { main = destroying }) p.member
  main_step destroying p = destroy (record p { main = ended }) p.mutex
  main_step ended p = some p

  unfoldable pub step : Thread → Program → Option Program
  unfolding main_step child_step
  step main_thread p = main_step p.main p
  step child_thread p = child_step p.child p

  -- An interleaving: the threads in the order in which they take a step; `none` is undefined
  -- behaviour.
  unfoldable pub run : List Thread → Program → Option Program
  unfolding step
  run [] p = some p
  run (thread ∷ threads) p = step thread p >>= λ next. run threads next

abbrev pub start : Program
start = record { main = allocating; child = absent; mutex = raw; member = missing; lines = [] }
