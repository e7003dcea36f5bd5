-- ===== src/Serve.antt =====
-- The servers of sample_socket/test_server.cpp that take one connection at a time: `one_accept`,
-- `thread_accept`, `process_accept` and `pthread_func`. The two functions that they are given are
-- parameters.
pub mod Lifecycle
pub mod Processes
pub mod Race
pub mod Threads
use test_server.Base.{ℕ, zero, suc, List, Bool, true, false, if◌then◌else◌, not, length}
use test_server.Base.Int.{ℤ, pos, negsuc, is_negative, is_positive, is_zero, minus_one}
use test_server.Os.{
  M, pure, starve, ◌>>=◌, ◌>>◌, result, Call, accept, close, spawn, fork, wait, exit,
}

-- How a process leaves a server: by a return, or by exit.
pub data Leaves : Type 0 where
  returned : ℤ → Leaves
  exited : ℕ → Leaves

module _ (write_message read_message : ℤ → M ℤ) where
  -- What all of them do with a connection.
  unfoldable pub exchange : ℤ → M ℤ
  exchange linkage_fd = write_message linkage_fd >> read_message linkage_fd

  -- one_accept(listening_fd, write_message, read_message)
  unfoldable pub one_accept : ℤ → M ℤ
  unfolding exchange
  one_accept listening_fd = do
    linkage_fd ← result (accept listening_fd)
    let served = do
      exchange linkage_fd
      result (λ r. close linkage_fd)
      result (λ r. close listening_fd)
      pure (pos 0)
    if is_negative linkage_fd then pure minus_one else served

  -- pthread_func(m), on the descriptor that it reads from `m`.
  unfoldable pub pthread_func : ℤ → M ℤ
  unfolding exchange
  pthread_func linkage_fd = exchange linkage_fd >> result (λ r. close linkage_fd)

  -- The loop of thread_accept: the main thread's calls, `spawn` being pthread_create.
  unfoldable pub thread_loop : ℕ → ℤ → M ℤ
  thread_loop zero listening_fd = starve
  thread_loop (suc fuel) listening_fd = do
    linkage_fd ← result (accept listening_fd)
    let started = do
      ret ← result (λ r. spawn linkage_fd)
      let again = thread_loop fuel listening_fd
      if is_zero ret then again else pure (pos 0)
    if is_negative linkage_fd then pure (pos 0) else started

  unfoldable pub thread_accept : ℤ → M ℤ
  unfolding thread_loop
  thread_accept listening_fd os = thread_loop (length os.script) listening_fd os

  -- The child of process_accept, from the second fork on.
  unfoldable pub child : ℤ → M Leaves
  unfolding pthread_func
  child linkage_fd = do
    pid ← result fork
    let grandson = do pthread_func linkage_fd; result (λ r. close linkage_fd); pure (exited 0)
    let leaves = λ (status : ℕ). result (λ r. close linkage_fd) >> pure (exited status)
    if is_negative pid then leaves 1 else if is_positive pid then leaves 0 else grandson

  -- The loop of process_accept, in whichever process the replies of `fork` make it.
  unfoldable pub process_loop : ℕ → ℤ → M Leaves
  unfolding child
  process_loop zero listening_fd = starve
  process_loop (suc fuel) listening_fd = do
    linkage_fd ← result (accept listening_fd)
    let forked = do
      pid ← result fork
      let again = do
        result (λ r. wait)
        result (λ r. close linkage_fd)
        process_loop fuel listening_fd
      let first = result (λ r. close listening_fd) >> child linkage_fd
      let parent = if is_positive pid then again else first
      if is_negative pid then pure (returned minus_one) else parent
    if is_negative linkage_fd then pure (returned minus_one) else forked

  unfoldable pub process_accept : ℤ → M Leaves
  unfolding process_loop
  process_accept listening_fd os = process_loop (length os.script) listening_fd os
