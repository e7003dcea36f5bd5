-- ===== src/Daemon.antt =====
-- deamon/deamon.cpp: the double fork of `deamon`. What the daemon does, `callback`, is a parameter.
pub mod Processes
use test_server.Base.{if◌then◌else◌}
use test_server.Serve.{returned, exited, Leaves}
use test_server.Base.Int.{minus_one, eq_ℤ, is_negative, is_positive, is_zero, pos, ℤ}
use test_server.Os.{
  sleep, dup2, pure, open_null, close, undefined, umask, chdir, wait, fork, setsid, result, ◌>>=◌,
  ◌>>◌, M,
}

module _ (callback : M ℤ) where
  -- The grandson. open_null is open("/dev/null", O_RDWR), and dup2 is given the new descriptor, the
  -- old one being 0.
  unfoldable pub background : M Leaves
  background = do
    result setsid
    moved ← result chdir
    let detached = do
      result (λ r. umask)
      result (λ r. close (pos 0))
      result open_null
      result (dup2 1)
      result (dup2 2)
      callback
      pure (exited 0)
    if is_negative moved then pure (exited 1) else detached

  -- deamon(). A path that reaches the end has no return statement, and is undefined.
  unfoldable pub deamon : M Leaves
  unfolding background
  deamon = do
    pid ← result fork
    let parent = result (λ r. wait) >> undefined
    let child = do
      pid2 ← result fork
      let grandson = if is_zero pid2 then background else undefined
      let leaves = if is_positive pid2 then pure (exited 0) else grandson
      if eq_ℤ pid2 minus_one then pure (returned minus_one) else leaves
    let forked = if is_zero pid then child else undefined
    let alive = if is_positive pid then parent else forked
    if eq_ℤ pid minus_one then pure (returned minus_one) else alive

-- callback()
unfoldable pub callback_sleep : M ℤ
callback_sleep = result (λ r. sleep)

-- main: what deamon() returns is not looked at, and main ends with 0.
abbrev pub ends_with_zero : Leaves → Leaves
ends_with_zero (returned r) = exited 0
ends_with_zero (exited status) = exited status

unfoldable pub deamon_main : M Leaves
unfolding deamon callback_sleep
deamon_main = do leaves ← deamon callback_sleep; pure (ends_with_zero leaves)
