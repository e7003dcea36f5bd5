-- ===== src/Fork.antt =====
-- main of sample_process/test_process.cpp: a fork, and what each of the two processes prints. The
-- ids are left out.
pub mod Endings
use test_server.Base.{List, [], ◌∷◌, if◌then◌else◌}
use test_server.Base.Int.{is_negative, is_positive}
use test_server.Os.{M, result, fork, sleep, pure, ◌>>=◌, ◌>>◌}

pub data Line : Type 0 where
  process_line : Line
  error_line : Line
  children_line : Line
  child_exit : Line
  father_line : Line
  father_exit : Line

-- The lines that the process has printed when it returns 0, the one from before the fork among
-- them.
unfoldable pub process_main : M (List Line)
process_main = do
  pid ← result fork
  let child = result (λ r. sleep) >> pure (process_line ∷ children_line ∷ child_exit ∷ [])
  let father = pure (process_line ∷ father_line ∷ father_exit ∷ [])
  let forked = if is_positive pid then father else child
  if is_negative pid then pure (process_line ∷ error_line ∷ []) else forked
