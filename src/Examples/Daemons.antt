-- ===== src/Examples/Daemons.antt =====
-- The daemon.
use test_server.Base.Int.{minus_one, pos, ℤ}
use test_server.Examples.Callbacks.{says}
use test_server.Base.{[], ◌∷◌}
use test_server.Os.Post.{Post}
use test_server.Os.{sleep, result, M, Os}

-- What the daemon does: it sleeps.
abbrev sleeps : M ℤ
sleeps = result (λ _. sleep)

-- The grandson, whose chdir fails.
abbrev no_root : Os
no_root = record {
  script = says (pos 0) [] ∷ says (pos 0) [] ∷ says (pos 9) [] ∷ says minus_one [] ∷ [];
  trace = [];
}
