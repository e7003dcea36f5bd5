-- ===== src/Examples/Callbacks.antt =====
-- `write_char` and `read_char`, as the functions that are given to servers and clients.
use test_server.Memory.{c_string}
use test_server.Os.Post.{Post-map, AllFuelled, Post}
use test_server.Sockets.Ledger.{Neutral, IsNeutral, open_fds}
use test_server.Base.Int.{ℤ}
use test_server.Base.{arith, inr, inl, Option-cases, refl, replicate, [], false, ◌∷◌, ℕ, List}
use test_server.Framing.StructTransfer.{over, write_char, read_char}
use test_server.Os.{incoming, pure, ◌>>=◌, Reply, M}

abbrev pub hello : List ℕ
hello = b'H' ∷ b'o' ∷ b'w' ∷ []

abbrev pub sends : ℤ → M ℤ
sends = write_char hello

abbrev pub receives : ℤ → M ℤ
receives fd = do (count, text) ← read_char (replicate 100 0) fd; pure count

pub sends-IsNeutral : IsNeutral sends
unfolding write_char open_fds
sends-IsNeutral fd os = go os.script
  where
    go :
        (script : List Reply)
        → Post
            (Neutral (record { script = script; trace = os.trace }))
            (sends fd (record { script = script; trace = os.trace }))
    go [] = refl
    go (r ∷ script) = (refl, omega arith)

pub receives-IsNeutral : IsNeutral receives
unfolding read_char open_fds
receives-IsNeutral fd os = go os.script
  where
    go :
        (script : List Reply)
        → Post
            (Neutral (record { script = script; trace = os.trace }))
            (receives fd (record { script = script; trace = os.trace }))
    go [] = refl
    go (r ∷ script) = elim (Option-cases (c_string (over (replicate 100 0) (incoming 100 r)))) [
      | inl out ↦ rw out tt
      | inr (text, found) ↦ rw found (refl, omega arith)
    ]

pub receives-IsFuelled : AllFuelled receives
receives-IsFuelled fd os = Post-map (receives fd os) (λ r after h. tt) (receives-IsNeutral fd os)

abbrev pub says : ℤ → List ℕ → Reply
says ret bytes = record { ret = ret; bytes = bytes; interrupted = false }
