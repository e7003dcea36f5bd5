-- ===== src/Examples/Signalling.antt =====
-- The signals of sample_signal, over a small system.
use test_server.Base.{◌||◌, ◌==◌, [], Bool, List, ◌∷◌, false, ℕ, if◌then◌else◌}
use test_server.Signals.{Signals}

-- Which signals are blocked, and which are pending.
abbrev Masks : Type 0
Masks = (ℕ → Bool) × (ℕ → Bool)

abbrev also : ℕ → (ℕ → Bool) → ℕ → Bool
also n mask m = n == m || mask m

abbrev without : ℕ → (ℕ → Bool) → ℕ → Bool
without n mask m = if n == m then false else mask m

abbrev kill_masks : ℕ → Masks → Masks × List ℕ
kill_masks n (blocked, pending) =
    if blocked n then ((blocked, also n pending), []) else ((blocked, pending), n ∷ [])

abbrev small : Signals
small = record {
  State = Masks;
  is_blocked = λ (blocked, pending). blocked;
  is_pending = λ (blocked, pending). pending;
  handle = λ n state. state;
  block = λ n (blocked, pending). (also n blocked, pending);
  kill = kill_masks;
  unblock = λ n (blocked, pending).
      ((without n blocked, without n pending), if pending n then n ∷ [] else []);
}
