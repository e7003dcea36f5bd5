-- ===== src/Signals/Pending.antt =====
-- How often the signal is delivered.
use mathlib.Core.Path.{ap}
use test_server.Base.{ap, if◌then◌else◌, ◌||◌, ◌==◌, [], ◌∷◌, false, true, codes, ◌≡◌, ℕ, List}
use test_server.Signals.{my_signal, Line, text_line, number_line, signal_line, ℕ, List, Signals}

-- What is documented of a signal that is not queued: while it is blocked a kill makes it pending,
-- once for all, and runs no handler; when it is let through its handler runs once if it was
-- pending.
pub record IsUnqueued (signals : Signals) : Type 0 where
  pub handle-pending :
      (n m : ℕ) (s : signals.State)
      → signals.is_pending (signals.handle n s) m ≡ signals.is_pending s m
  pub block-pending :
      (n m : ℕ) (s : signals.State)
      → signals.is_pending (signals.block n s) m ≡ signals.is_pending s m
  pub block-blocked : (n : ℕ) (s : signals.State) → signals.is_blocked (signals.block n s) n ≡ true
  pub kill-caught :
      (n : ℕ) (s : signals.State) → signals.is_blocked s n ≡ true → (signals.kill n s).1 ≡ []
  pub kill-blocked :
      (n : ℕ) (s : signals.State)
      → signals.is_blocked s n ≡ true
      → signals.is_blocked (signals.kill n s).0 n ≡ true
  pub kill-pending :
      (n m : ℕ) (s : signals.State)
      → signals.is_blocked s n ≡ true
      → signals.is_pending (signals.kill n s).0 m ≡ (n == m || signals.is_pending s m)
  pub unblock-caught :
      (n : ℕ) (s : signals.State)
      → (signals.unblock n s).1 ≡ (if signals.is_pending s n then n ∷ [] else [])
  pub unblock-pending :
      (n m : ℕ) (s : signals.State)
      → signals.is_pending (signals.unblock n s).0 m
        ≡ (if n == m then false else signals.is_pending s m)

abbrev pub all_lines : List Line
all_lines =
    text_line (codes "block signal")
    ∷ text_line (codes "---> send a signal --->")
    ∷ text_line (codes "---> send a signal --->")
    ∷ text_line (codes "---> send a signal --->")
    ∷ number_line my_signal
    ∷ signal_line (codes "this signal is pending") my_signal
    ∷ text_line (codes "unblock signal")
    ∷ signal_line (codes "catch a signal") my_signal
    ∷ text_line (codes "no pending signal")
    ∷ []
