-- ===== src/Signals.antt =====
-- main of sample_signal/test_signal.cpp: a signal is blocked, sent three times, looked for, and let
-- through. The system's signals are a parameter.
pub mod Pending
use test_server.Base.{zero, if◌then◌else◌, ◌-◌, suc, ◌++◌, map, [], ◌∷◌, List, codes, Bool, ℕ}

-- The state of a process' signals. A call that lets signals through gives those whose handler runs.
pub record Signals : Type 1 where
  pub State : Type 0
  pub is_blocked : State → ℕ → Bool
  pub is_pending : State → ℕ → Bool
  -- signal(n, handler), sigprocmask(SIG_BLOCK, { n }), kill(getpid(), n), sigprocmask(SIG_UNBLOCK,
  -- { n })
  pub handle : ℕ → State → State
  pub block : ℕ → State → State
  pub kill : ℕ → State → State × List ℕ
  pub unblock : ℕ → State → State × List ℕ

-- A line: a text, "signal:" and a number, or what psignal prints of a signal behind a text.
pub data Line : Type 0 where
  text_line : List ℕ → Line
  number_line : ℕ → Line
  signal_line : List ℕ → ℕ → Line

-- SIGTERM, and NSIG.
abbrev pub my_signal : ℕ
my_signal = 15

abbrev pub nsig : ℕ
nsig = 65

-- for (sig = ...; sig < NSIG; sig++), for `count` numbers, from a first one on.
unfoldable pub pending_lines : (ℕ → Bool) → List ℕ → ℕ → ℕ → List Line
pending_lines is_member text sig zero = []
pending_lines is_member text sig (suc count) =
    let rest = pending_lines is_member text (suc sig) count in
    if is_member sig then number_line sig ∷ signal_line text sig ∷ rest else rest

-- flag == 0 is said where no line was printed.
abbrev pub flagged : List Line → List Line
flagged [] = text_line (codes "no pending signal") ∷ []
flagged (line ∷ lines) = line ∷ lines

-- sig_handler, for each signal that is let through.
abbrev pub sig_handler : ℕ → Line
sig_handler signum = signal_line (codes "catch a signal") signum

module _ (signals : Signals) where
  -- A line, and a signal to the process itself.
  unfoldable pub send : signals.State → signals.State × List Line
  send state =
      let (after, caught) = signals.kill my_signal state in
      (after, text_line (codes "---> send a signal --->") ∷ map sig_handler caught)

  unfoldable pub signal_main : signals.State → List Line
  unfolding send pending_lines
  signal_main start =
      let blocked = signals.block my_signal (signals.handle my_signal start) in
      let (first, lines1) = send blocked in
      let (second, lines2) = send first in
      let (third, lines3) = send second in
      let (after, caught) = signals.unblock my_signal third in
      text_line (codes "block signal")
      ∷ (lines1
          ++ (lines2
              ++ (lines3
                  ++ (flagged (
                        pending_lines (signals.is_pending third) (codes "this signal is pending") 1
                          (nsig - 1))
                      ++ text_line (codes "unblock signal")
                        ∷ (map sig_handler caught
                            ++ flagged (
                                pending_lines (signals.is_pending after) (codes "a pending signal")
                                  1 (nsig - 1)))))))
