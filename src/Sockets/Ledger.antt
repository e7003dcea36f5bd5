-- ===== src/Sockets/Ledger.antt =====
-- The descriptors that a trace leaves open.
use test_server.Os.Post.{Post}
use test_server.Base.{
  ◌≤◌, length, ap, refl, inr, inl, Bool-cases, false, true, All, List, [], ◌∷◌, if◌then◌else◌, ◌≡◌,
}
use test_server.Base.Int.{eq_ℤ→eq, negsuc, pos, ℤ, is_negative, eq_ℤ, eq_ℤ-refl}
use test_server.Os.{Os, M, Call, socket, accept, epoll_create, close}

unfoldable pub remove_fd : ℤ → List ℤ → List ℤ
remove_fd fd [] = []
remove_fd fd (g ∷ fds) = if eq_ℤ fd g then fds else g ∷ remove_fd fd fds

abbrev pub opened : ℤ → List ℤ → List ℤ
opened fd fds = if is_negative fd then fds else fd ∷ fds

unfoldable pub open_fds : List Call → List ℤ
unfolding remove_fd
open_fds [] = []
open_fds (socket fd ∷ trace) = opened fd (open_fds trace)
open_fds (accept listening_fd fd ∷ trace) = opened fd (open_fds trace)
open_fds (epoll_create fd ∷ trace) = opened fd (open_fds trace)
open_fds (close fd ∷ trace) = remove_fd fd (open_fds trace)
open_fds (_ ∷ trace) = open_fds trace

-- Closing the descriptor that was opened last.
pub remove_fd_self : (fd : ℤ) (fds : List ℤ) → remove_fd fd (fd ∷ fds) ≡ fds
unfolding remove_fd
remove_fd_self fd fds = rw (eq_ℤ-refl fd)

-- No descriptor of the ledger is negative, so that closing a negative one changes nothing.
abbrev IsFd : ℤ → Type 0
IsFd fd = is_negative fd ≡ false

remove_fd-IsFd : (fd : ℤ) (fds : List ℤ) → All IsFd fds → All IsFd (remove_fd fd fds)
unfolding remove_fd
remove_fd-IsFd fd [] h = tt
remove_fd-IsFd fd (g ∷ fds) (up, rest) = elim (Bool-cases (eq_ℤ fd g)) [
  | inl same ↦ rw same rest
  | inr other ↦ rw other (up, remove_fd-IsFd fd fds rest)
]

opened-IsFd : (fd : ℤ) (fds : List ℤ) → All IsFd fds → All IsFd (opened fd fds)
opened-IsFd (pos fd) fds h = (refl, h)
opened-IsFd (negsuc fd) fds h = h

pub remove_fd-negative :
    (fd : ℤ) (fds : List ℤ) → is_negative fd ≡ true → All IsFd fds → remove_fd fd fds ≡ fds
unfolding remove_fd
remove_fd-negative fd [] down h = refl
remove_fd-negative (negsuc fd) (pos g ∷ fds) down (up, rest) =
    ap (◌∷◌ (pos g)) (remove_fd-negative (negsuc fd) fds refl rest)
remove_fd-negative (pos fd) (pos g ∷ fds) down (up, rest) = absurd (cc)
remove_fd-negative fd (negsuc g ∷ fds) down (up, rest) = absurd (cc)

pub open_fds-IsFd : (trace : List Call) → All IsFd (open_fds trace)
unfolding open_fds
open_fds-IsFd [] = tt
open_fds-IsFd (socket fd ∷ trace) = opened-IsFd fd (open_fds trace) (open_fds-IsFd trace)
open_fds-IsFd (accept g fd ∷ trace) = opened-IsFd fd (open_fds trace) (open_fds-IsFd trace)
open_fds-IsFd (epoll_create fd ∷ trace) = opened-IsFd fd (open_fds trace) (open_fds-IsFd trace)
open_fds-IsFd (close fd ∷ trace) = remove_fd-IsFd fd (open_fds trace) (open_fds-IsFd trace)
open_fds-IsFd (_ ∷ trace) = open_fds-IsFd trace

-- What holds after a function that opens and closes nothing; a reply that is used does not come
-- back.
abbrev pub Neutral : Os → ℤ → Os → Type 0
Neutral os r after =
    (open_fds after.trace ≡ open_fds os.trace) × (length after.script ≤ length os.script)

-- A function that opens and closes nothing, such as one that is given to a server.
abbrev pub IsNeutral : (ℤ → M ℤ) → Type 0
IsNeutral m = (fd : ℤ) (os : Os) → Post (Neutral os) (m fd os)

abbrev pub Opens : List ℤ → Os → Type 0
Opens fds os = open_fds os.trace ≡ fds

-- A close of the descriptor that was opened last.
pub closed :
    (fd : ℤ) (fds : List ℤ) (trace : List Call)
    → open_fds trace ≡ fd ∷ fds
    → open_fds (close fd ∷ trace) ≡ fds
unfolding open_fds
closed fd fds trace h = rw h (remove_fd_self fd fds)

pub accepted :
    (listening_fd fd : ℤ) (fds : List ℤ) (trace : List Call)
    → open_fds trace ≡ fds
    → is_negative fd ≡ false
    → open_fds (accept listening_fd fd ∷ trace) ≡ fd ∷ fds
unfolding open_fds
accepted listening_fd fd fds trace h up = rw (h, up)

pub not_accepted :
    (listening_fd fd : ℤ) (fds : List ℤ) (trace : List Call)
    → open_fds trace ≡ fds
    → is_negative fd ≡ true
    → open_fds (accept listening_fd fd ∷ trace) ≡ fds
unfolding open_fds
not_accepted listening_fd fd fds trace h down = rw (h, down)

-- A close of the descriptor below the one that was opened last.
pub closed_second :
    (fd g : ℤ) (fds : List ℤ) (trace : List Call)
    → open_fds trace ≡ fd ∷ g ∷ fds
    → open_fds (close g ∷ trace) ≡ fd ∷ fds
unfolding open_fds
closed_second fd g fds trace h = rw h (elim (Bool-cases (eq_ℤ g fd)) [
  | inl same ↦ rw (remove_fd, same) (ap (λ (x : ℤ). x ∷ fds) (eq_ℤ→eq g fd same))
  | inr other ↦ rw (remove_fd, other) (ap (◌∷◌ fd) (remove_fd_self g fds))
])
