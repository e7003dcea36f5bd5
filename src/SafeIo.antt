-- ===== src/SafeIo.antt =====
-- sample_io/test_file.cpp: `writen` and `readn`, the loops that go on after a short transfer.
pub mod Written
pub mod Collected
use test_server.Base.{
  ℕ, zero, suc, ◌-◌, List, [], ◌∷◌, ◌++◌, Bool, true, false, Option, none, some, drop, length,
}
use test_server.Base.Int.{ℤ, pos, negsuc, minus_one}
use test_server.Os.{M, pure, starve, ◌>>=◌, read_call, write_call}

-- How far a round of `writen` moves on; `none` is `return -1`.
unfoldable pub advance : ℤ → Bool → Option ℕ
advance (pos zero) interrupted = none
advance (pos (suc k)) interrupted = some (suc k)
advance (negsuc k) true = some 0
advance (negsuc k) false = none

-- while (nleft > 0): the bytes that are left, `n` being the result at the end.
unfoldable pub writen_loop : ℕ → ℤ → ℕ → List ℕ → M ℤ
unfolding advance
writen_loop fuel fd n [] = pure (pos n)
writen_loop zero fd n (b ∷ left) = starve
writen_loop (suc fuel) fd n (b ∷ left) = write_call fd (b ∷ left) >>= λ (nwriten, interrupted).
    elim (advance nwriten interrupted) [
      | none ↦ pure minus_one
      | some k ↦ writen_loop fuel fd n (drop k (b ∷ left))
    ]

-- ssize_t writen(int fd, const void *vptr, size_t n), on the n bytes at vptr. A round takes a
-- reply, so the length of the script is enough fuel.
unfoldable pub writen : ℤ → List ℕ → M ℤ
writen fd bytes os = writen_loop (length os.script) fd (length bytes) bytes os

-- What a round of `readn` makes of the result of `read`: `none` is `return -1`, and 0 ends the
-- loop.
unfoldable pub received : ℤ → Bool → Option ℕ
received (pos k) interrupted = some k
received (negsuc k) true = some 0
received (negsuc k) false = none

-- while (nleft > 0): the bytes that have come, out of `n`.
unfoldable pub readn_loop : ℕ → ℤ → ℕ → ℕ → List ℕ → M (ℤ × List ℕ)
unfolding received
readn_loop fuel fd n zero got = pure (pos (n - zero), got)
readn_loop zero fd n (suc nleft) got = starve
readn_loop (suc fuel) fd n (suc nleft) got =
    read_call fd (suc nleft) >>= λ (nreadn, bytes, interrupted).
    elim (received nreadn interrupted) [
      | none ↦ pure (minus_one, got)
      | some zero ↦ pure (pos (n - suc nleft), got)
      | some (suc k) ↦ readn_loop fuel fd n (suc nleft - suc k) (got ++ bytes)
    ]

-- ssize_t readn(int fd, void *buf, size_t n): the result, and the bytes that were put into buf.
unfoldable pub readn : ℤ → ℕ → M (ℤ × List ℕ)
readn fd n os = readn_loop (length os.script) fd n n [] os
