-- ===== src/Framing/Transfer.antt =====
-- `read_chars` and `write_chars` of socket_basic/server.cpp and client.cpp, with their system
-- calls.
use test_server.Framing.Laws.{pack_loop-frames, frames}
use test_server.Framing.RowsRoundTrip.{read_rows-frames, fill_rows-texts, IsRowText}
use test_server.Base.{
  refl, ◌∙◌, take, some, ap, true, take-all, arith, ◌≡◌, ◌≤◌, ◌∷◌, false, All, ◌<◌, ℕ, ◌-◌, List,
  [], if◌then◌else◌, length, map,
}
use test_server.Base.Int.{pos, ℤ, is_positive}
use test_server.Memory.{until_nul}
use test_server.Os.{
  read, write, done, Os, Call, Reply, M, pure, checked, ◌>>=◌, read_call, write_call,
}
use test_server.Framing.{Block, pack_loop}
use test_server.Framing.Rows.{read_rows, fill_rows}

abbrev pub buffer_size : ℕ
buffer_size = 1024000

-- The buffer after a read of `bytes`.
abbrev pub filled : List ℕ → Block
filled bytes = record { bytes = bytes; tail = buffer_size - length bytes }

-- read_chars(fd): the result, and the texts that were printed.
unfoldable pub read_chars : ℤ → M (ℤ × List (List ℕ))
read_chars fd = do
  (count, bytes, interrupted) ← read_call fd buffer_size
  let rows = do texts ← checked (read_rows 10 (filled bytes) count); pure (count, texts)
  if is_positive count then rows else pure (count, [])

-- write_chars(fd), for the five texts of the source.
unfoldable pub write_chars : List (List ℕ) → ℤ → M ℤ
write_chars texts fd = do
  rows ← checked (fill_rows texts)
  packed ← checked (pack_loop 1000 (map until_nul rows) [])
  (count, interrupted) ← write_call fd packed
  pure count

abbrev pub replying : ℤ → List ℕ → List Reply → List Call → Os
replying ret bytes script trace = record {
  script = record { ret = ret; bytes = bytes; interrupted = false } ∷ script;
  trace = trace;
}

-- A read that brings `sent` whole, and a write that takes it whole.
read_chars-sent :
    (sent : List ℕ) (texts : List (List ℕ)) (fd : ℤ) (script : List Reply) (trace : List Call)
    → is_positive (pos (length sent)) ≡ true
    → take buffer_size sent ≡ sent
    → read_rows 10 (filled sent) (pos (length sent)) ≡ some texts
    → read_chars fd (replying (pos (length sent)) sent script trace)
      ≡ done (pos (length sent), texts) (record { script = script; trace = read fd sent ∷ trace })
unfolding read_chars
read_chars-sent sent texts fd script trace some_bytes whole rows = rw (whole, some_bytes, rows)

write_chars-sent :
    (sent : List ℕ) (texts rows : List (List ℕ)) (fd : ℤ) (k : ℕ) (script : List Reply)
    (trace : List Call)
    → fill_rows texts ≡ some rows
    → pack_loop 1000 (map until_nul rows) [] ≡ some sent
    → take k sent ≡ sent
    → write_chars texts fd (replying (pos k) [] script trace)
      ≡ done (pos (length sent)) (record { script = script; trace = write fd sent ∷ trace })
unfolding write_chars
write_chars-sent sent texts rows fd k script trace filled_rows packed whole =
    rw (filled_rows, packed, whole)

-- Up to ten texts, at least one, of at most 99 characters and 1000 bytes with their lengths: if the
-- system takes what `write_chars` gives it, that is the frames of the texts, and `read_chars` on a
-- read that brings those bytes prints the texts; both return the number of bytes.
pub read_chars-write_chars :
    (text : List ℕ) (texts : List (List ℕ)) (fd gd : ℤ) (k : ℕ) (script other : List Reply)
    (trace seen : List Call)
    → length texts < 10
    → All IsRowText (text ∷ texts)
    → length (frames (text ∷ texts)) ≤ 1000
    → length (frames (text ∷ texts)) ≤ k
    → let sent = frames (text ∷ texts) in
      (write_chars (text ∷ texts) fd (replying (pos k) [] script trace)
        ≡ done (pos (length sent)) (record { script = script; trace = write fd sent ∷ trace }))
      × (read_chars gd (replying (pos (length sent)) sent other seen)
          ≡ done
              (pos (length sent), text ∷ texts)
              (record { script = other; trace = read gd sent ∷ seen }))
read_chars-write_chars text texts fd gd k script other trace seen few fine fits taken =
    let (rows, filled_rows, same) = fill_rows-texts (text ∷ texts) fine in
    let packed = pack_loop-frames 1000 (text ∷ texts) [] (omega arith) in
    let sent = frames (text ∷ texts) in
    (
      write_chars-sent sent (text ∷ texts) rows fd k script trace filled_rows
          (ap (λ (l : List (List ℕ)). pack_loop 1000 l []) same ∙ packed) (take-all k sent taken),
      read_chars-sent sent (text ∷ texts) gd other seen refl
          (take-all buffer_size sent (omega arith))
          (read_rows-frames 10 text texts (buffer_size - length sent) few fine),
    )
