-- ===== src/Framing/RowsRoundTrip.antt =====
-- `read_chars` on the texts that `write_chars` sends: the rows, without the system calls.
use test_server.Memory.Laws.{until_nul-text, until_nul-append, c_string-append, overwrite-replicate}
use test_server.Base.{
  append_assoc, length-append, replicate, All, ℕ, zero, suc, ◌-◌, ◌<◌, List, [], ◌∷◌, ◌++◌, some,
  ◌≡◌, refl, ap, arith, length, map,
}
use test_server.Base.Int.{ℤ, pos}
use test_server.Memory.{c_string, until_nul, ◌>>=◌, IsText}
use test_server.Framing.{Block, frame}
use test_server.Framing.Laws.{
  remaining-frame, pair_path, frames, fetch_from-append, fetch_length-frame, advance-append,
}
use test_server.Framing.Rows.{read_row, read_rows, fill_rows, col}

-- A text that fits a row with its NUL.
abbrev pub IsRowText : List ℕ → Type 0
IsRowText text = All IsText text × (length text < col)

abbrev row_of : List ℕ → List ℕ
row_of text = text ++ replicate (col - length text) 0

row_of-nul :
    (text : List ℕ) → length text < col → row_of text ≡ text ++ 0 ∷ replicate (99 - length text) 0
row_of-nul text h = let e : col - length text ≡ suc (99 - length text) = omega arith in rw e

read_row-frame :
    (text rest : List ℕ) (tail : ℕ)
    → IsRowText text
    → read_row
        (record { bytes = frame text ++ rest; tail = tail })
        (pos (length (frame text ++ rest)))
      ≡ some (text, record { bytes = rest; tail = tail }, pos (length rest))
unfolding read_row
read_row-frame text rest tail (chars, short) =
    let n = length text in
    let size = fetch_length-frame n (text ++ rest) tail (omega arith) in
    let zeros : tail - (4 - suc (suc (suc (suc (length (text ++ rest)))))) ≡ tail = omega arith in
    let row = overwrite-replicate col text (omega arith) in
    let shown : c_string (row_of text) ≡ some text =
      rw (row_of-nul text short) (c_string-append text (replicate (99 - n) 0) chars) in
    rw (size, ◌>>=◌, zeros, fetch_from-append text rest tail, row, shown)
      (ap (λ (p : Block × ℤ). some (text, p.0, p.1))
        (pair_path (advance-append text rest tail)
          (remaining-frame (length (text ++ rest)) n (length rest) (length-append text rest))))

-- The frames of at most as many texts as there are rows are read one by one, up to the end.
pub read_rows-frames :
    (rows : ℕ) (text : List ℕ) (texts : List (List ℕ)) (tail : ℕ)
    → length texts < rows
    → All IsRowText (text ∷ texts)
    → read_rows rows
        (record { bytes = frames (text ∷ texts); tail = tail })
        (pos (length (frames (text ∷ texts))))
      ≡ some (text ∷ texts)
unfolding read_rows
read_rows-frames zero text texts tail h fine = absurd (omega arith)
read_rows-frames (suc rows) text [] tail h fine =
    rw (read_row-frame text [] tail fine.0, ◌>>=◌) (ground arith)
read_rows-frames (suc rows) text (t ∷ texts) tail h fine =
    rw (read_row-frame text (frames (t ∷ texts)) tail fine.0, ◌>>=◌)
      (ground (arith, read_rows-frames rows t texts tail (omega arith) fine.1))

-- The rows that are filled hold the texts.
pub fill_rows-texts :
    (texts : List (List ℕ))
    → All IsRowText texts
    → (rows : List (List ℕ)) × (fill_rows texts ≡ some rows) × (map until_nul rows ≡ texts)
unfolding fill_rows
fill_rows-texts [] fine = ([], refl, refl)
fill_rows-texts (text ∷ texts) ((chars, short), fine) =
    let (rows, filled, same) = fill_rows-texts texts fine in
    let row = (text ++ 0 ∷ []) ++ replicate (col - length (text ++ 0 ∷ [])) 0 in
    let copied =
      overwrite-replicate col (text ++ 0 ∷ []) (omega (arith, length-append text (0 ∷ []))) in
    let shown : until_nul row ≡ text =
      rw append_assoc (until_nul-append text (replicate (col - length (text ++ 0 ∷ [])) 0) chars) in
    (row ∷ rows, rw (until_nul-text text chars, copied, ◌>>=◌, filled), λ i. shown i ∷ same i)
