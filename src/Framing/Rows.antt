-- ===== src/Framing/Rows.antt =====
-- The loops of `read_chars` and `write_chars` of socket_basic/server.cpp; client.cpp has the same
-- code with other texts.
use test_server.Base.{
  ℕ, zero, suc, List, [], ◌∷◌, ◌++◌, Option, some, ltb, ◌&&◌, if◌then◌else◌, replicate,
}
use test_server.Base.Int.{ℤ, is_positive}
use test_server.Memory.{◌>>=◌, overwrite, c_string, until_nul}
use test_server.Framing.{Block, fetch_block, fetch_length, advance, remaining}

abbrev pub col : ℕ
col = 100

-- One round of the reading loop: the text of the row that is filled and printed, the pointer, and
-- what remains.
unfoldable pub read_row : Block → ℤ → Option (List ℕ × Block × ℤ)
read_row block remain = do
  data_length ← fetch_length block
  let body = advance 4 block
  bytes ← fetch_block data_length body
  row ← overwrite (replicate col 0) bytes
  text ← c_string row
  some (text, advance data_length body, remaining remain data_length)

-- do ... while (index < row && remain_length > 0), by the rows that are left; the texts printed.
unfoldable pub read_rows : ℕ → Block → ℤ → Option (List (List ℕ))
read_rows zero block remain = some []
read_rows (suc rows) block remain = do
  (text, next, remain') ← read_row block remain
  let more = do texts ← read_rows rows next remain'; some (text ∷ texts)
  if ltb 0 rows && is_positive remain' then more else some (text ∷ [])

-- strcpy of the texts into rows.
unfoldable pub fill_rows : List (List ℕ) → Option (List (List ℕ))
fill_rows [] = some []
fill_rows (text ∷ texts) = do
  row ← overwrite (replicate col 0) (until_nul text ++ 0 ∷ [])
  rows ← fill_rows texts
  some (row ∷ rows)
