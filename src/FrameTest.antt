-- ===== src/FrameTest.antt =====
-- main of socket_basic/test.cpp: three texts with their lengths are copied into a block from
-- malloc, one behind the other, and out of it again.
pub mod Copies
use test_server.Base.{
  ℕ, ◌+◌, ◌*◌, List, [], ◌∷◌, ◌++◌, Option, none, some, codes, length, drop, replicate,
}
use test_server.Memory.{◌>>=◌, store, overwrite, fetch, load_u32, put_u32, c_string}
use test_server.Generated.{TextMessage}

-- memcpy of the length and of the text to tmp_ptr, which is a number of bytes behind ptr, and then
-- moves on.
unfoldable pub put_text : List ℕ → List ℕ × ℕ → Option (List ℕ × ℕ)
put_text text (mem, tmp_ptr) = do
  with_length ← store tmp_ptr mem (put_u32 (length text))
  with_text ← store (tmp_ptr + 4) with_length text
  some (with_text, tmp_ptr + 4 + length text)

-- The length, the text into an array of 100 bytes that is zero, and what printf shows of it.
unfoldable pub get_text : List ℕ → ℕ → Option (List ℕ × ℕ)
get_text mem tmp_ptr = do
  size ← load_u32 tmp_ptr mem
  text ← fetch size (drop (tmp_ptr + 4) mem)
  array ← overwrite (replicate 100 0) text
  shown ← c_string array
  some (shown, tmp_ptr + 4 + size)

-- The three texts, which have no NUL in them, into the block, and the three that come out of it.
unfoldable pub put_texts : List ℕ → List ℕ → List ℕ → List ℕ → Option (List ℕ × ℕ)
put_texts a1 a2 a3 block = do
  first ← put_text a1 (block, 0)
  second ← put_text a2 first
  put_text a3 second

unfoldable pub get_texts : List ℕ → Option (List (List ℕ))
get_texts mem = do
  b1 ← get_text mem 0
  b2 ← get_text mem b1.1
  b3 ← get_text mem b2.1
  some (b1.0 ∷ b2.0 ∷ b3.0 ∷ [])

unfoldable pub copy_texts : List ℕ → List ℕ → List ℕ → List ℕ → Option (List (List ℕ))
unfolding put_texts get_texts
copy_texts a1 a2 a3 block = put_texts a1 a2 a3 block >>= λ third. get_texts third.0

-- *xx = *xx + 100, behind bzero, and the row that strcpy fills, which is zero.
abbrev pub hundred : Option ℕ
hundred = load_u32 0 (replicate 4 0) >>= λ xx. some (xx + 100)

abbrev pub first_row : Option (List ℕ)
first_row = overwrite (replicate 100 0) (codes "This is xxxx." ++ 0 ∷ []) >>= c_string

-- The texts that main prints, and xx. What is in the block at first does not matter, but that is to
-- be shown.
unfoldable pub test_main : TextMessage → List ℕ → Option (List (List ℕ) × ℕ)
test_main request block = do
  texts ← copy_texts (codes "apple") (codes "blue") (codes "red") block
  xx ← hundred
  row ← first_row
  some (request.text (request.set_text (codes "Knightwu") request.fresh) ∷ (texts ++ row ∷ []), xx)
