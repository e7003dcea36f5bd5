-- ===== src/StringTests.antt =====
-- Tests of sample_string/test_string.cpp, over what their memory holds at first. `none` is an
-- access outside an object.
pub mod Memories
use test_server.Base.{
  ℕ, zero, suc, ◌+◌, ◌*◌, List, [], ◌∷◌, ◌++◌, Option, none, some, codes, length, drop, replicate,
}
use test_server.Memory.{◌>>=◌, store, overwrite, fetch, load_u32, put_u32, c_string, until_nul}

-- A C string with its NUL, as strcpy copies it and a literal holds it.
abbrev pub literal : List ℕ → List ℕ
literal text = text ++ 0 ∷ []

-- TEST(ST, A): the second strcpy has a longer text than the array.
unfoldable pub test_a : Option (List (List ℕ))
test_a = do
  first ← c_string (literal (codes "ABC"))
  changed ← store 1 (literal (codes "ABC")) (codes "M")
  second ← c_string changed
  copied ← overwrite changed (literal (codes "NNNMMM"))
  third ← c_string copied
  some (first ∷ second ∷ third ∷ [])

-- TEST(ST, B), as far as a[1] = 'b', where `a` has one byte; and TEST(ST, D).
unfoldable pub test_b : List ℕ → Option (List ℕ)
test_b a = do first ← store 0 a (codes "a"); store 1 first (codes "b")

unfoldable pub test_d : Option (List ℕ)
test_d = do a ← overwrite (literal (codes "A")) (literal (codes "HAHS")); c_string a

-- TEST(ST, E): the text that is copied to `block`, which malloc gave.
unfoldable pub test_e : List ℕ → Option (List ℕ)
test_e block = do a ← overwrite block (literal (codes "Hello World,Yes")); c_string a

-- TEST(ST, I): `a` points to two literals, and then, as `c` and `d` do, to the array `b`.
unfoldable pub test_i : Option (List (List ℕ))
test_i = do
  first ← c_string (literal (codes "AXS"))
  second ← c_string (literal (codes "BBB"))
  let b = literal (codes "KKKK")
  third ← c_string b
  by_c ← store 1 b (codes "M")
  fourth ← c_string by_c
  by_d ← store 2 by_c (codes "L")
  fifth ← c_string by_d
  some (
      first ∷ second ∷ third ∷ third ∷ fourth ∷ fourth ∷ fourth ∷ fifth ∷ fifth ∷ fifth ∷ fifth
      ∷ [])

-- struct Message of TEST(ST, N): the pack pragmas only save and restore, so its msg is 4 bytes
-- behind its start. The bytes of the block, and the two messages that are read from it.
unfoldable pub test_n : List ℕ → Option (List ℕ × (ℕ × List ℕ) × (ℕ × List ℕ))
test_n buffer = do
  a_length ← store 0 buffer (put_u32 10)
  a_msg ← store 4 a_length (literal (codes "ABCDE"))
  b_length ← store 10 a_msg (put_u32 8)
  after ← store 14 b_length (literal (codes "FGH"))
  bytes ← fetch 18 after
  c_length ← load_u32 0 after
  c_msg ← c_string (drop 4 after)
  d_length ← load_u32 10 after
  d_msg ← c_string (drop 14 after)
  some (bytes, (c_length, c_msg), (d_length, d_msg))

-- TEST(ST, O): the same with a name of 4 bytes in place of the length.
unfoldable pub test_o : List ℕ → Option (List ℕ × (List ℕ × List ℕ) × (List ℕ × List ℕ))
test_o buffer = do
  a_name ← store 0 buffer (literal (codes "aaa"))
  a_msg ← store 4 a_name (literal (codes "ABCDE"))
  b_name ← store 10 a_msg (literal (codes "bbb"))
  after ← store 14 b_name (literal (codes "FGH"))
  bytes ← fetch 18 after
  c_name ← c_string after
  c_msg ← c_string (drop 4 after)
  d_name ← c_string (drop 10 after)
  d_msg ← c_string (drop 14 after)
  some (bytes, (c_name, c_msg), (d_name, d_msg))

-- TEST(ST, Q): a std::string made from a literal ends at its first NUL; msg[5] is behind its end.
abbrev pub nth : ℕ → List ℕ → Option ℕ
nth n [] = none
nth zero (b ∷ text) = some b
nth (suc n) (b ∷ text) = nth n text

unfoldable pub test_q : Option (List ℕ × ℕ × ℕ)
unfolding until_nul
test_q =
    let msg = until_nul (codes "AN" ++ 0 ∷ codes "MMjseOOqQKW") in
    nth 5 (literal msg) >>= λ c. some (msg, length msg, c)

-- TEST(ST, S): memset(a, -1, 10) and the ten int, as the numbers modulo 2^32 that they are
-- represented by.
unfoldable pub print_from : ℕ → ℕ → List ℕ → Option (List ℕ)
print_from i zero a = some []
print_from i (suc left) a = do
  value ← load_u32 (4 * i) a
  values ← print_from (suc i) left a
  some (value ∷ values)

unfoldable pub test_s : List ℕ → Option (List ℕ)
unfolding print_from
test_s a = do set ← overwrite a (replicate 10 255); print_from 0 10 set
