-- ===== src/StringTests/Memories.antt =====
-- What tests of sample_string find in memory that they have not set themselves, and which of them
-- have no defined end.
use test_server.Base.{
  ℕ, ◌+◌, ◌*◌, List, [], ◌∷◌, ◌++◌, Option, none, some, ◌≡◌, refl, arith, codes, length, replicate,
  split_at,
}
use test_server.Memory.{◌>>=◌, store, overwrite, fetch, load_u32, get_u32, put_u32, c_string}
use test_server.Memory.Laws.{overwrite-append}
use test_server.StringTests.{
  literal, test_a, test_b, test_d, test_e, test_i, test_n, test_o, test_q, test_s, print_from,
}

-- Tests A, B, D and Q go outside their objects.
pub tests-overrun :
    (a : ℕ) → (test_a ≡ none) × (test_b (a ∷ []) ≡ none) × (test_d ≡ none) × (test_q ≡ none)
unfolding test_a test_b test_d test_q c_string store overwrite
tests-overrun a = (refl, refl, refl, refl)

test_i-all :
    test_i
    ≡ some (
        codes "AXS"
        ∷ codes "BBB"
        ∷ codes "KKKK"
        ∷ codes "KKKK"
        ∷ codes "KMKK"
        ∷ codes "KMKK"
        ∷ codes "KMKK"
        ∷ codes "KMLK"
        ∷ codes "KMLK"
        ∷ codes "KMLK"
        ∷ codes "KMLK"
        ∷ [])
unfolding test_i c_string store overwrite
test_i-all = refl

-- test E prints what it has copied, whatever malloc gave.
pub test_e-copied :
    (block : List ℕ) → length block ≡ 50 → test_e block ≡ some (codes "Hello World,Yes")
unfolding test_e c_string
test_e-copied block size =
    let (old, rest, parts, same) = split_at 16 block (omega arith) in
    rw (parts, overwrite-append old (literal (codes "Hello World,Yes")) rest same) refl

-- Tests N and O set each of the 18 bytes that they print, and find in the block the two messages
-- that they have put there, one 10 bytes behind the other, whatever malloc gave.
pub test_n-messages :
    (buffer : List ℕ)
    → length buffer ≡ 18
    → test_n buffer
      ≡ some (
        put_u32 10 ++ (literal (codes "ABCDE") ++ (put_u32 8 ++ literal (codes "FGH"))),
        (10, codes "ABCDE"),
        (8, codes "FGH"),
      )
unfolding test_n c_string store overwrite fetch load_u32 get_u32
test_n-messages
      (b0 ∷ b1 ∷ b2 ∷ b3 ∷ b4 ∷ b5 ∷ b6 ∷ b7 ∷ b8 ∷ b9 ∷ b10 ∷ b11 ∷ b12 ∷ b13 ∷ b14 ∷ b15 ∷ b16
        ∷ b17 ∷ [])
      size =
    refl
test_n-messages _ size = absurd (omega arith)

pub test_o-messages :
    (buffer : List ℕ)
    → length buffer ≡ 18
    → test_o buffer
      ≡ some (
        literal (codes "aaa")
            ++ (literal (codes "ABCDE") ++ (literal (codes "bbb") ++ literal (codes "FGH"))),
        (codes "aaa", codes "ABCDE"),
        (codes "bbb", codes "FGH"),
      )
unfolding test_o c_string store overwrite fetch
test_o-messages
      (b0 ∷ b1 ∷ b2 ∷ b3 ∷ b4 ∷ b5 ∷ b6 ∷ b7 ∷ b8 ∷ b9 ∷ b10 ∷ b11 ∷ b12 ∷ b13 ∷ b14 ∷ b15 ∷ b16
        ∷ b17 ∷ [])
      size =
    refl
test_o-messages _ size = absurd (omega arith)

put_in_front :
    (o : Option (List ℕ)) (u v w : ℕ)
    → (((o >>= λ values. some (w ∷ values)) >>= λ values. some (v ∷ values)) >>= λ values.
        some (u ∷ values))
      ≡ (o >>= λ values. some (u ∷ v ∷ w ∷ values))
put_in_front none u v w = refl
put_in_front (some values) u v w = refl

-- memset in test S sets ten bytes, not ten int: the first two are -1, the third in its lower half,
-- and the others are what they were before.
pub test_s-rest :
    (old rest : List ℕ) (x y : ℕ)
    → length old ≡ 10
    → test_s (old ++ x ∷ y ∷ rest) ≡ (
        print_from 0 7 rest >>= λ values.
        some (4294967295 ∷ 4294967295 ∷ (65535 + 65536 * x + 16777216 * y) ∷ values))
unfolding test_s print_from load_u32 get_u32
test_s-rest old rest x y size =
    rw (overwrite-append old (replicate 10 255) (x ∷ y ∷ rest) size)
      (put_in_front (print_from 0 7 rest) 4294967295 4294967295 (65535 + 65536 * x + 16777216 * y))
