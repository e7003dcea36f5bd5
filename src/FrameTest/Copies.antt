-- ===== src/FrameTest/Copies.antt =====
-- What comes out of the block of socket_basic/test.cpp.
use test_server.Base.{
  suc, ℕ, ◌+◌, ◌-◌, ◌≤◌, List, [], ◌∷◌, ◌++◌, some, ◌≡◌, refl, ap, sym, ◌∙◌, arith, codes, length,
  drop, replicate, length-append, append_assoc, split_at, All, drop-length_append,
}
use test_server.Memory.{◌>>=◌, store, overwrite, load_u32, put_u32, c_string, get_u32, IsText}
use test_server.Memory.Laws.{
  bind_inverse, store-append, load_u32-append, fetch-append, overwrite-replicate, c_string-append,
}
use test_server.Generated.{TextMessage, IsDocumented}
use test_server.FrameTest.{put_texts, get_texts, put_text, get_text, copy_texts, test_main}

abbrev framed : List ℕ → List ℕ
framed text = put_u32 (length text) ++ text

-- One copy behind the other.
store-both :
    (front a b rest word text : List ℕ)
    → length a ≡ length word
    → length b ≡ length text
    → (store (length front) (front ++ ((a ++ b) ++ rest)) word >>= λ mem.
        store (length front + length word) mem text)
      ≡ some ((front ++ (word ++ text)) ++ rest)
store-both front a b rest word text ha hb =
    let place : front ++ ((a ++ b) ++ rest) ≡ front ++ (a ++ (b ++ rest)) =
      ap (◌++◌ front) (append_assoc a b rest) in
    let behind : front ++ (word ++ (b ++ rest)) ≡ (front ++ word) ++ (b ++ rest) =
      sym (append_assoc front word (b ++ rest)) in
    let whole : (front ++ word) ++ (text ++ rest) ≡ (front ++ (word ++ text)) ++ rest =
      append_assoc front word (text ++ rest)
      ∙ ap (◌++◌ front) (sym (append_assoc word text rest))
      ∙ sym (append_assoc front (word ++ text) rest) in
    rw
      (
        place,
        store-append front a word (b ++ rest) ha,
        behind,
        ← length-append front word,
        store-append (front ++ word) b text rest hb,
        whole,
      )
      refl

-- A block in three parts and what is left of it.
abbrev Parts : ℕ → ℕ → ℕ → List ℕ → Type 0
Parts n1 n2 n3 block =
    (old1 : List ℕ) × (old2 : List ℕ) × (old3 : List ℕ) × (rest : List ℕ) × (block
      ≡ old1 ++ (old2 ++ (old3 ++ rest)))
    × (length old1 ≡ n1)
    × (length old2 ≡ n2)
    × (length old3 ≡ n3)

Parts-of_block :
    (n1 n2 n3 : ℕ) (block : List ℕ) → n1 + n2 + n3 ≤ length block → Parts n1 n2 n3 block
Parts-of_block n1 n2 n3 block room =
    let (old1, more1, parts1, h1) = split_at n1 block (omega arith) in
    let l1 = ap length parts1 ∙ length-append old1 more1 in
    let (old2, more2, parts2, h2) = split_at n2 more1 (omega arith) in
    let l2 = ap length parts2 ∙ length-append old2 more2 in
    let (old3, rest, parts3, h3) = split_at n3 more2 (omega arith) in
    (old1, old2, old3, rest, parts1 ∙ ap (◌++◌ old1) (parts2 ∙ ap (◌++◌ old2) parts3), h1, h2, h3)

put_text-append :
    (front old rest text : List ℕ)
    → length old ≡ length (framed text)
    → put_text text (front ++ (old ++ rest), length front)
      ≡ some ((front ++ framed text) ++ rest, length (front ++ framed text))
unfolding put_text
put_text-append front old rest text size =
    let (a, b, parts, ha) = split_at 4 old (omega arith) in
    let hb : length b ≡ length text = omega (arith, ap length parts, length-append a b) in
    let (mem, first, second) =
      bind_inverse (store (length front) (front ++ ((a ++ b) ++ rest)) (put_u32 (length text)))
        (λ mem. store (length front + 4) mem text)
        (store-both front a b rest (put_u32 (length text)) text ha hb) in
    let end : length front + 4 + length text ≡ length (front ++ framed text) =
      omega (arith, length-append front (framed text)) in
    rw (parts, first, second, end) refl

get_text-append :
    (front rest text : List ℕ)
    → All IsText text
    → length text ≤ 99
    → get_text (front ++ (framed text ++ rest)) (length front)
      ≡ some (text, length (front ++ framed text))
unfolding get_text
get_text-append front rest text real short =
    let size : load_u32 (length front) (front ++ (framed text ++ rest)) ≡ some (length text) =
      load_u32-append front (length text) (text ++ rest) (omega arith) in
    let behind : drop (length front + 4) (front ++ (framed text ++ rest)) ≡ text ++ rest =
      ap (λ (n : ℕ). drop n (front ++ (framed text ++ rest)))
        (sym (length-append front (put_u32 (length text))))
      ∙ ap (drop (length (front ++ put_u32 (length text))))
          (sym (append_assoc front (put_u32 (length text)) (text ++ rest)))
      ∙ drop-length_append (front ++ put_u32 (length text)) (text ++ rest) in
    let left : 100 - length text ≡ suc (99 - length text) = omega arith in
    let filled : some (text ++ replicate (100 - length text) 0)
        ≡ some (text ++ 0 ∷ replicate (99 - length text) 0) =
      ap (λ (n : ℕ). some (text ++ replicate n 0)) left in
    let array : overwrite (replicate 100 0) text
        ≡ some (text ++ 0 ∷ replicate (99 - length text) 0) =
      overwrite-replicate 100 text (omega arith) ∙ filled in
    let end : length front + 4 + length text ≡ length (front ++ framed text) =
      omega (arith, length-append front (framed text)) in
    rw
      (
        size,
        behind,
        fetch-append text rest,
        array,
        c_string-append text (replicate (99 - length text) 0) real,
        end,
      )
      refl

module _ (a1 a2 a3 rest : List ℕ) where
  abbrev three : List ℕ
  three = framed a1 ++ (framed a2 ++ (framed a3 ++ rest))

  put_three :
      (old1 old2 old3 : List ℕ)
      → length old1 ≡ length (framed a1)
      → length old2 ≡ length (framed a2)
      → length old3 ≡ length (framed a3)
      → put_texts a1 a2 a3 (old1 ++ (old2 ++ (old3 ++ rest)))
        ≡ some (three, length ((framed a1 ++ framed a2) ++ framed a3))
  unfolding put_texts
  put_three old1 old2 old3 h1 h2 h3 =
      let flat : ((framed a1 ++ framed a2) ++ framed a3) ++ rest ≡ three =
        append_assoc (framed a1 ++ framed a2) (framed a3) rest
        ∙ append_assoc (framed a1) (framed a2) (framed a3 ++ rest) in
      rw
        (
          put_text-append [] old1 (old2 ++ (old3 ++ rest)) a1 h1,
          put_text-append (framed a1) old2 (old3 ++ rest) a2 h2,
          put_text-append (framed a1 ++ framed a2) old3 rest a3 h3,
        )
        (ap (λ (mem : List ℕ). some (mem, length ((framed a1 ++ framed a2) ++ framed a3))) flat)

  get_three :
      All IsText a1
      → All IsText a2
      → All IsText a3
      → length a1 ≤ 99
      → length a2 ≤ 99
      → length a3 ≤ 99
      → get_texts three ≡ some (a1 ∷ a2 ∷ a3 ∷ [])
  unfolding get_texts
  get_three t1 t2 t3 s1 s2 s3 =
      let first : get_text three 0 ≡ some (a1, length (framed a1)) =
        get_text-append [] (framed a2 ++ (framed a3 ++ rest)) a1 t1 s1 in
      let second : get_text three (length (framed a1))
          ≡ some (a2, length (framed a1 ++ framed a2)) =
        get_text-append (framed a1) (framed a3 ++ rest) a2 t2 s2 in
      let third : get_text three (length (framed a1 ++ framed a2))
          ≡ some (a3, length ((framed a1 ++ framed a2) ++ framed a3)) =
        ap (λ (mem : List ℕ). get_text mem (length (framed a1 ++ framed a2)))
          (sym (append_assoc (framed a1) (framed a2) (framed a3 ++ rest)))
        ∙ get_text-append (framed a1 ++ framed a2) rest a3 t3 s3 in
      rw (first, second, third) refl

-- Texts of at most 99 characters come out of a block that has room for them with their lengths as
-- they were put in, in the same order, whatever was in the block at first.
pub copy_texts-texts :
    (a1 a2 a3 block : List ℕ)
    → All IsText a1
    → All IsText a2
    → All IsText a3
    → length a1 ≤ 99
    → length a2 ≤ 99
    → length a3 ≤ 99
    → 12 + length a1 + length a2 + length a3 ≤ length block
    → copy_texts a1 a2 a3 block ≡ some (a1 ∷ a2 ∷ a3 ∷ [])
unfolding copy_texts
copy_texts-texts a1 a2 a3 block t1 t2 t3 s1 s2 s3 room = in_parts (
    Parts-of_block (length (framed a1)) (length (framed a2)) (length (framed a3)) block
      (omega arith))
  where
    in_parts :
        Parts (length (framed a1)) (length (framed a2)) (length (framed a3)) block
        → copy_texts a1 a2 a3 block ≡ some (a1 ∷ a2 ∷ a3 ∷ [])
    in_parts (old1, old2, old3, rest, whole, h1, h2, h3) =
        rw (whole, put_three a1 a2 a3 rest old1 old2 old3 h1 h2 h3)
          (get_three a1 a2 a3 rest t1 t2 t3 s1 s2 s3)

-- Whatever is in the block of 10000 bytes at first, and with a message that behaves as documented,
-- main prints the name that it has set, the three texts as they were before they were copied, and
-- the row, and xx is 100.
pub test_main-texts :
    (request : TextMessage)
    → IsDocumented request
    → (block : List ℕ) → length block ≡ 10000
    → test_main request block
      ≡ some (
        codes "Knightwu" ∷ codes "apple" ∷ codes "blue" ∷ codes "red" ∷ codes "This is xxxx." ∷ [],
        100,
      )
unfolding test_main load_u32 get_u32 overwrite c_string
test_main-texts request documented block size =
    let copied : copy_texts (codes "apple") (codes "blue") (codes "red") block
        ≡ some (codes "apple" ∷ codes "blue" ∷ codes "red" ∷ []) =
      copy_texts-texts (codes "apple") (codes "blue") (codes "red") block (omega arith)
        (omega arith) (omega arith) (omega arith) (omega arith) (omega arith) (omega arith) in
    rw (copied, documented.text-set_text (codes "Knightwu") request.fresh) refl
