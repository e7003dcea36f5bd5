-- ===== src/PacketTests/Blocks.antt =====
-- Which texts the blocks of the packet tests have room for.
use test_server.Base.{
  ◌∙◌, append_assoc, ◌∙◌, ℕ, ◌+◌, ◌≤◌, ◌<◌, ◌^◌, List, [], ◌∷◌, ◌++◌, Option, none, some, ◌≡◌, refl,
  ap, arith, length, length-append, codes, split_at,
}
use test_server.Memory.{◌>>=◌, put_u32, until_nul, strlen, c_string}
use test_server.Memory.Laws.{bind_inverse, c_string-append, until_nul-IsText, load_u32-append}
use test_server.Rpc.{Message, load_message, parse, sizeof_message}
use test_server.Rpc.Packet.{write_fields, write_fields-fits, write_fields_overrun}
use test_server.PacketTests.{
  fill_message, sizeof_string, string_block_size, test_b, test_c, test_d, test_f,
}

fill_message-write_fields :
    (block : List ℕ) (magic total : ℕ) (text : List ℕ)
    → fill_message block magic total text
      ≡ (write_fields block magic total (until_nul text ++ 0 ∷ []) >>= λ both. some both.0)
unfolding fill_message write_fields
fill_message-write_fields block magic total text = ground arith

-- In a block of 9 + strlen bytes at least the message is what was put there, and in a shorter one
-- the write goes past its end.
fill_message-fits :
    (block : List ℕ) (magic total : ℕ) (text : List ℕ)
    → sizeof_message + strlen text ≤ length block
    → magic < 2 ^ 32
    → total < 2 ^ 32
    → (fill_message block magic total text >>= load_message)
      ≡ some (record { magic = magic; length = total; msg = until_nul text })
unfolding load_message
fill_message-fits block magic total text room m t =
    let size : length (until_nul text ++ 0 ∷ []) ≡ strlen text + 1 =
      length-append (until_nul text) (0 ∷ []) in
    let (old, rest, parts, size_old) = split_at (sizeof_message + strlen text) block room in
    let filled : fill_message block magic total text
        ≡ some (put_u32 magic ++ (put_u32 total ++ ((until_nul text ++ 0 ∷ []) ++ rest))) =
      ap (λ (l : List ℕ). fill_message l magic total text) parts
      ∙ fill_message-write_fields (old ++ rest) magic total text
      ∙ ap (λ (o : Option (List ℕ × ℕ)). o >>= λ both. some both.0)
          (write_fields-fits old rest magic total (until_nul text ++ 0 ∷ []) (omega arith)) in
    let shown : c_string ((until_nul text ++ 0 ∷ []) ++ rest) ≡ some (until_nul text) =
      rw (append_assoc (until_nul text) (0 ∷ []) rest)
        (c_string-append (until_nul text) rest (until_nul-IsText text)) in
    rw
      (
        filled,
        load_u32-append [] magic (put_u32 total ++ ((until_nul text ++ 0 ∷ []) ++ rest)) m,
        load_u32-append (put_u32 magic) total ((until_nul text ++ 0 ∷ []) ++ rest) t,
        shown,
      )
      refl

pub fill_message-overrun :
    (block : List ℕ) (magic total : ℕ) (text : List ℕ)
    → length block < sizeof_message + strlen text
    → fill_message block magic total text ≡ none
fill_message-overrun block magic total text short =
    fill_message-write_fields block magic total text
    ∙ ap (λ (o : Option (List ℕ × ℕ)). o >>= λ both. some both.0)
        (write_fields_overrun block (until_nul text ++ 0 ∷ []) magic total
          (omega (arith, length-append (until_nul text) (0 ∷ []))))

-- In the block that tests E and F get for a text, with the size of a std::string and not of its
-- text, a text of at most 32 bytes is read back, and a longer one is written past the end.
pub fill_message-string_block :
    (block text : List ℕ) (magic total : ℕ)
    → length block ≡ string_block_size
    → magic < 2 ^ 32
    → total < 2 ^ 32
    → (strlen text ≤ sizeof_string
        → (fill_message block magic total text >>= λ message. parse message string_block_size)
          ≡ some (until_nul text))
      × (sizeof_string < strlen text → fill_message block magic total text ≡ none)
unfolding parse
fill_message-string_block block text magic total size m t = (
  λ short.
      let (message, filled, loaded) =
        bind_inverse (fill_message block magic total text) load_message
          (fill_message-fits block magic total text (omega arith) m t) in
      rw (filled, loaded) refl,
  λ long. fill_message-overrun block magic total text (omega arith),
)

-- Whatever is in the blocks at first, test F finds in each of them the fields and the text that it
-- has put there, by a look at the fields and by Parse.
pub test_f-texts :
    (block block1 : List ℕ)
    → length block ≡ string_block_size
    → length block1 ≡ string_block_size
    → let first : Message = record { magic = 0x55443322; length = 12345; msg = codes "ABCDNE" } in
      let second : Message = record {
        magic = 0x55667788;
        length = 54321;
        msg = codes "QWERJJSKDFIOIW";
      } in
      test_f block block1
      ≡ some (first ∷ first ∷ second ∷ [], codes "ABCDNE", codes "QWERJJSKDFIOIW")
unfolding test_f parse until_nul
test_f-texts block block1 size size1 =
    let (message, filled, loaded) =
      bind_inverse (fill_message block 0x55443322 12345 (codes "ABCDNE")) load_message (
        fill_message-fits block 0x55443322 12345 (codes "ABCDNE") (omega arith) (omega arith)
          (omega arith)) in
    let (message1, filled1, loaded1) =
      bind_inverse (fill_message block1 0x55667788 54321 (codes "QWERJJSKDFIOIW")) load_message (
        fill_message-fits block1 0x55667788 54321 (codes "QWERJJSKDFIOIW") (omega arith)
          (omega arith) (omega arith)) in
    rw (filled, loaded, filled1, loaded1) refl

-- Tests B, C and D write past the end of their message, whatever is in it at first.
pub tests-overrun :
    (block block1 : List ℕ)
    → length block ≡ sizeof_message
    → (test_b block ≡ none) × (test_c block ≡ none) × (test_d block block1 ≡ none)
unfolding test_b test_c test_d until_nul
tests-overrun block block1 size =
    let overrun = fill_message-overrun block 0x55443322 12345 (codes "ABC") (omega arith) in
    (rw overrun refl, rw overrun refl, rw overrun refl)
