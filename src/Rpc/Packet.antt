-- ===== src/Rpc/Packet.antt =====
-- What `serialize` writes: the packet, at its place in a buffer that is large enough.
use test_server.Base.{
  ℕ, ◌+◌, ◌%◌, ◌^◌, ◌≤◌, ◌<◌, List, [], ◌∷◌, ◌++◌, Option, none, some, ◌≡◌, ap, arith, length,
  length-append, append_assoc, split_at, ltb, true, false, ◌∙◌, Option-cases, inl, inr,
}
use test_server.Memory.{◌>>=◌, store, put_u32, until_nul, strlen}
use test_server.Memory.Laws.{store-append, store-length, store-short}
use test_server.Rpc.{magic_number, maximum_packet_length, serialize}

-- The bytes of the packet for `msg`.
abbrev pub packet : List ℕ → List ℕ
packet msg = put_u32 magic_number ++ (put_u32 (9 + strlen msg) ++ (until_nul msg ++ 0 ∷ []))

-- The three writes, field by field.
unfoldable pub write_fields : List ℕ → ℕ → ℕ → List ℕ → Option (List ℕ × ℕ)
write_fields buffer magic total text = do
  with_magic ← store 0 buffer (put_u32 magic)
  with_size ← store 4 with_magic (put_u32 total)
  with_msg ← store 8 with_size text
  some (with_msg, total)

write_fields_lem :
    (a b c rest : List ℕ) (magic total : ℕ) (text : List ℕ)
    → length a ≡ 4
    → length b ≡ 4
    → length c ≡ length text
    → write_fields (a ++ (b ++ (c ++ rest))) magic total text
      ≡ some (put_u32 magic ++ (put_u32 total ++ (text ++ rest)), total)
unfolding write_fields
write_fields_lem a b c rest magic total text ha hb hc = rw (
  store-append [] a (put_u32 magic) (b ++ (c ++ rest)) ha,
  store-append (put_u32 magic) b (put_u32 total) (c ++ rest) hb,
  store-append (put_u32 magic ++ put_u32 total) c text rest hc,
)

serialize-write_fields :
    (buffer msg : List ℕ)
    → strlen msg + 9 ≤ maximum_packet_length
    → serialize buffer msg
      ≡ write_fields buffer magic_number (9 + strlen msg) (until_nul msg ++ 0 ∷ [])
unfolding serialize write_fields
serialize-write_fields buffer msg fits =
    let allowed : ltb maximum_packet_length ((strlen msg + 9) % 2 ^ 64) ≡ false = ground arith in
    let total : (9 + strlen msg % 2 ^ 32) % 2 ^ 32 ≡ 9 + strlen msg = omega arith in
    rw (allowed, total)

-- A list of at least two words in its parts.
split_words :
    (old : List ℕ) (n : ℕ)
    → length old ≡ 8 + n
    → (a : List ℕ) × (b : List ℕ) × (c : List ℕ) × (old ≡ a ++ (b ++ c))
      × (length a ≡ 4)
      × (length b ≡ 4)
      × (length c ≡ n)
split_words old n h =
    let (a, more, first, ha) = split_at 4 old (omega arith) in
    let sum = ap length first ∙ length-append a more in
    let (b, c, second, hb) = split_at 4 more (omega arith) in
    (
      a,
      b,
      c,
      first ∙ ap (◌++◌ a) second,
      ha,
      hb,
      omega (arith, ap length second, length-append b c),
    )

-- The writes fill the front of a block that is large enough.
pub write_fields-fits :
    (old rest : List ℕ) (magic total : ℕ) (text : List ℕ)
    → length old ≡ 8 + length text
    → write_fields (old ++ rest) magic total text
      ≡ some (put_u32 magic ++ (put_u32 total ++ (text ++ rest)), total)
write_fields-fits old rest magic total text size =
    let (a, b, c, parts, ha, hb, hc) = split_words old (length text) size in
    let place : old ++ rest ≡ a ++ (b ++ (c ++ rest)) =
      ap (λ (l : List ℕ). l ++ rest) parts
      ∙ append_assoc a (b ++ c) rest
      ∙ ap (◌++◌ a) (append_assoc b c rest) in
    ap (λ (l : List ℕ). write_fields l magic total text) place
    ∙ write_fields_lem a b c rest magic total text ha hb hc

-- A message whose packet is at most the maximum is written whole: its packet takes the place of the
-- first 9 + strlen bytes of the buffer, what stands behind them stays, and the result is their
-- number.
pub serialize-packet :
    (msg old rest : List ℕ)
    → strlen msg + 9 ≤ maximum_packet_length
    → length old ≡ 9 + strlen msg
    → serialize (old ++ rest) msg ≡ some (packet msg ++ rest, 9 + strlen msg)
serialize-packet msg old rest fits size =
    let text = until_nul msg ++ 0 ∷ [] in
    let text_length : length text ≡ strlen msg + 1 = length-append (until_nul msg) (0 ∷ []) in
    serialize-write_fields (old ++ rest) msg fits
    ∙ write_fields-fits old rest magic_number (9 + strlen msg) text (omega arith)

pub write_fields_overrun :
    (buffer text : List ℕ) (magic total : ℕ)
    → length buffer < 8 + length text
    → write_fields buffer magic total text ≡ none
unfolding write_fields
write_fields_overrun buffer text magic total short =
    elim (Option-cases (store 0 buffer (put_u32 magic))) [
      | inl out ↦ rw out
      | inr (one, first) ↦ elim (Option-cases (store 4 one (put_u32 total))) [
        | inl out ↦ rw (first, out)
        | inr (two, second) ↦ rw (
          first,
          second,
          store-short 8 two text (
              omega (
                arith,
                store-length 0 buffer (put_u32 magic) first,
                store-length 4 one (put_u32 total) second,
              )),
        )
      ]
    ]

-- A buffer that is shorter than the packet is overrun.
serialize_overrun :
    (buffer msg : List ℕ)
    → strlen msg + 9 ≤ maximum_packet_length
    → length buffer < 9 + strlen msg
    → serialize buffer msg ≡ none
serialize_overrun buffer msg fits short = rw (serialize-write_fields buffer msg fits) (
    write_fields_overrun buffer (until_nul msg ++ 0 ∷ []) magic_number (9 + strlen msg)
      (omega (arith, length-append (until_nul msg) (0 ∷ []))))

-- A longer message is refused: nothing is written, and the result is 0.
pub serialize_refused :
    (buffer msg : List ℕ)
    → maximum_packet_length < strlen msg + 9
    → strlen msg < 2 ^ 63
    → serialize buffer msg ≡ some (buffer, 0)
unfolding serialize
serialize_refused buffer msg long real =
    let refused : ltb maximum_packet_length ((strlen msg + 9) % 2 ^ 64) ≡ true = ground arith in
    rw refused
