-- ===== src/Stream/Transfer.antt =====
-- What `write_string` sends, and what `read_string` does with packets that come in one piece.
use test_server.Stream.{strncpy_self, finished, parse_loop, buffer_length}
use test_server.Memory.Laws.{overwrite-replicate, fetch-append}
use test_server.Memory.{store, until_nul, overwrite, fetch, strlen}
use test_server.Rpc.Packet.{serialize-packet, packet}
use test_server.Stream.Packets.{parse_loop-packets, packet-length, packets, IsSmall}
use test_server.Rpc.{serialize, packet_length}
use test_server.Stream.Strings.{read_string, read_string_loop, write_string}
use test_server.Base.{
  map, All, length-append, zero, ◌∷◌, ◌-◌, take, false, ltb, suc, ◌≤◌, ◌<◌, refl, length, ◌∙◌, ap,
  sym, length-replicate, [], append-nil, some, replicate, arith, ◌^◌, ◌%◌, ◌+◌, ◌≡◌, ℕ, List, ◌++◌,
}
use test_server.Base.Int.{◌+ℤ◌, pos, ℤ}
use test_server.Os.{done, Os, M}

-- A message that is not too long is sent as its packet, in one call of the library's writen, whose
-- result is returned.
pub write_string-packet :
    (writen : ℤ → List ℕ → M ℤ) (msg : List ℕ) (fd : ℤ) (os : Os)
    → IsSmall msg
    → write_string writen msg fd os ≡ writen fd (packet msg) os
unfolding write_string packet_length
write_string-packet writen msg fd os small =
    let size : (9 + strlen msg) % 2 ^ 64 ≡ 9 + strlen msg = omega arith in
    let block : List ℕ = replicate (9 + strlen msg) 0 in
    let written : serialize block msg ≡ some (packet msg, 9 + strlen msg) =
      sym (ap (λ (l : List ℕ). serialize l msg) (append-nil block))
      ∙ serialize-packet msg block [] small (length-replicate (9 + strlen msg) 0)
      ∙ ap (λ (l : List ℕ). some (l, 9 + strlen msg)) (append-nil (packet msg)) in
    let whole : fetch (9 + strlen msg) (packet msg) ≡ some (packet msg) =
      ap (λ (n : ℕ). fetch n (packet msg)) (sym (packet-length msg))
      ∙ ap (fetch (length (packet msg))) (sym (append-nil (packet msg)))
      ∙ fetch-append (packet msg) [] in
    rw (size, written, whole) refl

strncpy_self-none : (buffer : List ℕ) → strncpy_self 0 buffer ≡ some buffer
unfolding strncpy_self until_nul overwrite
strncpy_self-none buffer = refl

sum_zero : (n : ℕ) → pos 0 +ℤ pos n ≡ pos n
sum_zero n = ground arith

-- One round of `read_string` in which everything is used up.
read_string_loop-round :
    (readn : ℤ → ℕ → M (ℤ × List ℕ)) (fuel : ℕ) (fd : ℤ) (block bytes buffer : List ℕ) (n : ℕ)
    (texts : List (List ℕ)) (os after : Os)
    → readn fd buffer_length os ≡ done (pos n, bytes) after
    → 0 < n
    → n ≤ buffer_length
    → overwrite (replicate buffer_length 0) bytes ≡ some buffer
    → parse_loop fuel buffer 0 (pos n) ≡ some (finished texts (pos 0))
    → read_string_loop readn (suc fuel) fd block (pos 0) (pos 0) [] os ≡ done (pos 0, texts) after
unfolding read_string_loop
read_string_loop-round readn fuel fd block bytes buffer zero texts os after read positive fits
      filled parsed =
    absurd (omega arith)
read_string_loop-round readn fuel fd block bytes buffer (suc n) texts os after read positive fits
      filled parsed =
    let within : ltb buffer_length (suc n) ≡ false = ground arith in
    let copied : store 0 (take 0 block ++ replicate (buffer_length - 0) 0) bytes ≡ some buffer =
      unfold store in filled in
    rw (read, sum_zero (suc n), within, copied, parsed, strncpy_self-none buffer) refl

packets_positive : (msg : List ℕ) (msgs : List (List ℕ)) → 0 < length (packets (msg ∷ msgs))
packets_positive msg msgs =
    omega (arith, length-append (packet msg) (packets msgs), packet-length msg)

-- If the library's readn brings some packets, at least one and at most 1024 bytes of them, in one
-- piece, `read_string` prints their texts, each as far as its first NUL, reads no further, and
-- returns 0; two rounds more than there are packets are enough fuel.
pub read_string-packets :
    (readn : ℤ → ℕ → M (ℤ × List ℕ)) (fuel : ℕ) (fd : ℤ) (msg : List ℕ) (msgs : List (List ℕ))
    (os after : Os)
    → All IsSmall (msg ∷ msgs)
    → length (packets (msg ∷ msgs)) ≤ buffer_length
    → length msgs < fuel
    → readn fd buffer_length os
      ≡ done (pos (length (packets (msg ∷ msgs))), packets (msg ∷ msgs)) after
    → read_string readn (suc (suc fuel)) fd os ≡ done (pos 0, map until_nul (msg ∷ msgs)) after
unfolding read_string
read_string-packets readn fuel fd msg msgs os after small fits enough read =
    let bytes = packets (msg ∷ msgs) in
    let behind : List ℕ = replicate (buffer_length - length bytes) 0 in
    let none_left : length bytes + 0 ≡ length bytes = omega arith in
    read_string_loop-round readn (suc fuel) fd (replicate buffer_length 0) bytes (bytes ++ behind)
      (length bytes) (map until_nul (msg ∷ msgs)) os after read (packets_positive msg msgs) fits
      (overwrite-replicate buffer_length bytes fits)
      (ap (λ (n : ℕ). parse_loop (suc fuel) (bytes ++ behind) 0 (pos n)) (sym none_left)
        ∙ parse_loop-packets fuel [] msg msgs behind 0 small (omega arith) enough)
