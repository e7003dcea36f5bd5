-- ===== src/Stream/Packets.antt =====
-- What `parse` makes of the packets in a buffer.
use test_server.Rpc.Parsing.{parse_into-packet}
use test_server.Rpc.Length.{get_message_length-packet}
use test_server.Rpc.{parse_into, sizeof_header, get_message_length, maximum_packet_length}
use test_server.Rpc.Packet.{packet}
use test_server.Memory.{◌>>=◌, until_nul, strlen}
use test_server.Stream.{finished, printed, parse_loop, move_pointer}
use test_server.Base.Int.{minus_one, to_size, ℤ, is_positive, is_zero, ◌-ℤ◌, pos}
use test_server.Base.{
  inr, inl, Option-cases, none, sym, append_assoc, zero, ◌∙◌, true, map, ltb, ap, ◌<◌, false, All,
  refl, drop-length_append, subst, [], length-append, ◌≤◌, arith, some, if◌then◌else◌, ◌+◌, ◌≡◌,
  ◌∷◌, suc, length, List, ℕ, ◌++◌,
}

-- Some packets, one behind the other.
abbrev pub packets : List (List ℕ) → List ℕ
packets [] = []
packets (msg ∷ msgs) = packet msg ++ packets msgs

abbrev pub IsSmall : List ℕ → Type 0
IsSmall msg = strlen msg + 9 ≤ maximum_packet_length

pub packet-length : (msg : List ℕ) → length (packet msg) ≡ 9 + strlen msg
packet-length msg = omega (arith, length-append (until_nul msg) (0 ∷ []))

-- The pointer behind a packet.
move_pointer-packet :
    (front bytes rest : List ℕ)
    → move_pointer (length front) (pos (length bytes)) (front ++ (bytes ++ rest))
      ≡ some (length (front ++ bytes))
unfolding move_pointer
move_pointer-packet front bytes rest = ground (
  arith,
  length-append front (bytes ++ rest),
  length-append bytes rest,
  length-append front bytes,
)

rest_of_count : (n m : ℕ) → pos (n + m) -ℤ pos n ≡ pos m
rest_of_count n m = ground arith

not_zero : (n : ℕ) → is_zero (pos (9 + n)) ≡ false
not_zero n = let e : 9 + n ≡ suc (8 + n) = omega arith in ap (λ (m : ℕ). is_zero (pos m)) e

-- A round on a packet.
parse_loop-packet :
    (fuel : ℕ) (front msg rest : List ℕ) (count : ℕ)
    → IsSmall msg
    → parse_loop
        (suc fuel)
        (front ++ (packet msg ++ rest))
        (length front)
        (pos (9 + strlen msg + count))
      ≡ (if is_positive (pos count)
          then (parse_loop fuel
                (front ++ (packet msg ++ rest))
                (length (front ++ packet msg))
                (pos count)
              >>= λ parsing. some (printed (until_nul msg) parsing))
          else some (finished (until_nul msg ∷ []) (pos count)))
unfolding parse_loop
parse_loop-packet fuel front msg rest count small =
    rw
      (
        drop-length_append front (packet msg ++ rest),
        get_message_length-packet msg rest (9 + strlen msg + count) small (omega arith),
        parse_into-packet msg rest [] (9 + strlen msg) small (omega arith),
        moved,
        rest_of_count (9 + strlen msg) count,
        not_zero (strlen msg),
      )
      refl
  where
    moved :
        move_pointer (length front) (pos (9 + strlen msg)) (front ++ (packet msg ++ rest))
        ≡ some (length (front ++ packet msg))
    moved =
        subst
          (λ (n : ℕ).
            move_pointer (length front) (pos n) (front ++ (packet msg ++ rest))
            ≡ some (length (front ++ packet msg)))
          (packet-length msg) (move_pointer-packet front (packet msg) rest)

-- At the end of the packets, with `left` bytes of the next header.
parse_loop-end :
    (fuel : ℕ) (block : List ℕ) (offset left : ℕ)
    → left < sizeof_header
    → parse_loop (suc fuel) block offset (pos left) ≡ some (finished [] (pos left))
unfolding parse_loop get_message_length
parse_loop-end fuel block offset left early =
    let short : ltb left sizeof_header ≡ true = ground arith in rw short refl

is_positive-lem : (n : ℕ) → 0 < n → is_positive (pos n) ≡ true
is_positive-lem zero h = absurd (omega arith)
is_positive-lem (suc n) h = refl

-- A round on the first of several packets, with everything that follows it.
parse_loop-first :
    (fuel : ℕ) (front msg : List ℕ) (msgs : List (List ℕ)) (rest : List ℕ) (left : ℕ)
    → IsSmall msg
    → parse_loop
        (suc fuel)
        (front ++ (packets (msg ∷ msgs) ++ rest))
        (length front)
        (pos (length (packets (msg ∷ msgs)) + left))
      ≡ (if is_positive (pos (length (packets msgs) + left))
          then (parse_loop fuel
                ((front ++ packet msg) ++ (packets msgs ++ rest))
                (length (front ++ packet msg))
                (pos (length (packets msgs) + left))
              >>= λ parsing. some (printed (until_nul msg) parsing))
          else some (finished (until_nul msg ∷ []) (pos (length (packets msgs) + left))))
parse_loop-first fuel front msg msgs rest left small =
    let count : length (packets (msg ∷ msgs)) + left
        ≡ 9 + strlen msg + (length (packets msgs) + left) =
      omega (arith, length-append (packet msg) (packets msgs), packet-length msg) in
    let shape : front ++ (packets (msg ∷ msgs) ++ rest)
        ≡ front ++ (packet msg ++ (packets msgs ++ rest)) =
      ap (◌++◌ front) (append_assoc (packet msg) (packets msgs) rest) in
    let other = append_assoc front (packet msg) (packets msgs ++ rest) in
    ap
      (λ (l : List ℕ).
        parse_loop (suc fuel) l (length front) (pos (length (packets (msg ∷ msgs)) + left)))
      shape
    ∙ ap
        (λ (n : ℕ).
          parse_loop (suc fuel) (front ++ (packet msg ++ (packets msgs ++ rest))) (length front)
            (pos n))
        count
    ∙ parse_loop-packet fuel front msg (packets msgs ++ rest) (length (packets msgs) + left) small
    ∙ ap
        (λ (l : List ℕ).
          if is_positive (pos (length (packets msgs) + left))
          then (parse_loop fuel l (length (front ++ packet msg))
                (pos (length (packets msgs) + left))
              >>= λ parsing. some (printed (until_nul msg) parsing))
          else some (finished (until_nul msg ∷ []) (pos (length (packets msgs) + left))))
        (sym other)

last_round :
    (fuel : ℕ) (block msg : List ℕ) (offset left : ℕ)
    → left < sizeof_header
    → (if is_positive (pos left)
        then (parse_loop (suc fuel) block offset (pos left) >>= λ parsing.
            some (printed msg parsing))
        else some (finished (msg ∷ []) (pos left)))
      ≡ some (finished (msg ∷ []) (pos left))
last_round fuel block msg offset zero early = refl
last_round fuel block msg offset (suc left) early =
    rw (parse_loop-end fuel block offset (suc left) early) refl

-- In a buffer that holds, from the pointer on, some packets and fewer than eight bytes of another,
-- the texts of all those packets are printed, and what is returned is the number of bytes left.
pub parse_loop-packets :
    (fuel : ℕ) (front : List ℕ) (msg : List ℕ) (msgs : List (List ℕ)) (rest : List ℕ) (left : ℕ)
    → All IsSmall (msg ∷ msgs)
    → left < sizeof_header
    → length msgs < fuel
    → parse_loop
        (suc fuel)
        (front ++ (packets (msg ∷ msgs) ++ rest))
        (length front)
        (pos (length (packets (msg ∷ msgs)) + left))
      ≡ some (finished (map until_nul (msg ∷ msgs)) (pos left))
parse_loop-packets zero front msg msgs rest left small early enough = absurd (omega arith)
parse_loop-packets (suc fuel) front msg [] rest left (small, others) early enough =
    let none_left : length (packets []) + left ≡ left = omega arith in
    parse_loop-first (suc fuel) front msg [] rest left small
    ∙ rw none_left (
        last_round fuel ((front ++ packet msg) ++ rest) (until_nul msg)
          (length (front ++ packet msg)) left early)
parse_loop-packets (suc fuel) front msg (next ∷ msgs) rest left (small, others) early enough =
    parse_loop-first (suc fuel) front msg (next ∷ msgs) rest left small
    ∙ rw
        (
          is_positive-lem (length (packets (next ∷ msgs)) + left)
              (omega (arith, length-append (packet next) (packets msgs), packet-length next)),
          parse_loop-packets fuel (front ++ packet msg) next msgs rest left others early
              (omega arith),
        )
        refl

-- If the first header is refused, the pointer moves in front of the buffer, or a read leaves it:
-- both are undefined.
parse_loop_refused :
    (fuel : ℕ) (block : List ℕ) (count : ℤ)
    → get_message_length block (to_size count) ≡ some minus_one
    → parse_loop (suc fuel) block 0 count ≡ none
unfolding parse_loop move_pointer
parse_loop_refused fuel block count refused =
    elim (Option-cases (parse_into block (to_size minus_one) [])) [
      | inl out ↦ rw (refused, out) refl
      | inr (result, found) ↦ rw (refused, found) refl
    ]
