-- ===== src/Framing/Laws.antt =====
-- A frame is taken off a block, and frames are packed one behind the other.
use test_server.Base.{
  suc, true, leb, ℕ, ◌+◌, ◌-◌, ◌^◌, ◌≤◌, ◌<◌, List, [], ◌∷◌, ◌++◌, some, ◌≡◌, refl, ap, ◌∙◌, arith,
  length, append-nil, append_assoc, length-append, drop-length_append,
}
use test_server.Memory.{◌>>=◌, put_u32}
use test_server.Framing.{
  pos, remaining, fetch_from, fetch_length, int_size, advance, frame, pack_loop,
}

abbrev pub frames : List (List ℕ) → List ℕ
frames [] = []
frames (bytes ∷ rest) = frame bytes ++ frames rest

pub fetch_from-append :
    (bytes rest : List ℕ) (tail : ℕ) → fetch_from (length bytes) (bytes ++ rest) tail ≡ some bytes
unfolding fetch_from
fetch_from-append [] rest tail = refl
fetch_from-append (b ∷ bytes) rest tail = rw (fetch_from-append bytes rest tail)

pub int_size-put_u32 : (n : ℕ) → n < 2 ^ 31 → int_size (put_u32 n) ≡ some n
unfolding int_size
int_size-put_u32 n h = ground arith

-- The length of a frame is read from its front.
pub fetch_length-frame :
    (n : ℕ) (rest : List ℕ) (tail : ℕ)
    → n < 2 ^ 31
    → fetch_length (record { bytes = put_u32 n ++ rest; tail = tail }) ≡ some n
unfolding fetch_length
fetch_length-frame n rest tail h =
    rw (fetch_from-append (put_u32 n) rest tail, ◌>>=◌) (int_size-put_u32 n h)

pub advance-append :
    (bytes rest : List ℕ) (tail : ℕ)
    → advance (length bytes) (record { bytes = bytes ++ rest; tail = tail })
      ≡ record { bytes = rest; tail = tail }
advance-append bytes rest tail =
    let none_left : tail - (length bytes - length (bytes ++ rest)) ≡ tail =
      omega (arith, length-append bytes rest) in
    rw (drop-length_append bytes rest, none_left)

-- The packing loop puts the frames one behind the other, as long as they fit the block.
pub pack_loop-frames :
    (capacity : ℕ) (records : List (List ℕ)) (packed : List ℕ)
    → length packed + length (frames records) ≤ capacity
    → pack_loop capacity records packed ≡ some (packed ++ frames records)
unfolding pack_loop
pack_loop-frames capacity [] packed h = rw append-nil
pack_loop-frames capacity (bytes ∷ records) packed h =
    let whole = append_assoc packed (frame bytes) (frames records) in
    let sum = ap length whole ∙ length-append packed (frame bytes ++ frames records) in
    let parts = length-append (packed ++ frame bytes) (frames records) in
    let room : leb (length (packed ++ frame bytes)) capacity ≡ true = ground (arith, sum, parts) in
    rw room (
      pack_loop-frames capacity records (packed ++ frame bytes) (omega (arith, sum, parts))
      ∙ ap some whole)

pub pair_path : {A B : Type 0} {a c : A} {b d : B} → a ≡ c → b ≡ d → ◌≡◌ {A = A × B} (a, b) (c, d)
pair_path p q = λ i. (p i, q i)

-- What remains behind a frame.
pub remaining-frame : (m t r : ℕ) → m ≡ t + r → remaining (pos (suc (suc (suc (suc m))))) t ≡ pos r
remaining-frame m t r e = ground arith
