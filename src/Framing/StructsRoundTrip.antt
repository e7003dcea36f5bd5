-- ===== src/Framing/StructsRoundTrip.antt =====
-- The readers of socket_basic/server.cpp on the structs that its writers send, without the system
-- calls.
use test_server.Framing.Laws.{
  remaining-frame, advance-append, pair_path, fetch_from-append, frames, fetch_length-frame,
}
use test_server.Memory.Laws.{
  overwrite-append, c_string-append, overwrite-replicate, until_nul-text, load_u32-append,
}
use test_server.Base.{
  ◌*◌, sym, Option, append_assoc, length-replicate, length-append, ℕ, zero, suc, ◌-◌, ◌^◌, ◌<◌,
  List, [], ◌∷◌, ◌++◌, some, ◌≡◌, refl, ap, ◌∙◌, arith, length, replicate, All,
}
use test_server.Base.Int.{ℤ, pos}
use test_server.Memory.{◌>>=◌, put_u32, IsText, c_string}
use test_server.Framing.{Block, frame}
use test_server.Framing.Structs.{
  User, Address, user_bytes, load_user, address_bytes, load_address, fill_addresses, read_record,
  read_records, load_byte, fill_attr2,
}

pub load_user-user_bytes :
    (u : User) (rest : List ℕ)
    → u.attr1 < 2 ^ 32
    → u.attr2 < 2 ^ 32
    → load_user (user_bytes u ++ rest) ≡ some u
unfolding load_user load_byte
load_user-user_bytes u rest h k = rw (
  load_u32-append [] u.attr1 (put_u32 u.attr2 ++ u.attr3 ∷ rest) h,
  load_u32-append (put_u32 u.attr1) u.attr2 (u.attr3 ∷ rest) k,
)

-- An address whose text fits its array with a NUL.
pub record IsFine (a : Address) : Type 0 where
  pub word : a.attr1 < 2 ^ 32
  pub text : All IsText a.attr2
  pub short : length a.attr2 < 100

-- `bytes` is a record from which `a` is read, whatever follows.
pub record IsRecord (a : Address) (bytes : List ℕ) : Type 0 where
  pub sized : length bytes ≡ 105
  pub read_back : (rest : List ℕ) → load_address (bytes ++ rest) ≡ some a

-- The array: the text, its NUL, and zeros.
abbrev attr2_bytes : List ℕ → List ℕ
attr2_bytes text = text ++ 0 ∷ replicate (99 - length text) 0

fill_attr2-bytes :
    (text : List ℕ)
    → All IsText text
    → length text < 100
    → fill_attr2 text ≡ some (attr2_bytes text)
unfolding fill_attr2
fill_attr2-bytes text chars short =
    let sum = length-append text (0 ∷ []) in
    let left : 100 - length (text ++ 0 ∷ []) ≡ 99 - length text = omega (arith, sum) in
    rw (until_nul-text text chars)
      (overwrite-replicate 100 (text ++ 0 ∷ []) (omega (arith, sum)) ∙ rw (left, append_assoc))

length-attr2_bytes : (text : List ℕ) → length text < 100 → length (attr2_bytes text) ≡ 100
length-attr2_bytes text short = omega (
  arith,
  length-append text (0 ∷ replicate (99 - length text) 0),
  length-replicate {A = ℕ} (99 - length text) 0,
)

load_byte-append :
    (front : List ℕ) (b : ℕ) (rest : List ℕ) → load_byte (length front) (front ++ b ∷ rest) ≡ some b
unfolding load_byte
load_byte-append [] b rest = refl
load_byte-append (m ∷ front) b rest = load_byte-append front b rest

load_address-bytes :
    (word : ℕ) (text : List ℕ) (last : ℕ) (rest : List ℕ)
    → word < 2 ^ 32
    → All IsText text
    → length text < 100
    → load_address (put_u32 word ++ ((attr2_bytes text ++ last ∷ []) ++ rest))
      ≡ some (record { attr1 = word; attr2 = text; attr3 = last })
unfolding load_address
load_address-bytes word text last rest h chars short =
    let zeros : List ℕ = replicate (99 - length text) 0 in
    let body = (attr2_bytes text ++ last ∷ []) ++ rest in
    let tail : body ≡ attr2_bytes text ++ last ∷ rest =
      append_assoc (attr2_bytes text) (last ∷ []) rest in
    let shown : c_string body ≡ some text =
      rw (tail, append_assoc text (0 ∷ zeros) (last ∷ rest))
        (c_string-append text (zeros ++ last ∷ rest) chars) in
    let flag : load_byte 100 body ≡ some last =
      rw tail
        (rw (length-attr2_bytes text short) at (load_byte-append (attr2_bytes text) last rest)) in
    rw (load_u32-append [] word body h, ◌>>=◌, shown)
      (ap (λ (o : Option ℕ). o >>= λ b. some (record { attr1 = word; attr2 = text; attr3 = b }))
        flag)

address_bytes-IsRecord :
    (a : Address) → IsFine a → (bytes : List ℕ) × (address_bytes a ≡ some bytes) × IsRecord a bytes
unfolding address_bytes
address_bytes-IsRecord a fine = (
  put_u32 a.attr1 ++ (attr2_bytes a.attr2 ++ a.attr3 ∷ []),
  rw (fill_attr2-bytes a.attr2 fine.text fine.short),
  record {
    sized = omega (
      arith,
      length-append (attr2_bytes a.attr2) (a.attr3 ∷ []),
      length-attr2_bytes a.attr2 fine.short,
    );
    read_back =
        λ rest. load_address-bytes a.attr1 a.attr2 a.attr3 rest fine.word fine.text fine.short;
  },
)

-- The addresses and the records that were made of them, one by one.
abbrev pub Records : List Address → List (List ℕ) → Type 0
Records [] [] = Unit {0}
Records (a ∷ addresses) (bytes ∷ records) = IsRecord a bytes × Records addresses records
Records _ _ = ⊥

pub fill_addresses-Records :
    (addresses : List Address)
    → All IsFine addresses
    → (records : List (List ℕ)) × (fill_addresses addresses ≡ some records)
      × Records addresses records
unfolding fill_addresses
fill_addresses-Records [] fine = ([], refl, tt)
fill_addresses-Records (a ∷ addresses) (fine, rest) =
    let (bytes, made, good) = address_bytes-IsRecord a fine in
    let (records, filled, all) = fill_addresses-Records addresses rest in
    (bytes ∷ records, rw (made, ◌>>=◌, filled), (good, all))

read_record-frame :
    (a : Address) (old bytes keep rest : List ℕ) (tail : ℕ)
    → length old ≡ 105
    → IsRecord a bytes
    → read_record
        (old ++ keep)
        (record { bytes = frame bytes ++ rest; tail = tail })
        (pos (length (frame bytes ++ rest)))
      ≡ some (a, bytes ++ keep, record { bytes = rest; tail = tail }, pos (length rest))
unfolding read_record
read_record-frame a old bytes keep rest tail size good =
    let size_read =
      fetch_length-frame (length bytes) (bytes ++ rest) tail (omega (arith, good.sized)) in
    let zeros : tail - (4 - suc (suc (suc (suc (length (bytes ++ rest)))))) ≡ tail = omega arith in
    let copied = overwrite-append old bytes keep (size ∙ sym good.sized) in
    rw (size_read, ◌>>=◌, zeros, fetch_from-append bytes rest tail, copied, good.read_back keep)
      (ap (λ (p : Block × ℤ). some (a, bytes ++ keep, p.0, p.1))
        (pair_path (advance-append bytes rest tail) (
          remaining-frame (length (bytes ++ rest)) (length bytes) (length rest)
            (length-append bytes rest))))

-- The last of the records that follow `bytes`.
abbrev pub last_record : List ℕ → List (List ℕ) → List ℕ
last_record bytes [] = bytes
last_record bytes (next ∷ records) = last_record next records

-- Each record is printed as it was sent. All go to the first entry of the array, so that the last
-- one is there in the end and the other entries, `keep`, are as before.
pub read_records-frames :
    (fuel : ℕ) (a : Address) (addresses : List Address) (bytes : List ℕ) (records : List (List ℕ))
    (old keep : List ℕ) (tail : ℕ)
    → length records < fuel
    → length old ≡ 105
    → Records (a ∷ addresses) (bytes ∷ records)
    → read_records fuel
        (old ++ keep)
        (record { bytes = frames (bytes ∷ records); tail = tail })
        (pos (length (frames (bytes ∷ records))))
      ≡ some (a ∷ addresses, last_record bytes records ++ keep)
unfolding read_records
read_records-frames zero a addresses bytes records old keep tail h size good = absurd (omega arith)
read_records-frames (suc fuel) a [] bytes [] old keep tail h size (good, all) =
    rw (read_record-frame a old bytes keep [] tail size good, ◌>>=◌)
read_records-frames (suc fuel) a [] bytes (next ∷ records) old keep tail h size (good, all) =
    absurd all
read_records-frames (suc fuel) a (b ∷ addresses) bytes [] old keep tail h size (good, all) =
    absurd all
read_records-frames (suc fuel) a (b ∷ addresses) bytes (next ∷ records) old keep tail h size
      (good, all) =
    rw (
      read_record-frame a old bytes keep (frames (next ∷ records)) tail size good,
      ◌>>=◌,
      read_records-frames fuel b addresses next records bytes keep tail (omega arith) good.sized
          all,
    )

-- A record takes 109 bytes with its length, and there is one for each address.
pub length-Records :
    (addresses : List Address) (records : List (List ℕ))
    → Records addresses records
    → (length (frames records) ≡ 109 * length addresses) × (length records ≡ length addresses)
length-Records [] [] good = (omega arith, refl)
length-Records [] (bytes ∷ records) good = absurd good
length-Records (a ∷ addresses) [] good = absurd good
length-Records (a ∷ addresses) (bytes ∷ records) (good, all) =
    let (sum, count) = length-Records addresses records all in
    (omega (arith, good.sized, length-append bytes (frames records)), ap suc count)

abbrev pub last_address : Address → List Address → Address
last_address a [] = a
last_address a (b ∷ addresses) = last_address b addresses

pub last_record-last_address :
    (a : Address) (addresses : List Address) (bytes : List ℕ) (records : List (List ℕ))
    (keep : List ℕ)
    → Records (a ∷ addresses) (bytes ∷ records)
    → load_address (last_record bytes records ++ keep) ≡ some (last_address a addresses)
last_record-last_address a [] bytes [] keep (good, all) = good.read_back keep
last_record-last_address a [] bytes (next ∷ records) keep (good, all) = absurd all
last_record-last_address a (b ∷ addresses) bytes [] keep (good, all) = absurd all
last_record-last_address a (b ∷ addresses) bytes (next ∷ records) keep (good, all) =
    last_record-last_address b addresses next records keep all
