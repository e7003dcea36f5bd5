-- ===== src/Framing/Exchange.antt =====
-- What one side makes of what the other sends with `write_char`, `write_struct` or `write_structs`.
use test_server.Framing.Laws.{pack_loop-frames, frames}
use test_server.Framing.{pack_loop}
use test_server.Memory.Laws.{c_string-append, until_nul-text, c_string-behind}
use test_server.Base.{
  take, true, ◌*◌, drop-replicate, ◌-◌, drop, take-all, ℕ, ◌+◌, ◌^◌, ◌≤◌, ◌<◌, List, [], ◌∷◌, ◌++◌,
  some, ◌≡◌, refl, ap, arith, length, replicate, All,
}
use test_server.Base.Int.{is_positive, ℤ, pos, negsuc}
use test_server.Memory.{IsText, c_string}
use test_server.Os.{Reply, Call, done, read, write}
use test_server.Framing.Structs.{
  load_address, read_records, fill_addresses, User, Address, load_user, user_bytes,
}
use test_server.Framing.StructsRoundTrip.{
  last_record-last_address, last_address, fill_addresses-Records, read_records-frames, last_record,
  length-Records, Records, load_user-user_bytes, IsFine,
}
use test_server.Framing.StructTransfer.{
  write_char, read_char, write_struct, read_struct, write_structs, read_structs,
}
use test_server.Framing.Transfer.{filled, buffer_size, replying}

-- A text of at most 99 characters is sent without its NUL, and printed whole from a zeroed array.
read_char-write_char :
    (text : List ℕ) (fd gd : ℤ) (k : ℕ) (script other : List Reply) (trace seen : List Call)
    → All IsText text
    → length text < 100
    → length text ≤ k
    → (write_char text fd (replying (pos k) [] script trace)
        ≡ done (pos (length text)) (record { script = script; trace = write fd text ∷ trace }))
      × (read_char (replicate 100 0) gd (replying (pos (length text)) text other seen)
          ≡ done (pos (length text), text) (record { script = other; trace = read gd text ∷ seen }))
unfolding write_char read_char
read_char-write_char text fd gd k script other trace seen chars short taken =
    let sent = take-all k text taken in
    let came = take-all 100 text (omega arith) in
    let zeros : text ++ drop (length text) (replicate 100 0)
        ≡ text ++ 0 ∷ replicate (99 - length text) 0 =
      ap (◌++◌ text) (drop-replicate 99 (length text) (omega arith)) in
    (
      rw (until_nul-text text chars, sent),
      rw (came, zeros, c_string-append text (replicate (99 - length text) 0) chars),
    )

-- From an array that was not zeroed, what stood behind the text is printed with it.
read_char_junk :
    (text stale junk : List ℕ) (fd : ℤ) (script : List Reply) (trace : List Call)
    → All IsText text
    → length text ≤ 100
    → c_string (drop (length text) stale) ≡ some junk
    → read_char stale fd (replying (pos (length text)) text script trace)
      ≡ done
          (pos (length text), text ++ junk)
          (record { script = script; trace = read fd text ∷ trace })
unfolding read_char
read_char_junk text stale junk fd script trace chars short behind =
    let came = take-all 100 text short in
    rw (came, c_string-behind text (drop (length text) stale) chars behind)

-- A User is read as it was sent, whatever the array held before.
read_struct-write_struct :
    (u : User) (stale : List ℕ) (fd gd : ℤ) (k : ℕ) (script other : List Reply)
    (trace seen : List Call)
    → u.attr1 < 2 ^ 32
    → u.attr2 < 2 ^ 32
    → 9 ≤ k
    → (write_struct u fd (replying (pos k) [] script trace)
        ≡ done (pos 9) (record { script = script; trace = write fd (user_bytes u) ∷ trace }))
      × (read_struct stale gd (replying (pos 9) (user_bytes u) other seen)
          ≡ done (pos 9, u) (record { script = other; trace = read gd (user_bytes u) ∷ seen }))
unfolding write_struct read_struct
read_struct-write_struct u stale fd gd k script other trace seen h k32 taken =
    let sent = take-all k (user_bytes u) taken in
    (rw sent, rw (load_user-user_bytes u (drop 9 stale) h k32))

-- If the read fails, a User is printed all the same: the one that the array held before.
read_struct_stale :
    (u : User) (stale : List ℕ) (fd : ℤ) (k : ℕ) (script : List Reply) (trace : List Call)
    → load_user stale ≡ some u
    → read_struct stale fd (replying (negsuc k) [] script trace)
      ≡ done (negsuc k, u) (record { script = script; trace = read fd [] ∷ trace })
unfolding read_struct
read_struct_stale u stale fd k script trace held = rw held

read_structs-sent :
    (sent table last : List ℕ) (addresses : List Address) (fd : ℤ) (script : List Reply)
    (trace : List Call)
    → is_positive (pos (length sent)) ≡ true
    → take buffer_size sent ≡ sent
    → read_records (length sent) table (filled sent) (pos (length sent)) ≡ some (addresses, last)
    → read_structs table fd (replying (pos (length sent)) sent script trace)
      ≡ done
          (pos (length sent), addresses, last)
          (record { script = script; trace = read fd sent ∷ trace })
unfolding read_structs
read_structs-sent sent table last addresses fd script trace some_bytes whole records =
    rw (whole, some_bytes, records)

write_structs-sent :
    (sent : List ℕ) (addresses : List Address) (records : List (List ℕ)) (fd : ℤ) (k : ℕ)
    (script : List Reply) (trace : List Call)
    → fill_addresses addresses ≡ some records
    → pack_loop 10000 records [] ≡ some sent
    → take k sent ≡ sent
    → write_structs addresses fd (replying (pos k) [] script trace)
      ≡ done (pos (length sent)) (record { script = script; trace = write fd sent ∷ trace })
unfolding write_structs
write_structs-sent sent addresses records fd k script trace filled_all packed whole =
    rw (filled_all, packed, whole)

-- What a list of addresses is sent as: whoever sends it, and whoever reads it into an array.
abbrev pub IsSentAs : Address → List Address → List ℕ → Type 0
IsSentAs a addresses sent =
    (is_positive (pos (length sent)) ≡ true)
    × ((fd : ℤ) (k : ℕ) (script : List Reply) (trace : List Call)
        → 10000 ≤ k
        → write_structs (a ∷ addresses) fd (replying (pos k) [] script trace)
          ≡ done (pos (length sent)) (record { script = script; trace = write fd sent ∷ trace }))
    × ((old keep : List ℕ) (gd : ℤ) (other : List Reply) (seen : List Call)
        → length old ≡ 105
        → (last : List ℕ) × (read_structs (old ++ keep) gd
              (replying (pos (length sent)) sent other seen)
            ≡ done (pos (length sent), a ∷ addresses, last ++ keep)
                (record { script = other; trace = read gd sent ∷ seen }))
          × (load_address (last ++ keep) ≡ some (last_address a addresses)))

pub structs-IsSentAs :
    (a : Address) (addresses : List Address)
    → All IsFine (a ∷ addresses)
    → 109 * (length addresses + 1) ≤ 10000
    → (sent : List ℕ) × IsSentAs a addresses sent
structs-IsSentAs a addresses fine fits = from_records (fill_addresses-Records (a ∷ addresses) fine)
  where
    from_records :
        (r : (records : List (List ℕ)) × (fill_addresses (a ∷ addresses) ≡ some records)
          × Records (a ∷ addresses) records)
        → (sent : List ℕ) × IsSentAs a addresses sent
    from_records ([], filled_all, good) = absurd good
    from_records (bytes ∷ records, filled_all, good) =
        let sent = frames (bytes ∷ records) in
        let (sized, count) = length-Records (a ∷ addresses) (bytes ∷ records) good in
        let many : length records < length sent = omega (arith, sized, count) in
        (
          sent,
          (
            refl,
            λ fd k script trace taken.
                write_structs-sent sent (a ∷ addresses) (bytes ∷ records) fd k script trace
                  filled_all (pack_loop-frames 10000 (bytes ∷ records) [] (omega (arith, sized)))
                  (take-all k sent (omega (arith, sized))),
            λ old keep gd other seen size. (
              last_record bytes records,
              read_structs-sent sent (old ++ keep) (last_record bytes records ++ keep)
                  (a ∷ addresses) gd other seen refl
                  (take-all buffer_size sent (omega (arith, sized)))
                  (read_records-frames (length sent) a addresses bytes records old keep
                    (buffer_size - length sent) many size good),
              last_record-last_address a addresses bytes records keep good,
            ),
          ),
        )

-- Addresses whose texts fit, at least one, and at most 10000 bytes with their lengths: what
-- `write_structs` sends, `read_structs` prints, one by one. Every address goes to the first entry
-- of the array: in the end that holds the last one, and all other entries are as they were.
pub read_structs-write_structs :
    (a : Address) (addresses : List Address) (old keep : List ℕ) (fd gd : ℤ) (k : ℕ)
    (script other : List Reply) (trace seen : List Call)
    → All IsFine (a ∷ addresses)
    → length old ≡ 105
    → 109 * (length addresses + 1) ≤ 10000
    → 10000 ≤ k
    → (sent : List ℕ) × (last : List ℕ) × (write_structs
          (a ∷ addresses)
          fd
          (replying (pos k) [] script trace)
        ≡ done (pos (length sent)) (record { script = script; trace = write fd sent ∷ trace }))
      × (read_structs (old ++ keep) gd (replying (pos (length sent)) sent other seen)
          ≡ done
              (pos (length sent), a ∷ addresses, last ++ keep)
              (record { script = other; trace = read gd sent ∷ seen }))
      × (load_address (last ++ keep) ≡ some (last_address a addresses))
read_structs-write_structs a addresses old keep fd gd k script other trace seen fine size fits
      taken =
    let (sent, (some_bytes, sends, prints)) = structs-IsSentAs a addresses fine fits in
    let (last, printed, held) = prints old keep gd other seen size in
    (sent, last, sends fd k script trace taken, printed, held)
