-- ===== src/Examples/Records.antt =====
-- The transfers of socket_basic/server.cpp and client.cpp.
use test_server.Framing.Fuel.{read_records_enough}
use test_server.Framing.Exchange.{read_structs-write_structs}
use test_server.Os.{write, read, done}
use test_server.Base.Int.{pos}
use test_server.Framing.{int_size, fetch_from, fetch_length}
use test_server.Framing.Rows.{read_row, read_rows}
use test_server.Framing.StructTransfer.{read_structs, write_structs}
use test_server.Memory.{overwrite}
use test_server.Framing.Transfer.{filled, replying}
use test_server.Framing.Structs.{read_records, load_address, User, Address}
use test_server.Base.{some, arith, ◌++◌, refl, length, none, ◌≡◌, [], replicate, ◌∷◌, List, ℕ}

abbrev hi : List ℕ
hi = b'H' ∷ b'i' ∷ []

abbrev yes_text : List ℕ
yes_text = b'Y' ∷ []

abbrev both_sent : List ℕ
both_sent = 2 ∷ 0 ∷ 0 ∷ 0 ∷ b'H' ∷ b'i' ∷ 1 ∷ 0 ∷ 0 ∷ 0 ∷ b'Y' ∷ []

-- A length of 101 overruns a row.
row_overrun : read_rows 10 (record { bytes = 101 ∷ 0 ∷ 0 ∷ 0 ∷ []; tail = 200 }) (pos 4) ≡ none
unfolding read_rows read_row fetch_length fetch_from int_size overwrite
row_overrun = refl

-- The array still holds the end of an older text.
abbrev stale_array : List ℕ
stale_array = b'H' ∷ b'o' ∷ b'w' ∷ 0 ∷ replicate 96 0

abbrev server_user : User
server_user = record { attr1 = 100; attr2 = 200; attr3 = 1 }

abbrev first_address : Address
first_address = record { attr1 = 500; attr2 = hi; attr3 = 1 }

abbrev second_address : Address
second_address = record { attr1 = 501; attr2 = yes_text; attr3 = 1 }

read_structs-write_structs_example :
    (sent : List ℕ) × (last : List ℕ) × (write_structs
        (first_address ∷ second_address ∷ [])
        (pos 5)
        (replying (pos 10000) [] [] [])
      ≡ done (pos (length sent)) (record { script = []; trace = write (pos 5) sent ∷ [] }))
    × (read_structs
          (replicate 105 0 ++ replicate 105 7)
          (pos 6)
          (replying (pos (length sent)) sent [] [])
        ≡ done
            (pos (length sent), first_address ∷ second_address ∷ [], last ++ replicate 105 7)
            (record { script = []; trace = read (pos 6) sent ∷ [] }))
    × (load_address (last ++ replicate 105 7) ≡ some second_address)
read_structs-write_structs_example =
    read_structs-write_structs first_address (second_address ∷ []) (replicate 105 0)
      (replicate 105 7) (pos 5) (pos 6) 10000 [] [] [] [] (omega arith) (omega arith) (omega arith)
      (omega arith)

-- A record of no bytes, and another one.
read_records_enough_example :
    read_records 13 (replicate 105 0) (filled (0 ∷ 0 ∷ 0 ∷ 0 ∷ 0 ∷ 0 ∷ 0 ∷ 0 ∷ [])) (pos 8)
    ≡ read_records 8 (replicate 105 0) (filled (0 ∷ 0 ∷ 0 ∷ 0 ∷ 0 ∷ 0 ∷ 0 ∷ 0 ∷ [])) (pos 8)
read_records_enough_example =
    read_records_enough 7 5 (replicate 105 0) (filled (0 ∷ 0 ∷ 0 ∷ 0 ∷ 0 ∷ 0 ∷ 0 ∷ 0 ∷ [])) (pos 8)
      (omega arith)
