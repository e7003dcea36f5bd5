-- ===== src/Examples/Loops.antt =====
-- The transfer loops of sample_io/test_file.cpp.
use test_server.Base.{inr, inl, refl, arith, false, true, ℕ, ◌≡◌, [], List, ◌∷◌}
use test_server.SafeIo.Collected.{readn_chunks, readn-Collects, bringing, Collects}
use test_server.SafeIo.Written.{writen_finishes, writen-Sends, Sends}
use test_server.SafeIo.{writen_loop, readn, writen}
use test_server.Base.Int.{ℤ, pos, minus_one}
use test_server.Os.{written, write, done, read, Os, Reply}

abbrev fd : ℤ
fd = pos 4

abbrev moves : ℤ → List ℕ → Reply
moves ret bytes = record { ret = ret; bytes = bytes; interrupted = false }

abbrev signal_arrives : Reply
signal_arrives = record { ret = minus_one; bytes = []; interrupted = true }

-- Two bytes, an interruption, and the rest.
abbrev slow : Os
slow = record { script = moves (pos 2) [] ∷ signal_arrives ∷ moves (pos 9) [] ∷ []; trace = [] }

writen-slow :
    writen fd (1 ∷ 2 ∷ 3 ∷ []) slow
    ≡ done (pos 3) (record {
      script = [];
      trace = write fd (3 ∷ []) ∷ write fd [] ∷ write fd (1 ∷ 2 ∷ []) ∷ [];
    })
unfolding writen writen_loop
writen-slow = refl

writen-Sends_example : Sends fd 3 [] (1 ∷ 2 ∷ 3 ∷ []) (writen fd (1 ∷ 2 ∷ 3 ∷ []) slow)
writen-Sends_example = writen-Sends fd (1 ∷ 2 ∷ 3 ∷ []) slow

abbrev steady : Os
steady = record { script = moves (pos 2) [] ∷ signal_arrives ∷ moves (pos 9) [] ∷ []; trace = [] }

writen_finishes_example :
    (after : Os) × (writen fd (1 ∷ 2 ∷ []) steady ≡ done (pos 2) after)
    × (written fd after.trace ≡ 1 ∷ 2 ∷ [])
writen_finishes_example =
    writen_finishes fd (1 ∷ 2 ∷ []) steady (inl refl, (inr (refl, refl), (inl refl, tt)))
      (omega arith)

readn-Collects_example : Collects fd 5 [] (readn fd 5 steady)
readn-Collects_example = readn-Collects fd 5 steady

readn_chunks_example :
    readn fd 3 (record { script = bringing ((1 ∷ 2 ∷ []) ∷ (3 ∷ []) ∷ []) []; trace = [] })
    ≡ done
        (pos 3, 1 ∷ 2 ∷ 3 ∷ [])
        (record { script = []; trace = read fd (3 ∷ []) ∷ read fd (1 ∷ 2 ∷ []) ∷ [] })
readn_chunks_example = readn_chunks fd ((1 ∷ 2 ∷ []) ∷ (3 ∷ []) ∷ []) [] [] (omega arith)
