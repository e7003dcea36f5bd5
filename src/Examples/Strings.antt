-- ===== src/Examples/Strings.antt =====
-- The string protocol, with the loops of sample_io/test_file.cpp in the place of the library's.
use test_server.Stream.Exchange.{read_string-write_strings, write_strings}
use test_server.Stream.Packets.{packets}
use test_server.Stream.Strings.{read_string}
use test_server.Stream.{buffer_length}
use test_server.Base.Int.{ℤ, pos}
use test_server.SafeIo.{received, readn_loop, readn}
use test_server.Memory.{until_nul}
use test_server.Base.{arith, refl, map, false, length, ◌∷◌, ◌≡◌, ℕ, [], List}
use test_server.Os.{write, written, M, done, read, Reply, Os}

abbrev yes : List ℕ
yes = b'Y' ∷ b'e' ∷ b's' ∷ []

abbrev no : List ℕ
no = b'N' ∷ b'o' ∷ []

abbrev says : ℤ → List ℕ → Reply
says ret bytes = record { ret = ret; bytes = bytes; interrupted = false }

-- Two packets in one piece, and then the end of the stream.
abbrev two_packets : Os
two_packets = record {
  script = says (pos 23) (packets (yes ∷ no ∷ [])) ∷ says (pos 0) [] ∷ [];
  trace = [];
}

abbrev both_read : Os
both_read = record {
  script = [];
  trace = read (pos 4) [] ∷ read (pos 4) (packets (yes ∷ no ∷ [])) ∷ [];
}

packets_arrive :
    readn (pos 4) buffer_length two_packets
    ≡ done (pos (length (packets (yes ∷ no ∷ []))), packets (yes ∷ no ∷ [])) both_read
unfolding readn readn_loop received until_nul
packets_arrive = refl

-- A library that sends everything at once.
abbrev sends_all : ℤ → List ℕ → M ℤ
sends_all fd bytes os =
    done (pos (length bytes)) (record { script = os.script; trace = write fd bytes ∷ os.trace })

read_string-write_strings_example :
    (end : Os) × (write_strings sends_all
        (yes ∷ no ∷ [])
        (pos 3)
        (record { script = []; trace = [] })
      ≡ done (pos 0) end)
    × (written (pos 3) end.trace ≡ packets (yes ∷ no ∷ []))
    × (read_string readn 4 (pos 4) two_packets
        ≡ done (pos 0, map until_nul (yes ∷ no ∷ [])) both_read)
unfolding until_nul
read_string-write_strings_example =
    read_string-write_strings sends_all readn (pos 3) (pos 4) yes (no ∷ [])
      (record { script = []; trace = [] }) two_packets both_read 2 (λ bytes os. refl) refl
      (omega arith, (omega arith, tt)) (omega arith) (omega arith) packets_arrive
