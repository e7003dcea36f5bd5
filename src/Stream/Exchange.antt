-- ===== src/Stream/Exchange.antt =====
-- Several messages that one side sends with `write_string`, and the other one reads with
-- `read_string`.
use test_server.Memory.{until_nul}
use test_server.Stream.Transfer.{read_string-packets, write_string-packet}
use test_server.Stream.{until_nul, buffer_length}
use test_server.Stream.Packets.{packets, IsSmall}
use test_server.Rpc.Packet.{packet}
use test_server.Os.{bind_outcome, ◌>>◌, done, written, write, pure, Os, M}
use test_server.Base.{
  refl, append_assoc, if◌then◌else◌, map, ap, suc, ◌∙◌, ◌<◌, append-nil, sym, ◌≤◌, length, ◌++◌, [],
  All, ◌≡◌, ◌∷◌, ℕ, List,
}
use test_server.Base.Int.{eq_ℤ-refl, pos, ℤ}
use test_server.Stream.Strings.{read_string, write_string}

-- A writen of the library that sends everything that it is given.
abbrev pub SendsAll : (ℤ → List ℕ → M ℤ) → ℤ → Type 0
SendsAll writen fd =
    (bytes : List ℕ) (os : Os)
    → writen fd bytes os
      ≡ done (pos (length bytes)) (record { script = os.script; trace = write fd bytes ∷ os.trace })

-- One message after the other.
unfoldable pub write_strings : (ℤ → List ℕ → M ℤ) → List (List ℕ) → ℤ → M ℤ
write_strings writen [] fd = pure (pos 0)
write_strings writen (msg ∷ msgs) fd = write_string writen msg fd >> write_strings writen msgs fd

-- The state after the last one.
abbrev sent_by : ℤ → List (List ℕ) → Os → Os
sent_by fd [] os = os
sent_by fd (msg ∷ msgs) os =
    sent_by fd msgs (record { script = os.script; trace = write fd (packet msg) ∷ os.trace })

write_strings-packets :
    (writen : ℤ → List ℕ → M ℤ) (fd : ℤ) (msgs : List (List ℕ)) (os : Os)
    → SendsAll writen fd
    → All IsSmall msgs
    → (write_strings writen msgs fd os ≡ done (pos 0) (sent_by fd msgs os))
      × (written fd (sent_by fd msgs os).trace ≡ written fd os.trace ++ packets msgs)
unfolding write_strings
write_strings-packets writen fd [] os sends small = (refl, sym (append-nil (written fd os.trace)))
write_strings-packets writen fd (msg ∷ msgs) os sends (here, rest) =
    let next : Os = record { script = os.script; trace = write fd (packet msg) ∷ os.trace } in
    let one : write_string writen msg fd os ≡ done (pos (length (packet msg))) next =
      write_string-packet writen msg fd os here ∙ sends (packet msg) os in
    let (ends, bytes) = write_strings-packets writen fd msgs next sends rest in
    (
      ap (λ o. bind_outcome o (λ _. write_strings writen msgs fd)) one ∙ ends,
      bytes
          ∙ (ap
                (λ b.
                  (if b then written fd os.trace ++ packet msg else written fd os.trace)
                  ++ packets msgs)
                (eq_ℤ-refl fd)
              ∙ append_assoc (written fd os.trace) (packet msg) (packets msgs)),
    )

-- If the library's writen sends all that it is given, messages that are not too long are sent as
-- their packets, one behind the other; and if its readn brings those bytes to the other side in one
-- piece, of at least one message and at most 1024 bytes, the reader prints the texts, each as far
-- as its first NUL, in the order in which they were sent, and returns 0, with two rounds more than
-- there are messages.
pub read_string-write_strings :
    (writen : ℤ → List ℕ → M ℤ) (readn : ℤ → ℕ → M (ℤ × List ℕ)) (fd gd : ℤ) (msg : List ℕ)
    (msgs : List (List ℕ)) (os other after : Os) (fuel : ℕ)
    → SendsAll writen fd
    → written fd os.trace ≡ []
    → All IsSmall (msg ∷ msgs)
    → length (packets (msg ∷ msgs)) ≤ buffer_length
    → length msgs < fuel
    → readn gd buffer_length other
      ≡ done (pos (length (packets (msg ∷ msgs))), packets (msg ∷ msgs)) after
    → (end : Os) × (write_strings writen (msg ∷ msgs) fd os ≡ done (pos 0) end)
      × (written fd end.trace ≡ packets (msg ∷ msgs))
      × (read_string readn (suc (suc fuel)) gd other
          ≡ done (pos 0, map until_nul (msg ∷ msgs)) after)
read_string-write_strings writen readn fd gd msg msgs os other after fuel sends fresh small fits
      enough brings =
    let (ends, bytes) = write_strings-packets writen fd (msg ∷ msgs) os sends small in
    (
      sent_by fd (msg ∷ msgs) os,
      ends,
      bytes ∙ ap (λ (l : List ℕ). l ++ packets (msg ∷ msgs)) fresh,
      read_string-packets readn fuel gd msg msgs other after small fits enough brings,
    )
