-- ===== src/Framing/Protobuf.antt =====
-- `write_protobuf` and `read_protobuf` of socket_basic/server.cpp and client.cpp, over the
-- generated message.
use test_server.Framing.Transfer.{replying, buffer_size}
use test_server.Base.Int.{pos, is_positive, minus_one, ℤ}
use test_server.Base.{
  ◌∙◌, refl, take-all, arith, true, ap, ◌∷◌, [], ◌≤◌, length, if◌then◌else◌, ◌<◌, ◌≡◌, none, some,
  ℕ, Option, List,
}
use test_server.Generated.{IsDocumented, TextMessage}
use test_server.Os.{write, read, done, write_call, Call, read_call, Reply, pure, Os, ◌>>=◌, M}

pub is_positive-length :
    (bytes : List ℕ) → 0 < length bytes → is_positive (pos (length bytes)) ≡ true
is_positive-length [] some_bytes = absurd (omega arith)
is_positive-length (b ∷ bytes) some_bytes = refl

module _ (message : TextMessage) where
  -- What is sent of a message that was serialized, or not.
  unfoldable pub write_serialized : Option (List ℕ) → ℤ → M ℤ
  write_serialized none fd = pure minus_one
  write_serialized (some bytes) fd = do (count, interrupted) ← write_call fd bytes; pure count

  -- write_protobuf(fd), for the text that the source sets.
  unfoldable pub write_protobuf : List ℕ → ℤ → M ℤ
  unfolding write_serialized
  write_protobuf text fd =
      write_serialized (message.serialize_to_array (message.set_text text message.fresh)) fd

  -- By what was parsed: the result, and the text that is printed.
  unfoldable pub parsed : ℤ → Option message.Message → ℤ × Option (List ℕ)
  parsed count none = (minus_one, none)
  parsed count (some msg) = (count, some (message.text msg))

  -- read_protobuf(fd)
  unfoldable pub read_protobuf : ℤ → M (ℤ × Option (List ℕ))
  unfolding parsed
  read_protobuf fd = do
    (count, bytes, interrupted) ← read_call fd buffer_size
    pure
        (if is_positive count then parsed count (message.parse_from_array bytes) else (count, none))

  -- A message that cannot be serialized is not sent, and one that cannot be parsed is not printed:
  -- both functions return -1 then, the first without a call of the system.
  pub protobuf_refused :
      (text bytes : List ℕ) (fd gd : ℤ) (os : Os) (script : List Reply) (trace : List Call)
      → message.serialize_to_array (message.set_text text message.fresh) ≡ none
      → message.parse_from_array bytes ≡ none
      → 0 < length bytes
      → length bytes ≤ buffer_size
      → (write_protobuf text fd os ≡ done minus_one os)
        × (read_protobuf gd (replying (pos (length bytes)) bytes script trace)
            ≡ done (minus_one, none) (record { script = script; trace = read gd bytes ∷ trace }))
  unfolding write_protobuf read_protobuf parsed
  protobuf_refused text bytes fd gd os script trace unsent unread some_bytes fits = (
    ap (λ o. write_serialized o fd os) unsent,
    rw (take-all buffer_size bytes fits, is_positive-length bytes some_bytes, unread) refl,
  )

  module _ (documented : IsDocumented message) where
    -- With a generated message that behaves as documented, what is sent for a text, if it
    -- serializes to at least one byte and to no more than the buffer of the reader holds, and the
    -- system takes and brings it whole, is printed as that text; both sides return the number of
    -- bytes.
    pub read_protobuf-write_protobuf :
        (text bytes : List ℕ) (fd gd : ℤ) (k : ℕ) (script other : List Reply)
        (trace seen : List Call)
        → message.serialize_to_array (message.set_text text message.fresh) ≡ some bytes
        → 0 < length bytes
        → length bytes ≤ buffer_size
        → length bytes ≤ k
        → (write_protobuf text fd (replying (pos k) [] script trace)
            ≡ done
                (pos (length bytes))
                (record { script = script; trace = write fd bytes ∷ trace }))
          × (read_protobuf gd (replying (pos (length bytes)) bytes other seen)
              ≡ done
                  (pos (length bytes), some text)
                  (record { script = other; trace = read gd bytes ∷ seen }))
    unfolding write_protobuf read_protobuf parsed
    read_protobuf-write_protobuf text bytes fd gd k script other trace seen made some_bytes fits
          taken =
        (
          ap (λ o. write_serialized o fd (replying (pos k) [] script trace)) made
              ∙ (unfold write_serialized in rw (take-all k bytes taken) refl),
          rw
              (
                take-all buffer_size bytes fits,
                is_positive-length bytes some_bytes,
                documented.parse-serialize (message.set_text text message.fresh) bytes made,
                documented.text-set_text text message.fresh,
              )
              refl,
        )
