-- ===== src/Rpc/Parsing.antt =====
-- What the two `Parse` functions read, on packets and on any buffer.
use test_server.Base.{
  ℕ, ◌+◌, ◌≤◌, List, [], ◌∷◌, ◌++◌, some, ◌≡◌, ◌⊎◌, arith, length, All, ltb, inl, inr, Option-cases,
  append_assoc, drop, subst, Bool-cases, sym, some-pair,
}
use test_server.Base.Int.{ℤ, pos, negsuc, minus_one}
use test_server.Memory.{◌>>=◌, load_u32, until_nul, strlen, c_string, IsText}
use test_server.Memory.Laws.{c_string-append, c_string-IsText, until_nul-IsText}
use test_server.Rpc.{
  Message, magic_number, maximum_packet_length, load_message, parse, parse_into, serialize,
  get_message_length,
}
use test_server.Rpc.Packet.{packet, serialize-packet}
use test_server.Rpc.Length.{packet_magic, packet_size, get_message_length-packet}

load_message-packet :
    (msg rest : List ℕ)
    → strlen msg + 9 ≤ maximum_packet_length
    → load_message (packet msg ++ rest)
      ≡ some (record { magic = magic_number; length = 9 + strlen msg; msg = until_nul msg })
unfolding load_message
load_message-packet msg rest fits =
    let text : c_string ((until_nul msg ++ 0 ∷ []) ++ rest) ≡ some (until_nul msg) =
      rw (append_assoc (until_nul msg) (0 ∷ []) rest)
        (c_string-append (until_nul msg) rest (until_nul-IsText msg)) in
    rw (packet_magic msg rest, packet_size msg rest fits, text)

-- A packet's text is read back, whatever length is given to the first `Parse`.
pub parse-packet :
    (msg rest : List ℕ) (n : ℕ)
    → strlen msg + 9 ≤ maximum_packet_length
    → parse (packet msg ++ rest) n ≡ some (until_nul msg)
unfolding parse
parse-packet msg rest n fits = rw (load_message-packet msg rest fits)

-- The second `Parse` reads it back if it is told of at least the packet's length.
pub parse_into-packet :
    (msg rest old : List ℕ) (n : ℕ)
    → strlen msg + 9 ≤ maximum_packet_length
    → 9 + strlen msg ≤ n
    → parse_into (packet msg ++ rest) n old ≡ some (pos 0, until_nul msg)
unfolding parse_into
parse_into-packet msg rest old n fits room = rw (load_message-packet msg rest fits) (ground arith)

-- What `Serialize` wrote, of a message that it does not refuse, has the length that it returned,
-- and both `Parse` functions read the text from it: the message as far as its first NUL.
pub parse-serialize :
    (msg buffer rest old : List ℕ)
    → strlen msg + 9 ≤ maximum_packet_length
    → length buffer ≡ 9 + strlen msg
    → (written : List ℕ) × (n : ℕ) × (serialize (buffer ++ rest) msg ≡ some (written, n))
      × (get_message_length written n ≡ some (pos n))
      × (parse written n ≡ some (until_nul msg))
      × (parse_into written n old ≡ some (pos 0, until_nul msg))
parse-serialize msg buffer rest old fits size = (
  packet msg ++ rest,
  9 + strlen msg,
  serialize-packet msg buffer rest fits size,
  get_message_length-packet msg rest (9 + strlen msg) fits (omega arith),
  parse-packet msg rest (9 + strlen msg) fits,
  parse_into-packet msg rest old (9 + strlen msg) fits (omega arith),
)

load_message-IsText :
    (buffer : List ℕ) {message : Message}
    → load_message buffer ≡ some message
    → All IsText message.msg
unfolding load_message
load_message-IsText buffer {message} h = elim (Option-cases (load_u32 0 buffer)) [
  | inl out ↦ absurd (ground arith)
  | inr (magic, first) ↦ elim (Option-cases (load_u32 4 buffer)) [
    | inl out ↦ absurd (ground arith)
    | inr (size, second) ↦ elim (Option-cases (c_string (drop 8 buffer))) [
      | inl out ↦ absurd (ground arith)
      | inr (text, third) ↦
          let e : text ≡ message.msg = ground arith in
          subst (All IsText) e (c_string-IsText (drop 8 buffer) third)
    ]
  ]
]

-- On any buffer the second `Parse` either succeeds, with a text without NUL that is no longer than
-- the length it was given, or answers -1 or -2 and leaves `msg` as it was.
pub parse_into_cases :
    (buffer old : List ℕ) (n : ℕ) {r : ℤ} {msg : List ℕ}
    → parse_into buffer n old ≡ some (r, msg)
    → ((r ≡ pos 0) × (length msg ≤ n) × All IsText msg)
      ⊎ (((r ≡ minus_one) ⊎ (r ≡ negsuc 1)) × (msg ≡ old))
unfolding parse_into
parse_into_cases buffer old n {r} {msg} h = elim (Option-cases (load_message buffer)) [
  | inl out ↦ absurd (cc (rw (parse_into, out) at h))
  | inr (message, found) ↦ elim (Bool-cases (ltb n message.length)) [
    | inl long ↦
        let (er, em) = some-pair (rw (parse_into, found, ◌>>=◌, long) at h) in
        inr (inl (sym er), sym em)
    | inr right ↦ elim (Bool-cases (ltb n (length message.msg))) [
      | inl long ↦
          let (er, em) = some-pair (rw (parse_into, found, ◌>>=◌, right, long) at h) in
          inr (inr (sym er), sym em)
      | inr fits ↦
          let (er, em) = some-pair (rw (parse_into, found, ◌>>=◌, right, fits) at h) in
          inl (
            sym er,
            rw (← em) (ground arith),
            subst (All IsText) em (load_message-IsText buffer found),
          )
    ]
  ]
]
