-- ===== src/Sessions/Exchange.antt =====
-- A test of the server and one of the client, over a connection that brings each side what the
-- other one has written.
use test_server.Framing.Laws.{frames}
use test_server.Sockets.{accept_socket, sample_listen, listen_socket, one_connect}
use test_server.Framing.RowsRoundTrip.{IsRowText}
use test_server.Framing.Transfer.{read_chars-write_chars, read_chars, write_chars, replying}
use test_server.Os.{
  setsockopt, bind, socket, listen, connect, accept, read, write, done, close, Reply, Os, Call, M,
}
use test_server.Base.{
  arith, refl, ◌≤◌, ◌∷◌, ◌≡◌, false, suc, ◌<◌, [], length, All, some, List, ℕ, true,
}
use test_server.Base.Int.{is_positive, pos, ℤ}
use test_server.Sessions.{thread_func, server_session, client_session, Verdict}

-- A system that takes `sent` whole, up to `k` bytes.
abbrev pub Sends : (ℤ → M ℤ) → List ℕ → ℕ → Type 0
Sends write_message sent k =
    (fd : ℤ) (script : List Reply) (trace : List Call)
    → write_message fd (replying (pos k) [] script trace)
      ≡ done (pos (length sent)) (record { script = script; trace = write fd sent ∷ trace })

-- What is printed of a read that brings `sent`.
abbrev pub Prints : {P : Type 0} → (ℤ → M (ℤ × P)) → List ℕ → P → Type 0
Prints read_message sent seen =
    (fd : ℤ) (script : List Reply) (trace : List Call)
    → read_message fd (replying (pos (length sent)) sent script trace)
      ≡ done (pos (length sent), seen) (record { script = script; trace = read fd sent ∷ trace })

abbrev pub replies : ℤ → Reply
replies ret = record { ret = ret; bytes = []; interrupted = false }

-- The system of the server: the listener is l + 1, the connection c + 1.
abbrev pub server_os : ℕ → ℕ → ℕ → List ℕ → Os
server_os l c k received = record {
  script =
      replies (pos (suc l))
      ∷ replies (pos 0)
      ∷ replies (pos 0)
      ∷ replies (pos 0)
      ∷ replies (pos (suc c))
      ∷ replies (pos k)
      ∷ record { ret = pos (length received); bytes = received; interrupted = false }
      ∷ replies (pos 0)
      ∷ replies (pos 0)
      ∷ [];
  trace = [];
}

abbrev pub server_trace : ℕ → ℕ → List ℕ → List ℕ → List Call
server_trace l c sent received =
    close (pos (suc l))
    ∷ close (pos (suc c))
    ∷ read (pos (suc c)) received
    ∷ write (pos (suc c)) sent
    ∷ accept (pos (suc l)) (pos (suc c))
    ∷ listen (pos (suc l)) 5
    ∷ bind (pos (suc l)) 55555
    ∷ setsockopt (pos (suc l))
    ∷ socket (pos (suc l))
    ∷ []

-- The system of the client, whose socket is s + 1.
abbrev pub client_os : ℕ → ℕ → List ℕ → Os
client_os s k received = record {
  script =
      replies (pos (suc s))
      ∷ replies (pos 0)
      ∷ replies (pos k)
      ∷ record { ret = pos (length received); bytes = received; interrupted = false }
      ∷ replies (pos 0)
      ∷ [];
  trace = [];
}

abbrev pub client_trace : ℕ → List ℕ → List ℕ → List Call
client_trace s sent received =
    close (pos (suc s))
    ∷ read (pos (suc s)) received
    ∷ write (pos (suc s)) sent
    ∷ connect (pos (suc s)) 55555
    ∷ socket (pos (suc s))
    ∷ []

abbrev pub verdict_of : {P : Type 0} → P → Verdict P
verdict_of seen = record { passed = true; printed = some seen }

module _ {P : Type 0} (write_message : ℤ → M ℤ) (read_message : ℤ → M (ℤ × P)) (k : ℕ)
    (sent received : List ℕ) (seen : P) (sends : Sends write_message sent k)
    (prints : Prints read_message received seen) where
  pub server_session-sent :
      (l c : ℕ)
      → is_positive (pos (length sent)) ≡ true
      → is_positive (pos (length received)) ≡ true
      → server_session (thread_func write_message read_message) (server_os l c k received)
        ≡ done (verdict_of seen) (record { script = []; trace = server_trace l c sent received })
  unfolding server_session thread_func listen_socket sample_listen accept_socket
  server_session-sent l c some_sent some_received =
      rw (sends, some_sent, prints, some_received) refl

  pub client_session-sent :
      (s : ℕ)
      → client_session write_message read_message (client_os s k received)
        ≡ done (verdict_of seen) (record { script = []; trace = client_trace s sent received })
  unfolding client_session one_connect
  client_session-sent s = rw (sends, prints) refl

-- Texts of at most 99 characters, at least one and at most ten on each side, and at most 1000 bytes
-- of frames: if the system takes and brings what both write, both tests pass, each prints the
-- other's texts, and both close all that they have opened.
pub chars_exchange :
    (text other : List ℕ) (texts others : List (List ℕ)) (l c s k : ℕ)
    → length texts < 10
    → All IsRowText (text ∷ texts)
    → length (frames (text ∷ texts)) ≤ 1000
    → length others < 10
    → All IsRowText (other ∷ others)
    → length (frames (other ∷ others)) ≤ 1000
    → 1000 ≤ k
    → let sent = frames (text ∷ texts) in
      let received = frames (other ∷ others) in
      (server_session
          (thread_func (write_chars (text ∷ texts)) read_chars)
          (server_os l c k received)
        ≡ done
            (verdict_of (other ∷ others))
            (record { script = []; trace = server_trace l c sent received }))
      × (client_session (write_chars (other ∷ others)) read_chars (client_os s k sent)
          ≡ done
              (verdict_of (text ∷ texts))
              (record { script = []; trace = client_trace s received sent }))
chars_exchange text other texts others l c s k few fine fits few' fine' fits' taken = (
  server_session-sent (write_chars (text ∷ texts)) read_chars k (frames (text ∷ texts))
      (frames (other ∷ others)) (other ∷ others)
      (λ fd script trace.
        (read_chars-write_chars text texts fd fd k script [] trace [] few fine fits
          (omega arith)).0)
      (λ fd script trace.
        (read_chars-write_chars other others fd fd k [] script [] trace few' fine' fits'
          (omega arith)).1)
      l c refl refl,
  client_session-sent (write_chars (other ∷ others)) read_chars k (frames (other ∷ others))
      (frames (text ∷ texts)) (text ∷ texts)
      (λ fd script trace.
        (read_chars-write_chars other others fd fd k script [] trace [] few' fine' fits'
          (omega arith)).0)
      (λ fd script trace.
        (read_chars-write_chars text texts fd fd k [] script [] trace few fine fits
          (omega arith)).1)
      s,
)
