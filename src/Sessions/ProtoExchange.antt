-- ===== src/Sessions/ProtoExchange.antt =====
-- The tests PROTO of the server and of the client together: the client writes first, and the server
-- reads first.
use test_server.Framing.Protobuf.{
  is_positive-length, read_protobuf-write_protobuf, read_protobuf, write_protobuf,
}
use test_server.Framing.Transfer.{buffer_size}
use test_server.Sockets.{accept_socket, sample_listen, listen_socket}
use test_server.Sessions.Exchange.{
  client_session-sent, client_trace, client_os, verdict_of, replies, Prints, Sends,
}
use test_server.Os.{socket, setsockopt, bind, done, listen, accept, read, write, close, Os, Call, M}
use test_server.Base.{arith, refl, true, [], false, ◌∷◌, ◌≤◌, length, suc, ◌<◌, some, ◌≡◌, List, ℕ}
use test_server.Generated.{IsDocumented, TextMessage}
use test_server.Base.Int.{is_positive, pos, ℤ}
use test_server.Sessions.{
  client_session, accept_socket, listen_socket, answer_func, server_session, M, ℤ, ℕ,
}

-- The system of the server: the listener is l + 1, the connection c + 1.
abbrev pub answer_os : ℕ → ℕ → ℕ → List ℕ → Os
answer_os l c k received = record {
  script =
      replies (pos (suc l))
      ∷ replies (pos 0)
      ∷ replies (pos 0)
      ∷ replies (pos 0)
      ∷ replies (pos (suc c))
      ∷ record { ret = pos (length received); bytes = received; interrupted = false }
      ∷ replies (pos k)
      ∷ replies (pos 0)
      ∷ replies (pos 0)
      ∷ [];
  trace = [];
}

abbrev pub answer_trace : ℕ → ℕ → List ℕ → List ℕ → List Call
answer_trace l c sent received =
    close (pos (suc l))
    ∷ close (pos (suc c))
    ∷ write (pos (suc c)) sent
    ∷ read (pos (suc c)) received
    ∷ accept (pos (suc l)) (pos (suc c))
    ∷ listen (pos (suc l)) 5
    ∷ bind (pos (suc l)) 55555
    ∷ setsockopt (pos (suc l))
    ∷ socket (pos (suc l))
    ∷ []

module _ {P : Type 0} (write_message : ℤ → M ℤ) (read_message : ℤ → M (ℤ × P)) (k : ℕ)
    (sent received : List ℕ) (seen : P) (sends : Sends write_message sent k)
    (prints : Prints read_message received seen) where
  answer_session-sent :
      (l c : ℕ)
      → is_positive (pos (length sent)) ≡ true
      → is_positive (pos (length received)) ≡ true
      → server_session (answer_func write_message read_message) (answer_os l c k received)
        ≡ done (verdict_of seen) (record { script = []; trace = answer_trace l c sent received })
  unfolding server_session answer_func listen_socket sample_listen accept_socket
  answer_session-sent l c some_sent some_received =
      rw (prints, some_received, sends, some_sent) refl

module _ (request reply : TextMessage) (asked : IsDocumented request)
    (told : IsDocumented reply) where
  -- With generated messages that behave as documented, if both serialize, to at least one byte and
  -- no more than the buffer of the reader, and the system takes and brings them whole, the server
  -- prints the text that the client has sent, the client the one of the server's reply, both tests
  -- pass, and both close all that they have opened.
  pub proto_exchange :
      (name address asking telling : List ℕ) (l c s k : ℕ)
      → request.serialize_to_array (request.set_text name request.fresh) ≡ some asking
      → reply.serialize_to_array (reply.set_text address reply.fresh) ≡ some telling
      → 0 < length asking
      → length asking ≤ buffer_size
      → 0 < length telling
      → length telling ≤ buffer_size
      → buffer_size ≤ k
      → (server_session
            (answer_func (write_protobuf reply address) (read_protobuf request))
            (answer_os l c k asking)
          ≡ done
              (verdict_of (some name))
              (record { script = []; trace = answer_trace l c telling asking }))
        × (client_session
              (write_protobuf request name)
              (read_protobuf reply)
              (client_os s k telling)
            ≡ done
                (verdict_of (some address))
                (record { script = []; trace = client_trace s asking telling }))
  proto_exchange name address asking telling l c s k made made' some_asking fits some_telling fits'
        taken =
      (
        answer_session-sent (write_protobuf reply address) (read_protobuf request) k telling asking
            (some name)
            (λ fd script trace.
              (read_protobuf-write_protobuf reply told address telling fd fd k script [] trace []
                made' some_telling fits' (omega arith)).0)
            (λ fd script trace.
              (read_protobuf-write_protobuf request asked name asking fd fd k [] script [] trace
                made some_asking fits (omega arith)).1)
            l c (is_positive-length telling some_telling) (is_positive-length asking some_asking),
        client_session-sent (write_protobuf request name) (read_protobuf reply) k asking telling
            (some address)
            (λ fd script trace.
              (read_protobuf-write_protobuf request asked name asking fd fd k script [] trace []
                made some_asking fits (omega arith)).0)
            (λ fd script trace.
              (read_protobuf-write_protobuf reply told address telling fd fd k [] script [] trace
                made' some_telling fits' (omega arith)).1)
            s,
      )
