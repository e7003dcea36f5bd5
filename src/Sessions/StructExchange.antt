-- ===== src/Sessions/StructExchange.antt =====
-- A test of the server and one of the client that send each other structs, over a connection that brings each side
-- what the other one has written.
use test_server.Framing.Exchange.{structs-IsSentAs, IsSentAs}
use test_server.Framing.StructTransfer.{read_structs, write_structs}
use test_server.Framing.Structs.{Address}
use test_server.Framing.StructsRoundTrip.{IsFine}
use test_server.Os.{done}
use test_server.Base.{◌≤◌, ◌∷◌, ◌≡◌, ◌+◌, ◌*◌, ◌++◌, length, All, List, ℕ, [], refl}
use test_server.Sessions.{thread_func, server_session, client_session}
use test_server.Sessions.Programs.{printing}
use test_server.Sessions.Exchange.{
  Sends, Prints, server_os, server_trace, client_os, client_trace, verdict_of, server_session-sent,
  client_session-sent,
}

IsSentAs-Sends :
    (a : Address) (addresses : List Address) (sent : List ℕ) (k : ℕ)
    → 10000 ≤ k
    → IsSentAs a addresses sent
    → Sends (write_structs (a ∷ addresses)) sent k
IsSentAs-Sends a addresses sent k taken (some_bytes, sends, prints) =
    λ fd script trace. sends fd k script trace taken

IsSentAs-Prints :
    (a : Address) (addresses : List Address) (sent old keep : List ℕ)
    → length old ≡ 105
    → IsSentAs a addresses sent
    → Prints (printing (read_structs (old ++ keep))) sent (a ∷ addresses)
IsSentAs-Prints a addresses sent old keep size (some_bytes, sends, prints) = λ fd script trace.
    let (last, read_all, held) = prints old keep fd script trace size in rw read_all refl

-- Comment.
pub structs_exchange :
    (a b : Address) (addresses others : List Address) (old keep old' keep' : List ℕ) (l c s k : ℕ)
    → All IsFine (a ∷ addresses)
    → 109 * (length addresses + 1) ≤ 10000
    → All IsFine (b ∷ others)
    → 109 * (length others + 1) ≤ 10000
    → length old ≡ 105
    → length old' ≡ 105
    → 10000 ≤ k
    → (sent : List ℕ) × (received : List ℕ) × (server_session
          (thread_func (write_structs (a ∷ addresses)) (printing (read_structs (old ++ keep))))
          (server_os l c k received)
        ≡ done
            (verdict_of (b ∷ others))
            (record { script = []; trace = server_trace l c sent received }))
      × (client_session
            (write_structs (b ∷ others))
            (printing (read_structs (old' ++ keep')))
            (client_os s k sent)
          ≡ done
              (verdict_of (a ∷ addresses))
              (record { script = []; trace = client_trace s received sent }))
structs_exchange a b addresses others old keep old' keep' l c s k fine fits fine' fits' size size'
      taken =
    let (sent, by_server) = structs-IsSentAs a addresses fine fits in
    let (received, by_client) = structs-IsSentAs b others fine' fits' in
    (
      sent,
      received,
      server_session-sent (write_structs (a ∷ addresses)) (printing (read_structs (old ++ keep))) k
          sent received (b ∷ others) (IsSentAs-Sends a addresses sent k taken by_server)
          (IsSentAs-Prints b others received old keep size by_client) l c by_server.0 by_client.0,
      client_session-sent (write_structs (b ∷ others)) (printing (read_structs (old' ++ keep'))) k
          received sent (a ∷ addresses) (IsSentAs-Sends b others received k taken by_client)
          (IsSentAs-Prints a addresses sent old' keep' size' by_server) s,
    )
