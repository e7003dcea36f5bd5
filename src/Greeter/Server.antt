-- ===== src/Greeter/Server.antt =====
-- RunServer of proto_test/helloworld_server.cpp, and the client against the server that it starts.
use test_server.Greeter.Service.{client_main-service_say_hello, serving}
use test_server.Base.{sym, ◌∙◌, [], ◌∷◌, ap, ◌++◌, none, codes, some, ◌≡◌, ℕ, Option, List}
use test_server.Generated.{IsDocumented, TextMessage}
use test_server.Greeter.{
  status_ok, connect_to, target_of, run_target, client_say_hello, text_line, client_main, RpcStatus,
  service_say_hello, List, TextMessage, Line,
}

-- The server side of gRPC. BuildAndStart gives a null pointer, here `none`, if the server cannot be
-- started, such as where the port is taken; `handle` runs what a server was given for a call.
pub record Grpc (request reply : TextMessage) : Type 1 where
  pub Server : Type 0
  pub build_and_start :
      List ℕ → (request.Message → reply.Message → RpcStatus × reply.Message) → Option Server
  pub handle : Server → request.Message → reply.Message → RpcStatus × reply.Message

-- What is documented: a server that was started runs the service that was registered.
pub record ServesRegistered (request reply : TextMessage) (grpc : Grpc request reply) : Type 0 where
  pub serves :
      (address : List ℕ) (service : request.Message → reply.Message → RpcStatus × reply.Message)
      (server : grpc.Server)
      → grpc.build_and_start address service ≡ some server
      → grpc.handle server ≡ service

abbrev pub server_address : List ℕ
server_address = codes "0.0.0.0:50051"

-- How RunServer goes on: it waits for a server, or follows a null pointer.
pub data Running (Server : Type 0) : Type 0 where
  waits : Server → Running Server
  crashes : Running Server

-- What the client prints of an answer.
abbrev answered :
    (request reply : TextMessage)
    → (request.Message → reply.Message → RpcStatus × reply.Message)
    → List Line
answered request reply stub =
    let (printed, answer) = client_say_hello request reply stub (codes "world") in
    printed ++ text_line (codes "Greeter received: " ++ answer) ∷ []

module _ (request reply : TextMessage) (grpc : Grpc request reply) where
  abbrev pub waiting : Option grpc.Server → Running grpc.Server
  waiting none = crashes
  waiting (some server) = waits server

  -- RunServer(), which is all of main: the line that it prints, and then server->Wait().
  unfoldable pub run_server : List Line × Running grpc.Server
  unfolding service_say_hello
  run_server = (
    text_line (codes "Server listening on " ++ server_address) ∷ [],
    waiting (grpc.build_and_start server_address (service_say_hello request reply)),
  )

  module _ (asked : IsDocumented request) (told : IsDocumented reply)
      (registered : ServesRegistered request reply grpc) where
    started_by :
        (made : Option grpc.Server) (server : grpc.Server)
        → waiting made ≡ waits server
        → made ≡ some server
    started_by none server e = absurd (cc)
    started_by (some made) server e = let same : made ≡ server = cc in ap some same

    -- If RunServer comes to wait for a server, which runs what was registered, then the client,
    -- with messages that behave as documented and over a channel that reaches that server at the
    -- address that its arguments name, prints the greeting.
    pub run_server-client_main :
        (server : grpc.Server) (argv : List (List ℕ)) (address : List ℕ)
        (channel : List ℕ → request.Message → reply.Message → RpcStatus × reply.Message)
        → run_server.1 ≡ waits server
        → target_of argv ≡ connect_to address
        → channel address ≡ grpc.handle server
        → client_main request reply channel argv
          ≡ text_line (codes "Greeter received: Hello world") ∷ []
    unfolding run_server client_main run_target service_say_hello
    run_server-client_main server argv address channel started target reached =
        let made : grpc.build_and_start server_address (service_say_hello request reply)
            ≡ some server =
          started_by (grpc.build_and_start server_address (service_say_hello request reply)) server
            started in
        let stub : channel address ≡ service_say_hello request reply =
          reached
          ∙ registered.serves server_address (service_say_hello request reply) server made in
        let fine : List ℕ → RpcStatus = λ there. status_ok in
        ap (run_target request reply channel) target
        ∙ (ap (answered request reply) stub
            ∙ (sym (ap (run_target request reply (serving request reply asked told fine)) target)
                ∙ client_main-service_say_hello request reply asked told fine argv address target))
