-- ===== src/Examples/Greeting.antt =====
-- The Greeter, and the protobuf transfer of socket_basic, over a message that is its text.
use test_server.Greeter.Server.{run_server-client_main, run_server, Grpc, ServesRegistered}
use test_server.Greeter.Arguments.{target_of_iff}
use test_server.Greeter.Service.{client_main-service_say_hello, answer_lines, serving}
use test_server.Greeter.{
  default_target, text_line, service_say_hello, RpcStatus, status_ok, option_name, client_main,
  connect_to, after_option, target_at, target_of,
}
use test_server.Base.{
  IsAbsent, ◌++◌, ◌↔◌, starts_with, find, some, ◌≡◌, refl, [], ◌∷◌, codes, ℕ, sym, List,
}
use test_server.Generated.{IsDocumented, TextMessage}

abbrev pub plain : TextMessage
plain = record {
  Message = List ℕ;
  fresh = [];
  set_text = λ t msg. t;
  text = λ msg. msg;
  serialize_to_array = λ msg. some msg;
  parse_from_array = λ bytes. some bytes;
}

pub plain-IsDocumented : IsDocumented plain
plain-IsDocumented = record {
  text-set_text = λ t msg. refl;
  parse-serialize = λ msg bytes e. sym e;
}

target_of_iff_example :
    (target_of (codes "client" ∷ codes "--target=box:1" ∷ []) ≡ connect_to (codes "box:1")) ↔ (
      (front : List ℕ) × (codes "--target=box:1" ≡ front ++ (option_name ++ b'=' ∷ codes "box:1"))
      × IsAbsent option_name front (option_name ++ b'=' ∷ codes "box:1"))
target_of_iff_example = target_of_iff (codes "client") (codes "--target=box:1") (codes "box:1") []

client_main-service_say_hello_example :
    client_main plain plain
      (serving plain plain plain-IsDocumented plain-IsDocumented (λ address. status_ok))
      (codes "client" ∷ codes "--target=box:1" ∷ [])
    ≡ answer_lines status_ok
unfolding target_of target_at after_option find starts_with
client_main-service_say_hello_example =
    client_main-service_say_hello plain plain plain-IsDocumented plain-IsDocumented
      (λ address. status_ok) (codes "client" ∷ codes "--target=box:1" ∷ []) (codes "box:1") refl

-- A machine on which one server can be started.
abbrev one_server : Grpc plain plain
one_server = record {
  Server = plain.Message → plain.Message → RpcStatus × plain.Message;
  build_and_start = λ address service. some service;
  handle = λ server. server;
}

one_server-ServesRegistered : ServesRegistered plain plain one_server
one_server-ServesRegistered = record {
  serves = λ address service server e. (let same : service ≡ server = cc in sym same);
}

run_server-client_main_example :
    client_main plain plain (λ address. service_say_hello plain plain) (codes "client" ∷ [])
    ≡ text_line (codes "Greeter received: Hello world") ∷ []
unfolding run_server target_of
run_server-client_main_example =
    run_server-client_main plain plain one_server plain-IsDocumented plain-IsDocumented
      one_server-ServesRegistered (service_say_hello plain plain) (codes "client" ∷ [])
      default_target (λ address. service_say_hello plain plain) refl refl refl
