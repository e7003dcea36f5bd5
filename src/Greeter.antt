-- ===== src/Greeter.antt =====
-- proto_test/helloworld_client.cpp and the service of proto_test/helloworld_server.cpp. The
-- generated messages and the RPC itself are parameters.
pub mod Arguments
pub mod Service
pub mod Server
use test_server.Base.{
  Option, length, ◌+◌, drop, none, some, ◌==◌, ◌∷◌, ◌++◌, if◌then◌else◌, starts_with, ℕ, [], find,
  codes, List,
}
use test_server.Generated.{TextMessage}

-- A line on the standard output: a text, or a status' code, ": " and its message.
pub data Line : Type 0 where
  text_line : List ℕ → Line
  status_line : ℕ → List ℕ → Line

-- What main makes of its arguments: an address, or a line to print before it ends.
pub data Target : Type 0 where
  connect_to : List ℕ → Target
  usage : List ℕ → Target

abbrev pub option_name : List ℕ
option_name = codes "--target"

abbrev pub default_target : List ℕ
default_target = codes "localhost:50051"

-- arg_val[start_pos], which is a NUL at the end of the text, and substr(start_pos + 1).
unfoldable pub after_option : List ℕ → Target
after_option [] = usage (codes "The only correct argument syntax is --target=")
after_option (b ∷ text) =
    if b == b'='
    then connect_to text
    else usage (codes "The only correct argument syntax is --target=")

-- By where the option was found in the argument.
unfoldable pub target_at : List ℕ → Option ℕ → Target
unfolding after_option
target_at arg_val none = usage (codes "The only acceptable argument is --target=")
target_at arg_val (some start_pos) = after_option (drop (start_pos + length option_name) arg_val)

unfoldable pub target_of : List (List ℕ) → Target
unfolding target_at find starts_with
target_of (program ∷ arg_val ∷ more) = target_at arg_val (find option_name arg_val)
target_of _ = connect_to default_target

-- grpc::Status, as far as it is looked at.
pub record RpcStatus : Type 0 where
  pub code : ℕ
  pub message : List ℕ

abbrev pub status_ok : RpcStatus
status_ok = record { code = 0; message = [] }

module _ (request reply : TextMessage) where
  -- GreeterServiceImpl::SayHello: the status, and the reply.
  unfoldable pub service_say_hello : request.Message → reply.Message → RpcStatus × reply.Message
  service_say_hello asked answer =
      (status_ok, reply.set_text (codes "Hello " ++ request.text asked) answer)

  -- GreeterClient::SayHello, over stub_->SayHello: what it prints, and what it returns.
  unfoldable pub client_say_hello :
      (request.Message → reply.Message → RpcStatus × reply.Message) → List ℕ → List Line × List ℕ
  client_say_hello stub user =
      let (status, answer) = stub (request.set_text user request.fresh) reply.fresh in
      if status.code == 0
      then ([], reply.text answer)
      else (status_line status.code status.message ∷ [], codes "RPC failed")

  -- What main prints for a target. A channel to an address gives the stub.
  unfoldable pub run_target :
      (List ℕ → request.Message → reply.Message → RpcStatus × reply.Message) → Target → List Line
  unfolding client_say_hello
  run_target channel (usage line) = text_line line ∷ []
  run_target channel (connect_to address) =
      let (printed, answer) = client_say_hello (channel address) (codes "world") in
      printed ++ text_line (codes "Greeter received: " ++ answer) ∷ []

  -- main(argc, argv): the lines that are printed.
  unfoldable pub client_main :
      (List ℕ → request.Message → reply.Message → RpcStatus × reply.Message)
      → List (List ℕ)
      → List Line
  unfolding run_target target_of
  client_main channel argv = run_target channel (target_of argv)
