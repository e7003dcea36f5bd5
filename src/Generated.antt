-- ===== src/Generated.antt =====
-- What protoc generates for a message with one text field, such as HelloRequest of
-- socket_basic/proto/helloworld.proto: the code is not part of the repository, and a parameter.
use test_server.Base.{some, ◌≡◌, Option, ℕ, List}

pub record TextMessage : Type 1 where
  pub Message : Type 0
  pub fresh : Message
  pub set_text : List ℕ → Message → Message
  pub text : Message → List ℕ
  -- SerializeToArray into an array of ByteSizeLong bytes, and ParseFromArray; `none` is false.
  pub serialize_to_array : Message → Option (List ℕ)
  pub parse_from_array : List ℕ → Option Message

-- What its documentation says: a field holds what was set, and a message is read back from the
-- bytes that were made of it.
pub record IsDocumented (m : TextMessage) : Type 0 where
  pub text-set_text : (t : List ℕ) (msg : m.Message) → m.text (m.set_text t msg) ≡ t
  pub parse-serialize :
      (msg : m.Message) (bytes : List ℕ)
      → m.serialize_to_array msg ≡ some bytes
      → m.parse_from_array bytes ≡ some msg
