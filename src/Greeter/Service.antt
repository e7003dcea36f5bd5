-- ===== src/Greeter/Service.antt =====
-- The Greeter client and the Greeter service together.
use test_server.Base.{
  false, true, Bool, ◌∙◌, ap, refl, [], ◌++◌, ◌∷◌, codes, ◌≡◌, ◌==◌, ℕ, if◌then◌else◌, List,
}
use test_server.Generated.{IsDocumented, TextMessage}
use test_server.Greeter.{
  run_target, status_line, connect_to, target_of, text_line, client_say_hello, client_main,
  service_say_hello, RpcStatus, Line,
}

-- What the client prints when an RPC comes back with this status.
abbrev pub answer_lines : RpcStatus → List Line
answer_lines status =
    if status.code == 0
    then text_line (codes "Greeter received: Hello world") ∷ []
    else status_line status.code status.message
      ∷ text_line (codes "Greeter received: RPC failed")
      ∷ []

module _ (request reply : TextMessage) (asked : IsDocumented request)
    (told : IsDocumented reply) where
  -- The reply of the service holds the name of the request behind "Hello ".
  text-service_say_hello :
      (name : List ℕ) (msg : request.Message) (answer : reply.Message)
      → reply.text (service_say_hello request reply (request.set_text name msg) answer).1
        ≡ codes "Hello " ++ name
  unfolding service_say_hello
  text-service_say_hello name msg answer = rw (told.text-set_text, asked.text-set_text) refl

  -- A channel that runs the service for every call and may add a status of its own.
  abbrev pub serving :
      (List ℕ → RpcStatus) → List ℕ → request.Message → reply.Message → RpcStatus × reply.Message
  serving status address msg answer =
      (status address, (service_say_hello request reply msg answer).1)

  -- What the client makes of its call.
  abbrev said : RpcStatus → List ℕ → Bool → List Line × List ℕ
  said status name fine =
      if fine
      then ([], codes "Hello " ++ name)
      else (status_line status.code status.message ∷ [], codes "RPC failed")

  client_say_hello-serving :
      (status : List ℕ → RpcStatus) (address name : List ℕ)
      → client_say_hello request reply (serving status address) name
        ≡ said (status address) name ((status address).code == 0)
  unfolding client_say_hello
  client_say_hello-serving status address name =
      ap
        (λ (text : List ℕ). if (status address).code == 0 then ([], text) else (
          status_line (status address).code (status address).message ∷ [],
          codes "RPC failed",
        ))
        (text-service_say_hello name request.fresh reply.fresh)

  -- Without an argument, or with a target, the client asks the service at that address and prints
  -- its greeting or the failure; nothing else is printed.
  pub client_main-service_say_hello :
      (status : List ℕ → RpcStatus) (argv : List (List ℕ)) (address : List ℕ)
      → target_of argv ≡ connect_to address
      → client_main request reply (serving status) argv ≡ answer_lines (status address)
  unfolding client_main run_target
  client_main-service_say_hello status argv address h =
      ap (run_target request reply (serving status)) h
      ∙ (ap (λ (lines, answer). lines ++ text_line (codes "Greeter received: " ++ answer) ∷ [])
            (client_say_hello-serving status address (codes "world"))
          ∙ lines_of (status address) ((status address).code == 0))
    where
      lines_of :
          (answered : RpcStatus) (fine : Bool)
          → (said answered (codes "world") fine).0
              ++ text_line (codes "Greeter received: " ++ (said answered (codes "world") fine).1)
                ∷ []
            ≡ (if fine
                then text_line (codes "Greeter received: Hello world") ∷ []
                else status_line answered.code answered.message
                  ∷ text_line (codes "Greeter received: RPC failed")
                  ∷ [])
      lines_of answered true = refl
      lines_of answered false = refl
