-- ===== src/Examples/Polling.antt =====
-- The clients, the select server and the echo server.
use test_server.Select.Refine.{table_run-Represents, bag_run, goes, comes, table_run, Represents}
use test_server.Clients.Endings.{select_client-Fails}
use test_server.Base.Int.{minus_one, pos}
use test_server.Echo.Bounds.{echo_main-Bounded, Bounded}
use test_server.Clients.Closing.{epoll_client-Closes, Closes}
use test_server.Select.Undefined.{select_accept-Idle, Idle}
use test_server.Echo.{echo_main}
use test_server.Base.{refl, inl, replicate, ◌∷◌, [], ◌≡◌}
use test_server.Examples.Callbacks.{
  receives-IsFuelled, receives-IsNeutral, sends-IsNeutral, receives, hello, sends, says,
}
use test_server.Os.Safe.{Safe}
use test_server.Select.{select_accept}
use test_server.Os.Post.{Post}
use test_server.Clients.{epoll_client, select_client}
use test_server.Sockets.Ledger.{open_fds}
use test_server.Os.{socket, Os}

-- The socket is 3; epoll_create gives 5, and epoll_wait is idle once.
abbrev polled : Os
polled = record {
  script =
      says (pos 5) []
      ∷ says (pos 0) []
      ∷ says (pos 3) []
      ∷ says (pos 0) []
      ∷ says (pos 1) []
      ∷ says (pos 3) hello
      ∷ says (pos 0) []
      ∷ says (pos 0) []
      ∷ [];
  trace = socket (pos 3) ∷ [];
}

epoll_client-Closes_example : Post (Closes []) (epoll_client sends receives (pos 3) polled)
unfolding open_fds
epoll_client-Closes_example =
    epoll_client-Closes sends receives sends-IsNeutral receives-IsNeutral (pos 3) [] polled refl

-- The socket can be written, which fails.
abbrev writable : Os
writable = record {
  script = says (pos 1) (0 ∷ 0 ∷ 0 ∷ 2 ∷ []) ∷ says minus_one [] ∷ says (pos 0) [] ∷ [];
  trace = socket (pos 3) ∷ [];
}

select_client-Fails_example :
    Post
      (λ r after. (r ≡ minus_one) × (open_fds after.trace ≡ []))
      (select_client sends receives (pos 3) writable)
unfolding open_fds
select_client-Fails_example =
    select_client-Fails sends receives sends-IsNeutral receives-IsNeutral (pos 3) [] writable refl

-- select fails at once.
select_accept-Idle_example : Post (Idle sends receives (pos 3) []) (
    select_accept sends receives
      (pos 3)
      (record { script = says minus_one [] ∷ says (pos 0) [] ∷ []; trace = [] }))
select_accept-Idle_example =
    select_accept-Idle sends receives (pos 3)
      (record { script = says minus_one [] ∷ says (pos 0) [] ∷ []; trace = [] }) receives-IsFuelled

-- One client connects, sends, and goes.
abbrev one_guest : Os
one_guest = record {
  script =
      says (pos 3) []
      ∷ says (pos 0) []
      ∷ says (pos 0) []
      ∷ says (pos 0) []
      ∷ says (pos 5) []
      ∷ says (pos 0) []
      ∷ says (pos 1) (3 ∷ [])
      ∷ says (pos 6) []
      ∷ says (pos 0) []
      ∷ says (pos 1) (6 ∷ [])
      ∷ says (pos 3) hello
      ∷ says (pos 100) []
      ∷ says minus_one []
      ∷ [];
  trace = [];
}

echo_main-Bounded_example : Safe Bounded (λ _. Bounded) (echo_main (replicate 50 0) one_guest)
echo_main-Bounded_example = echo_main-Bounded (replicate 50 0) one_guest tt

-- Three connections come to a table of two slots, and the first one goes.
table_run-Represents_example :
    Represents
      (table_run (comes 3 ∷ comes 4 ∷ comes 5 ∷ goes 3 ∷ []) (minus_one ∷ minus_one ∷ []))
      (bag_run (comes 3 ∷ comes 4 ∷ comes 5 ∷ goes 3 ∷ []) (λ g. 0, 2))
table_run-Represents_example =
    table_run-Represents (comes 3 ∷ comes 4 ∷ comes 5 ∷ goes 3 ∷ []) (minus_one ∷ minus_one ∷ [])
      (λ g. 0, 2) (inl refl, (inl refl, tt)) (λ g. refl, refl)
