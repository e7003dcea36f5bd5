-- ===== src/Examples/Races.antt =====
-- Interleavings of thread_accept.
use test_server.Base.{[]}
use test_server.Base.Int.{pos}
use test_server.Serve.Race.{Shared}

abbrev nobody : Shared
nobody = record { func_data = pos 0; unread = 0; accepted = []; served = [] }
