-- ===== src/Echo/Capacity.antt =====
-- What the echo server does with a connection that arrives when it serves as many as it can.
use test_server.Base.Int.{negsuc}
use test_server.Base.{refl, arith, true, ◌==◌, [], some, ◌≡◌, ◌∷◌, Bool}
use test_server.Echo.{close, epoll_del, pos, Reply, List, ℕ, one_event}
use test_server.Os.{read, done, Call}

-- With cur_fds at 1000 an event of the listener is taken for one of a client: the listener is read,
-- and when that fails, as it does on a listening socket, it is closed and no longer watched.
pub one_event_closes_listener :
    (fd : ℕ) (buff : List ℕ) (error : ℕ) (bytes : List ℕ) (interrupted : Bool)
    (closing deleting : Reply) (script : List Reply) (trace : List Call)
    → one_event
        (pos fd)
        fd
        (pos 1000, buff)
        (record {
          script =
              record { ret = negsuc error; bytes = bytes; interrupted = interrupted }
              ∷ closing
              ∷ deleting
              ∷ script;
          trace = trace;
        })
      ≡ done (some (pos 999, buff)) (record {
        script = script;
        trace = epoll_del deleting.ret ∷ close (pos fd) ∷ read (pos fd) [] ∷ trace;
      })
unfolding one_event
one_event_closes_listener fd buff error bytes interrupted closing deleting script trace =
    let same : (fd == fd) ≡ true = ground arith in rw same refl
