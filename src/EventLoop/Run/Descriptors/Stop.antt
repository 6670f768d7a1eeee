-- ===== src/EventLoop/Run/Descriptors/Stop.antt =====
-- EventLoop::stop, and the state in which a run begins.
use systems_craft.Prelude.{
  ℕ, ◌≡◌, refl, true, false, List, [], ◌∷◌, Option, arith, Bytes, ◌==◌, if◌then◌else◌,
}
use systems_craft.EventLoop.Table.{find_fd, put_fd}
use systems_craft.EventLoop.Loop.{
  Connection, EventLoop, close_all, stop, active_connections, event_loop_of, close, add_to_epoll,
}
use systems_craft.EventLoop.Run.{Wait, event_loop, start}
use systems_craft.EventLoop.Run.Descriptors.{known, known-erase_fd, IsTidy}
use systems_craft.EventLoop.Run.Descriptors.Traffic.{RunsFresh, event_loop-IsTidy}

start-IsTidy : (listen_fd n : ℕ) → IsTidy listen_fd (start listen_fd true (event_loop_of n))
unfolding start add_to_epoll event_loop_of find_fd put_fd
start-IsTidy listen_fd n = record {
  open_sockets = λ fd. refl;
  watched = λ fd. ground arith;
  own = λ fd conn found. cc found;
  apart = refl;
}

-- If `accept` always returns a descriptor that is not open and not the listen socket, then after
-- any number of waits the open client sockets are those of the connections, epoll watches these
-- and the listen socket, each connection stands under its own descriptor, and the listen socket
-- is no connection.
pub event_loop-start-IsTidy :
    (stoull : Bytes → Option ℕ) (listen_fd n : ℕ) (polls : List Wait)
    → RunsFresh listen_fd stoull polls (start listen_fd true (event_loop_of n))
    → IsTidy listen_fd (event_loop stoull listen_fd polls (start listen_fd true (event_loop_of n)))
event_loop-start-IsTidy stoull listen_fd n polls fresh =
    event_loop-IsTidy listen_fd stoull polls (start listen_fd true (event_loop_of n)) fresh
      (start-IsTidy listen_fd n)

known-close_all :
    (connections : List (ℕ × Connection)) (loop : EventLoop) (j : ℕ)
    → (known j (close_all connections loop).sockets
        ≡ (if known j connections then false else known j loop.sockets))
      × (known j (close_all connections loop).watched
          ≡ (if known j connections then false else known j loop.watched))
unfolding close find_fd
known-close_all [] loop j = (refl, refl)
known-close_all ((fd, conn) ∷ connections) loop j =
    let later = known-close_all connections (close fd loop) j in
    (
      ground (arith, later.0, known-erase_fd fd j loop.sockets),
      ground (arith, later.1, known-erase_fd fd j loop.watched),
    )

stop-IsTidy :
    (listen_fd : ℕ) (loop : EventLoop)
    → IsTidy listen_fd loop
    → ((fd : ℕ) → known fd (stop loop).sockets ≡ false)
      × ((fd : ℕ) → known fd (stop loop).watched ≡ (fd == listen_fd))
      × (active_connections (stop loop) ≡ 0)
unfolding stop active_connections
stop-IsTidy listen_fd loop t = (
  λ fd. ground (arith, t.open_sockets fd, (known-close_all loop.connections loop fd).0),
  λ fd. ground (arith, t.apart, t.watched fd, (known-close_all loop.connections loop fd).1),
  refl,
)

-- If `accept` always returns a descriptor that is not open and not the listen socket, then `stop`
-- after any number of waits closes every client socket, and leaves only the listen socket watched
-- and no connection.
pub stop-event_loop :
    (stoull : Bytes → Option ℕ) (listen_fd n : ℕ) (polls : List Wait)
    → RunsFresh listen_fd stoull polls (start listen_fd true (event_loop_of n))
    → ((fd : ℕ)
        → known fd
            (stop
              (event_loop stoull listen_fd polls (start listen_fd true (event_loop_of n)))).sockets
          ≡ false)
      × ((fd : ℕ)
          → known fd
              (stop (
                event_loop stoull listen_fd polls (start listen_fd true (event_loop_of n)))).watched
            ≡ (fd == listen_fd))
      × (active_connections
            (stop (event_loop stoull listen_fd polls (start listen_fd true (event_loop_of n))))
          ≡ 0)
stop-event_loop stoull listen_fd n polls fresh =
    stop-IsTidy listen_fd
      (event_loop stoull listen_fd polls (start listen_fd true (event_loop_of n)))
      (event_loop-start-IsTidy stoull listen_fd n polls fresh)
