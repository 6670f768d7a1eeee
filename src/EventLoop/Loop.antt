-- ===== src/EventLoop/Loop.antt =====
-- The state of EventLoop and its handlers. The kernel's part is the arguments: what `accept`,
-- `read` and `write` return, one after the other, in a call of a handler (the end of such a list
-- is EAGAIN), in Run also the events. Handlers run in one thread. Log output is
-- left out, and the constructor's thread pool and epoll instance are part of the state.
pub mod Writing
use systems_craft.Prelude.{
  ℕ, zero, suc, Bool, true, false, List, [], ◌∷◌, ◌++◌, Option, none, some, Bytes, codes, split,
  if◌then◌else◌, ◌==◌, length, drop, take,
}
use systems_craft.ThreadPool.{ThreadPool, enqueue, thread_pool}
use systems_craft.EventLoop.Table.{find_fd, put_fd, erase_fd}
use systems_craft.EventLoop.Framing.{Frame, incomplete, invalid, complete, frame}

pub record Connection : Type 0 where
  pub fd : ℕ
  pub read_buffer : Bytes
  pub write_buffer : Bytes
  pub keep_alive : Bool

unfoldable pub new_connection : ℕ → Connection
new_connection fd = record { fd = fd; read_buffer = []; write_buffer = []; keep_alive = false }

-- EPOLLIN, and EPOLLIN | EPOLLET.
pub data Interest : Type 0 where
  level edge : Interest

-- `sockets` are the open client sockets with the bytes written to each, `watched` is the epoll
-- instance, and a task of the pool is the handler's call for a descriptor and a request.
pub record EventLoop : Type 0 where
  pub running : Bool
  pub connections : List (ℕ × Connection)
  pub sockets : List (ℕ × Bytes)
  pub watched : List (ℕ × Interest)
  pub pool : ThreadPool (ℕ × Bytes)

-- A result of `accept`: a descriptor, and whether set_nonblocking and add_to_epoll succeed.
pub record Accept : Type 0 where
  pub fd : ℕ
  pub nonblocking : Bool
  pub added : Bool

pub data Read : Type 0 where
  got : Bytes → Read
  hang_up would_block fails : Read

-- `wrote n` is a positive result, `nothing` is 0.
pub data Write : Type 0 where
  wrote : ℕ → Write
  nothing blocked broken : Write

unfoldable pub event_loop_of : ℕ → EventLoop
event_loop_of thread_pool_size = record {
  running = false;
  connections = [];
  sockets = [];
  watched = [];
  pool = thread_pool thread_pool_size 10000;
}

-- Closing a socket takes it out of the epoll instance.
unfoldable pub close : ℕ → EventLoop → EventLoop
close fd loop = record loop {
  sockets = erase_fd fd loop.sockets;
  watched = erase_fd fd loop.watched;
}

unfoldable pub remove_from_epoll : ℕ → EventLoop → EventLoop
remove_from_epoll fd loop = record loop { watched = erase_fd fd loop.watched }

unfoldable pub add_to_epoll : ℕ → Interest → EventLoop → EventLoop
add_to_epoll fd interest loop = record loop { watched = put_fd fd interest loop.watched }

-- It fails, and changes nothing, where the descriptor is not watched.
unfoldable pub modify_epoll : ℕ → Interest → EventLoop → EventLoop
unfolding add_to_epoll
modify_epoll fd interest loop = elim (find_fd fd loop.watched) [
  | none ↦ loop
  | some _ ↦ add_to_epoll fd interest loop
]

unfoldable pub close_connection : ℕ → EventLoop → EventLoop
unfolding close remove_from_epoll
close_connection fd loop =
    let closed = close fd (remove_from_epoll fd loop) in
    record closed { connections = erase_fd fd closed.connections }

-- A round of the loop in `handle_accept`.
unfoldable pub accept_one : Accept → EventLoop → EventLoop
unfolding close add_to_epoll new_connection
accept_one a loop =
    let accepted : EventLoop = record loop { sockets = put_fd a.fd [] loop.sockets } in
    if a.nonblocking
    then (if a.added
        then (let added = add_to_epoll a.fd edge accepted in
            record added { connections = put_fd a.fd (new_connection a.fd) added.connections })
        else close a.fd accepted)
    else close a.fd accepted

unfoldable pub handle_accept : List Accept → EventLoop → EventLoop
unfolding accept_one
handle_accept [] loop = loop
handle_accept (a ∷ accepts) loop = handle_accept accepts (accept_one a loop)

-- The read buffer after the loop over `read`, or the end of the connection.
pub data Drained : Type 0 where
  drained : Bytes → Drained
  ended : Drained

unfoldable pub read_all : Bytes → List Read → Drained
read_all buffer [] = drained buffer
read_all buffer (got bytes ∷ reads) = read_all (buffer ++ bytes) reads
read_all buffer (hang_up ∷ reads) = ended
read_all buffer (would_block ∷ reads) = drained buffer
read_all buffer (fails ∷ reads) = ended

-- The header is looked for in the whole buffer.
abbrev pub wants_keep_alive : Bytes → Bool
wants_keep_alive buffer = elim (split (codes "Connection: keep-alive") buffer) [
  | none ↦ false
  | some _ ↦ true
]

-- `handle_read` from the check for a complete request on. What `enqueue` returns is ignored.
unfoldable pub take_request : Connection → Bytes → Frame → EventLoop → EventLoop
unfolding close_connection
take_request conn buffer incomplete loop = record loop {
  connections = put_fd conn.fd (record conn { read_buffer = buffer }) loop.connections;
}
take_request conn buffer invalid loop = close_connection conn.fd loop
take_request conn buffer (complete size) loop = record loop {
  connections =
      put_fd conn.fd
        (record conn { read_buffer = drop size buffer; keep_alive = wants_keep_alive buffer })
        loop.connections;
  pool = (enqueue loop.pool (conn.fd, take size buffer)).0;
}

unfoldable pub handle_read : (Bytes → Option ℕ) → ℕ → List Read → EventLoop → EventLoop
unfolding read_all take_request close_connection
handle_read stoull client_fd reads loop = elim (find_fd client_fd loop.connections) [
  | none ↦ loop
  | some conn ↦ elim (read_all conn.read_buffer reads) [
    | ended ↦ close_connection client_fd loop
    | drained buffer ↦ take_request conn buffer (frame stoull buffer) loop
  ]
]

-- How the loop over `write` ends, with the bytes that it has written and those left over.
pub data Flushed : Type 0 where
  all_written : Bytes → Flushed
  waits : Bytes → Bytes → Flushed
  breaks : Bytes → Bytes → Flushed

pub write_all : Bytes → Bytes → List Write → Flushed
write_all sent [] writes = all_written sent
write_all sent (b ∷ buffer) [] = waits sent (b ∷ buffer)
write_all sent (b ∷ buffer) (wrote n ∷ writes) =
    write_all (sent ++ take n (b ∷ buffer)) (drop n (b ∷ buffer)) writes
write_all sent (b ∷ buffer) (nothing ∷ writes) = write_all sent (b ∷ buffer) writes
write_all sent (b ∷ buffer) (blocked ∷ writes) = waits sent (b ∷ buffer)
write_all sent (b ∷ buffer) (broken ∷ writes) = breaks sent (b ∷ buffer)

abbrev pub sent_to : ℕ → EventLoop → Bytes
sent_to fd loop = elim (find_fd fd loop.sockets) [ none ↦ [] | some bytes ↦ bytes ]

-- The bytes arrive on the socket, and the connection keeps the others.
unfoldable pub deliver : Connection → Bytes → Bytes → EventLoop → EventLoop
deliver conn sent left loop = record loop {
  sockets = put_fd conn.fd (sent_to conn.fd loop ++ sent) loop.sockets;
  connections = put_fd conn.fd (record conn { write_buffer = left }) loop.connections;
}

unfoldable pub handle_write : ℕ → List Write → EventLoop → EventLoop
unfolding write_all deliver close_connection modify_epoll
handle_write client_fd writes loop = elim (find_fd client_fd loop.connections) [
  | none ↦ loop
  | some conn ↦ elim (write_all [] conn.write_buffer writes) [
    | waits sent left ↦ deliver conn sent left loop
    | breaks sent left ↦ close_connection client_fd (deliver conn sent left loop)
    | all_written sent ↦
        let written = deliver conn sent [] loop in
        if conn.keep_alive
        then modify_epoll client_fd edge written
        else close_connection client_fd written
  ]
]

unfoldable pub active_connections : EventLoop → ℕ
active_connections loop = length loop.connections

abbrev pub close_all : List (ℕ × Connection) → EventLoop → EventLoop
close_all [] loop = loop
close_all ((fd, conn) ∷ connections) loop = close_all connections (close fd loop)

unfoldable pub stop : EventLoop → EventLoop
unfolding close
stop loop = record (close_all loop.connections loop) { running = false; connections = [] }
