-- ===== src/EventLoop/Run.antt =====
-- EventLoop::run with its loop over `epoll_wait`: which handler an event goes to.
pub mod Reading
pub mod Full
pub mod Overflow
pub mod Descriptors
use systems_craft.Prelude.{ℕ, Bool, true, List, [], ◌∷◌, Option, Bytes, if◌then◌else◌, ◌==◌}
use systems_craft.EventLoop.Loop.{
  EventLoop, Accept, Read, Write, level, add_to_epoll, close_connection, handle_accept, handle_read,
  handle_write,
}

-- An event of `epoll_wait`, with what the kernel returns in its handler.
pub record Event : Type 0 where
  pub fd : ℕ
  pub error_or_hang_up : Bool
  pub input : Bool
  pub output : Bool
  pub accepts : List Accept
  pub reads : List Read
  pub writes : List Write

pub process : (Bytes → Option ℕ) → ℕ → Event → EventLoop → EventLoop
unfolding handle_accept close_connection handle_read handle_write
process stoull listen_fd e loop =
    if e.fd == listen_fd
    then handle_accept e.accepts loop
    else if e.error_or_hang_up
    then close_connection e.fd loop
    else if e.input
    then handle_read stoull e.fd e.reads loop
    else if e.output
    then handle_write e.fd e.writes loop
    else loop

pub process_all : (Bytes → Option ℕ) → ℕ → List Event → EventLoop → EventLoop
unfolding process
process_all stoull listen_fd [] loop = loop
process_all stoull listen_fd (e ∷ events) loop =
    process_all stoull listen_fd events (process stoull listen_fd e loop)

-- A result of `epoll_wait`: events, or a failure.
pub data Wait : Type 0 where
  ready : List Event → Wait
  interrupted failed : Wait

-- `running` is looked at before each wait.
pub event_loop : (Bytes → Option ℕ) → ℕ → List Wait → EventLoop → EventLoop
unfolding process_all
event_loop stoull listen_fd [] loop = loop
event_loop stoull listen_fd (ready events ∷ polls) loop =
    if loop.running
    then event_loop stoull listen_fd polls (process_all stoull listen_fd events loop)
    else loop
event_loop stoull listen_fd (interrupted ∷ polls) loop =
    if loop.running then event_loop stoull listen_fd polls loop else loop
event_loop stoull listen_fd (failed ∷ polls) loop = loop

-- `run` up to its loop: `is_ready` says whether set_nonblocking and add_to_epoll succeed.
unfoldable pub start : ℕ → Bool → EventLoop → EventLoop
unfolding add_to_epoll
start listen_fd is_ready loop =
    if loop.running
    then loop
    else if is_ready
    then (let added = add_to_epoll listen_fd level loop in record added { running = true })
    else loop
