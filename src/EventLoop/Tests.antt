-- ===== src/EventLoop/Tests.antt =====
-- Runs of the event loop on concrete input.
use systems_craft.Prelude.{
  ℕ, ◌+◌, ◌<◌, ◌≡◌, refl, true, false, List, [], ◌∷◌, ◌++◌, map, Option, none, some, arith, Bytes,
  codes, split, after_prefix, is_digit, read_digits, ◌==◌, if◌then◌else◌, length,
}
use systems_craft.ThreadPool.{thread_pool}
use systems_craft.EventLoop.Table.{find_fd, put_fd, erase_fd}
use systems_craft.EventLoop.Framing.{blank_line, skip_blanks}
use systems_craft.EventLoop.Framing.Whole.{IsHead, declared, IsRequest}
use systems_craft.EventLoop.Loop.{
  new_connection, Connection, EventLoop, event_loop_of, Accept, accept_one, add_to_epoll, close,
  stop, active_connections,
}
use systems_craft.EventLoop.Run.{
  Event, process, process_all, Wait, ready, interrupted, event_loop, start,
}
use systems_craft.EventLoop.Run.Reading.{input, handed_over, process_all-handed_over}
use systems_craft.EventLoop.Run.Full.{process_all-tasks}
use systems_craft.EventLoop.Run.Overflow.{handle_read-wraps}
use systems_craft.EventLoop.Run.Descriptors.{known, IsTidy}
use systems_craft.EventLoop.Run.Descriptors.Traffic.{RunsFresh}
use systems_craft.EventLoop.Run.Descriptors.Stop.{event_loop-start-IsTidy, stop-event_loop}

-- Decimal digits, and an exception where there are none.
abbrev stoull : Bytes → Option ℕ
stoull [] = none
stoull (c ∷ cs) = if is_digit c then some (read_digits 0 (c ∷ cs)) else none

abbrev client : Accept
client = record { fd = 5; nonblocking = true; added = true }

abbrev connected : EventLoop
connected = accept_one client (start 3 true (event_loop_of 4))

abbrev head : Bytes
head = codes "POST /metrics HTTP/1.1\r\nContent-Length: 5"

head-IsRequest : IsRequest stoull head (codes "hello")
unfolding split after_prefix declared skip_blanks read_digits is_digit
head-IsRequest = record { is_head = refl; declares = refl; fits = omega arith }

connected_found : find_fd 5 connected.connections ≡ some (new_connection 5)
unfolding accept_one start event_loop_of find_fd put_fd add_to_epoll
connected_found = refl

abbrev pieces : List (List Bytes)
pieces =
    (codes "POST /metr" ∷ codes "ics" ∷ [])
    ∷ (codes " HTTP/1.1\r\nContent-Length: 5\r\n\r\nhe" ∷ [])
    ∷ []

process_all-handed_over_example :
    process_all stoull 3
      (input 5 (codes "POST /metr" ∷ codes "ics" ∷ [])
        ∷ input 5 (codes " HTTP/1.1\r\nContent-Length: 5\r\n\r\nhe" ∷ [])
        ∷ input 5 (codes "lloGET" ∷ [])
        ∷ [])
      connected
    ≡ handed_over (new_connection 5) (head ++ (blank_line ++ codes "hello")) (codes "GET") connected
unfolding new_connection
process_all-handed_over_example =
    process_all-handed_over stoull head (codes "hello") head-IsRequest 3 5 refl pieces
      (codes "lloGET" ∷ []) connected (new_connection 5) (codes "GET") connected_found refl refl
      (omega arith)

-- The largest length, one byte short of a whole head.
abbrev long_head : Bytes
long_head = codes "POST / HTTP/1.1\r\nContent-Length: 18446744073709551615"

long_head-IsHead : IsHead long_head
unfolding split after_prefix
long_head-IsHead = refl

long_head-declared : declared stoull long_head ≡ some 18446744073709551615
unfolding declared split after_prefix skip_blanks read_digits is_digit
long_head-declared = refl

handle_read-wraps_example :
    (length (long_head ++ codes "\r\n\r") < length long_head + 4)
    × (process stoull 3 (input 5 ((long_head ++ codes "\r\n\r\nab") ∷ [])) connected
        ≡ handed_over (new_connection 5) (long_head ++ codes "\r\n\r") (codes "\nab") connected)
unfolding new_connection
handle_read-wraps_example =
    handle_read-wraps stoull 3 5 ((long_head ++ codes "\r\n\r\nab") ∷ []) connected
      (new_connection 5) long_head (codes "ab") (long_head ++ codes "\r\n\r") (codes "\nab")
      18446744073709551615 refl connected_found long_head-IsHead long_head-declared (omega arith)
      (omega arith) refl refl refl

abbrev arrival : Event
arrival = record {
  fd = 3;
  error_or_hang_up = false;
  input = true;
  output = false;
  accepts = client ∷ record { fd = 6; nonblocking = true; added = false } ∷ [];
  reads = [];
  writes = [];
}

abbrev polls : List Wait
polls = ready (arrival ∷ []) ∷ interrupted ∷ ready (input 5 (codes "GET / H" ∷ []) ∷ []) ∷ []

polls-RunsFresh : RunsFresh 3 stoull polls (start 3 true (event_loop_of 4))
unfolding accept_one close start event_loop_of find_fd put_fd erase_fd add_to_epoll
polls-RunsFresh = (
  ((λ e. (refl, (λ same. omega (arith, same)), (refl, (λ same. omega (arith, same)), tt))), tt),
  (((λ e. tt), tt), tt),
)

event_loop-start-IsTidy_example :
    IsTidy 3 (event_loop stoull 3 polls (start 3 true (event_loop_of 4)))
event_loop-start-IsTidy_example = event_loop-start-IsTidy stoull 3 4 polls polls-RunsFresh

stop-event_loop_example :
    ((fd : ℕ)
      → known fd (stop (event_loop stoull 3 polls (start 3 true (event_loop_of 4)))).sockets
        ≡ false)
    × ((fd : ℕ)
        → known fd (stop (event_loop stoull 3 polls (start 3 true (event_loop_of 4)))).watched
          ≡ (fd == 3))
    × (active_connections (stop (event_loop stoull 3 polls (start 3 true (event_loop_of 4)))) ≡ 0)
stop-event_loop_example = stop-event_loop stoull 3 4 polls polls-RunsFresh

-- The loop after the pieces of a request.
abbrev pieced : EventLoop
pieced = process_all stoull 3 (map (input 5) (pieces ++ (codes "lloGET" ∷ []) ∷ [])) connected

process_all-tasks_example :
    (pieced.pool.tasks ≡ (5, head ++ (blank_line ++ codes "hello")) ∷ [])
    × (pieced.sockets ≡ connected.sockets)
    × ((left : Connection) × (find_fd 5 pieced.connections ≡ some left)
        × (left.read_buffer ≡ codes "GET")
        × (left.write_buffer ≡ []))
unfolding new_connection accept_one start event_loop_of add_to_epoll thread_pool
process_all-tasks_example =
    process_all-tasks stoull head (codes "hello") 3 5 pieces (codes "lloGET" ∷ []) connected
      (new_connection 5) (codes "GET") head-IsRequest refl connected_found refl refl (omega arith)
      refl
