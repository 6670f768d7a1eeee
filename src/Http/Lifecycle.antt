-- ===== src/Http/Lifecycle.antt =====
-- HttpServer::start and HttpServer::stop beside the thread of HttpServer::run_server. `stop` turns
-- the flag off and waits for the thread, so its two halves are steps of their own, and so is every
-- stretch of the thread between two reads of the flag or calls that wait.
pub mod Tidy
pub mod Stop
use systems_craft.Prelude.{
  ℕ, Bool, true, false, List, [], ◌∷◌, Option, none, some, Bytes, if◌then◌else◌,
}
use systems_craft.Http.{HttpRequest, HttpResponse}
use systems_craft.Http.Server.{HttpServer, accept_round, work_round}

-- The thread object and where its thread stands: none that could be joined, in front of the socket
-- calls, in front of the loop's condition, in `accept`, and behind `run_server`.
pub data Thread : Type 0 where
  no_thread opening looping accepting ended : Thread

-- `joining` while a call of `stop` waits for the thread, and `listening` while the server's socket
-- is open. `terminated` is the end of the program by std::terminate; no step means anything then.
pub record Lifecycle {ℓ} (H S : Type ℓ) : Type ℓ where
  pub running : Bool
  pub joining : Bool
  pub thread : Thread
  pub listening : Bool
  pub terminated : Bool
  pub server : HttpServer H S

-- What `socket`, `bind` and `listen` do.
pub data Opening : Type 0 where
  no_socket bind_failed listen_failed listens : Opening

module _ {ℓ} {H S : Type ℓ} where
  unfoldable pub lifecycle : HttpServer H S → Lifecycle H S
  lifecycle server = record {
    running = false;
    joining = false;
    thread = no_thread;
    listening = false;
    terminated = false;
    server = server;
  }

  -- A thread object that can still be joined is overwritten, which ends the program: `start` comes
  -- while a call of `stop` waits for the thread.
  unfoldable pub start : Lifecycle H S → Lifecycle H S
  start cycle = if cycle.running then cycle else elim cycle.thread [
    | no_thread ↦ record cycle { running = true; thread = opening }
    | opening ↦ record cycle { terminated = true }
    | looping ↦ record cycle { terminated = true }
    | accepting ↦ record cycle { terminated = true }
    | ended ↦ record cycle { terminated = true }
  ]

  -- The first half of `stop`.
  unfoldable pub stop : Lifecycle H S → Lifecycle H S
  stop cycle = if cycle.running then record cycle { running = false; joining = true } else cycle

  -- `join` returns, and `stop` with it.
  pub join : Lifecycle H S → Lifecycle H S
  join cycle = elim cycle.thread [
    | ended ↦ if cycle.joining then record cycle { joining = false; thread = no_thread } else cycle
    | no_thread ↦ cycle
    | opening ↦ cycle
    | looping ↦ cycle
    | accepting ↦ cycle
  ]

  -- A failed call closes the socket, if there is one.
  abbrev open_socket : Opening → Lifecycle H S → Lifecycle H S
  open_socket no_socket cycle = record cycle { thread = ended; listening = false }
  open_socket bind_failed cycle = record cycle { thread = ended; listening = false }
  open_socket listen_failed cycle = record cycle { thread = ended; listening = false }
  open_socket listens cycle = record cycle { thread = looping; listening = true }

-- What happens beside the calls of `start` and `stop`: a turn of the server's thread, a turn of a
-- worker that may read these bytes, the end of a `join`.
pub data Move : Type 0 where
  listener : Opening → Option ℕ → Move
  worker : Bytes → Move
  joins : Move

pub data Event : Type 0 where
  starts stops : Event
  moved : Move → Event

module _ {ℓ} {H S : Type ℓ} (handle : H → HttpRequest → S → S × Option HttpResponse) where
  -- A turn of the thread, with what the socket calls do and what `accept` returns if the turn has
  -- them; `none` is an error.
  unfoldable pub run_server : Opening → Option ℕ → Lifecycle H S → Lifecycle H S
  run_server opened connection cycle = elim cycle.thread [
    | no_thread ↦ cycle
    | opening ↦ open_socket opened cycle
    | looping ↦
        if cycle.running
        then record cycle { thread = accepting }
        else record cycle { thread = ended; listening = false }
    | accepting ↦ elim connection [
      | none ↦ record cycle { thread = looping }
      | some socket ↦ record cycle {
        thread = looping;
        server = accept_round handle socket cycle.server;
      }
    ]
    | ended ↦ cycle
  ]

  unfoldable pub move : Lifecycle H S → Move → Lifecycle H S
  unfolding run_server join
  move cycle (listener opened connection) = run_server opened connection cycle
  move cycle (worker received) = record cycle { server = work_round handle received cycle.server }
  move cycle joins = join cycle

  pub moves : Lifecycle H S → List Move → Lifecycle H S
  unfolding move
  moves cycle [] = cycle
  moves cycle (turn ∷ rest) = moves (move cycle turn) rest

  unfoldable pub step : Lifecycle H S → Event → Lifecycle H S
  unfolding start stop move
  step cycle starts = start cycle
  step cycle stops = stop cycle
  step cycle (moved turn) = move cycle turn

  unfoldable pub run : Lifecycle H S → List Event → Lifecycle H S
  unfolding step
  run cycle [] = cycle
  run cycle (e ∷ events) = run (step cycle e) events
