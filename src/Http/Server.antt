-- ===== src/Http/Server.antt =====
-- HttpServer::run_server and the tasks that it gives to the thread pool. Accepting a connection is
-- one step, and so is a worker's task with the `read` of its socket, whose bytes are an argument.
pub mod Accounts
pub mod Unanswered
use systems_craft.Prelude.{
  ℕ, Bool, true, false, List, [], ◌∷◌, ◌++◌, Option, none, some, Bytes, if◌then◌else◌, take,
}
use systems_craft.ThreadPool.{ThreadPool, thread_pool, enqueue, waits, exits, runs, worker_turn}
use systems_craft.Http.{
  HttpRequest, HttpResponse, Handlers, answers, calls, handle_request, format_response,
  overload_response,
}
use systems_craft.Http.Request.{parse_request}

-- The tasks are client sockets. `refused` are those that got the overload response, and `served`
-- those whose task has run, with what was written before they were closed; `none` is an exception,
-- which the worker catches, and the socket stays open. `state` is what the handlers work on.
pub record HttpServer {ℓ} (H S : Type ℓ) : Type ℓ where
  pub handlers : Handlers H
  pub pool : ThreadPool ℕ
  pub refused : List (ℕ × Bytes)
  pub served : List (ℕ × Option Bytes)
  pub state : S

pub data Event : Type 0 where
  accepts : ℕ → Event
  works : Bytes → Event

module _ {ℓ} {H S : Type ℓ} where
  pub http_server : ℕ → Handlers H → S → HttpServer H S
  http_server thread_pool_size handlers state = record {
    handlers = handlers;
    pool = thread_pool thread_pool_size 10000;
    refused = [];
    served = [];
    state = state;
  }

  -- What a handler makes of the state, and returns; `none` is an exception.
  module _ (handle : H → HttpRequest → S → S × Option HttpResponse) where
    -- The task: one `read` of at most 4095 bytes, where no bytes are the end or an error.
    pub serve : Handlers H → Bytes → S → S × Option Bytes
    serve handlers [] state = (state, some [])
    serve handlers (c ∷ received) state = elim (parse_request (take 4095 (c ∷ received))) [
      | none ↦ (state, none)
      | some request ↦ elim (handle_request handlers request) [
        | answers response ↦ (state, some (format_response response))
        | calls handler ↦
            let (after, returned) = handle handler request state in
            (after, elim returned [ none ↦ none | some response ↦ some (format_response response) ])
      ]
    ]

    -- A round of the loop of `run_server`.
    pub accept_round : ℕ → HttpServer H S → HttpServer H S
    accept_round socket server =
        let (pool, enqueued) = enqueue server.pool socket in
        if enqueued then record server { pool = pool } else record server {
          pool = pool;
          refused = server.refused ++ (socket, overload_response) ∷ [];
        }

    pub work_round : Bytes → HttpServer H S → HttpServer H S
    unfolding serve
    work_round received server =
        let (pool, next) = worker_turn server.pool in
        elim next [
          | waits ↦ record server { pool = pool }
          | exits ↦ record server { pool = pool }
          | runs socket ↦ record server {
            pool = pool;
            served =
                server.served ++ (socket, (serve server.handlers received server.state).1) ∷ [];
            state = (serve server.handlers received server.state).0;
          }
        ]

    unfoldable pub step : HttpServer H S → Event → HttpServer H S
    unfolding accept_round work_round
    step server (accepts socket) = accept_round socket server
    step server (works received) = work_round received server

    unfoldable pub run : HttpServer H S → List Event → HttpServer H S
    unfolding step
    run server [] = server
    run server (e ∷ events) = run (step server e) events
