-- ===== src/Http/Tests.antt =====
-- Runs of the HTTP server's parser and dispatch on small inputs.
use systems_craft.Prelude.{
  ◌+◌, Option, insert, after_prefix, find, read_digits, length, ◌≡◌, refl, ℕ, List, [], ◌∷◌, ◌++◌,
  some, none, true, false, ◌≤◌, arith, Bytes, codes, is_space,
}
use systems_craft.Http.{
  HttpResponse, new_response, set_json_content, format_response, overload_response, HttpRequest,
  Handlers, add_handler,
}
use systems_craft.Http.Response.{blank_line, format_response-framed}
use systems_craft.Http.Request.{parse_request}
use systems_craft.Http.Request.RoundTrip.{
  IsHeader, print_request, print_headers, header_map, parse_request-print,
}
use systems_craft.Http.Lifecycle
use systems_craft.Http.Lifecycle.{
  Lifecycle, Move, listens, bind_failed, listener, worker, starts, stops, moved, no_thread, ended,
  lifecycle, stop, join, moves,
}
use systems_craft.Http.Lifecycle.Stop.{moves-stop}
use systems_craft.Http.Server
use systems_craft.Http.Server.{HttpServer, Event, accepts, works, http_server, serve, run}
use systems_craft.Http.Server.Accounts.{accepted}
use systems_craft.Http.Server.Unanswered.{serve-parse_request_throws}

abbrev get : HttpRequest
get = record { method = codes "GET"; path = codes "/metrics"; body = []; headers = [] }

-- A handler of one path.
abbrev handlers : Handlers ℕ
handlers = add_handler (codes "/metrics") (codes "POST") 1 []

abbrev host : Bytes × Bytes
host = (codes "Host", codes "localhost:8080")

abbrev headers : List (Bytes × Bytes)
headers = host ∷ (codes "Authorization", codes "alice") ∷ []

host-IsHeader : IsHeader host
host-IsHeader = record {
  no_colon = ground arith;
  name_line = ground arith;
  value_line = ground arith;
}

authorization-IsHeader : IsHeader (codes "Authorization", codes "alice")
authorization-IsHeader = record {
  no_colon = ground arith;
  name_line = ground arith;
  value_line = ground arith;
}

parse_request-print_example :
    parse_request
      (print_request (codes "POST") (codes "/metrics") headers (codes "{\"metrics\":\n[]}"))
    ≡ some (record {
      method = codes "POST";
      path = codes "/metrics";
      body = codes "{\"metrics\":\n[]}";
      headers = header_map headers [];
    })
unfolding is_space
parse_request-print_example =
    parse_request-print (codes "POST") (codes "/metrics") headers (codes "{\"metrics\":\n[]}")
      (ground arith) (ground arith) (λ e. absurd (cc e)) (λ e. absurd (cc e))
      (host-IsHeader, (authorization-IsHeader, tt)) refl

abbrev ok_response : HttpResponse
ok_response = record (set_json_content new_response) { body = codes "{\"success\":true}" }

format_response-framed_example :
    (find blank_line (format_response ok_response) ≡ some ok_response.body)
    × (rest : Bytes) × (find (codes "\r\nContent-Length: ") (format_response ok_response)
        ≡ some rest)
    × (read_digits 0 rest ≡ length ok_response.body)
unfolding set_json_content insert
format_response-framed_example =
    format_response-framed ok_response ((ground arith, ground arith), tt)

-- The refusal of an overloaded server announces one byte more than it sends.
overload_response-short :
    (find (codes "Content-Length: ") overload_response
      ≡ some (codes "47\r\n\r\n{\"error\":\"Server overloaded, try again later\"}"))
    × (length (codes "{\"error\":\"Server overloaded, try again later\"}") ≡ 46)
unfolding overload_response find after_prefix
overload_response-short = (refl, refl)

-- Every handler answers with its number in the body, and the state counts the answers.
abbrev handle : ℕ → HttpRequest → ℕ → ℕ × Option HttpResponse
handle handler request answered =
    (answered + 1, some (record { status_code = 200; body = handler ∷ []; headers = [] }))

serve-parse_request_throws_example :
    serve handle handlers
      (codes "GET /metrics HTTP/1.1\r"
        ++ b'\n' ∷ print_headers headers ((codes "X-Empty" ++ b':' ∷ []) ++ b'\n' ∷ codes "\r\n"))
      7
    ≡ (7, none)
serve-parse_request_throws_example =
    serve-parse_request_throws handle handlers 7 (codes "GET /metrics HTTP/1.1\r") (codes "X-Empty")
      headers (codes "\r\n") (ground arith) (host-IsHeader, (authorization-IsHeader, tt))
      (ground arith) (ground arith) (omega arith)

abbrev traffic : List Event
traffic = accepts 5 ∷ accepts 6 ∷ works (codes "GET /x HTTP/1.1\r\n\r\n") ∷ accepts 5 ∷ []

-- A server that waits for its second connection.
abbrev started : List Lifecycle.Event
started =
    starts
    ∷ moved (listener listens none)
    ∷ moved (listener listens none)
    ∷ moved (listener listens (some 7))
    ∷ moved (listener listens none)
    ∷ []

abbrev last_turns : List Move
last_turns = listener listens (some 8) ∷ worker (codes "GET /") ∷ listener listens none ∷ []

abbrev before : Lifecycle ℕ ℕ
before = Lifecycle.run handle (lifecycle (http_server 2 handlers 0)) started

abbrev after : Lifecycle ℕ ℕ
after = join (moves handle (stop before) last_turns)

moves-stop_example :
    (after.running ≡ false)
    × (after.thread ≡ no_thread)
    × (after.listening ≡ false)
    × ((reached : List Event) × (length (accepted reached) ≤ 1)
        × (after.server ≡ Server.run handle before.server reached))
unfolding Lifecycle.run Lifecycle.step Lifecycle.start Lifecycle.move Lifecycle.run_server lifecycle
moves-stop_example =
    moves-stop handle (http_server 2 handlers 0) started last_turns refl (omega arith)

-- A server whose port is taken is never heard of again: it counts as running.
abbrev taken : Lifecycle ℕ ℕ
taken =
    Lifecycle.run handle (lifecycle (http_server 2 handlers 0))
      (starts ∷ moved (listener bind_failed none) ∷ starts ∷ moved (listener listens none) ∷ [])

taken_runs : (taken.running ≡ true) × (taken.thread ≡ ended)
unfolding Lifecycle.run Lifecycle.step Lifecycle.start Lifecycle.move Lifecycle.run_server lifecycle
taken_runs = (refl, refl)

-- A start while a stop waits for the thread ends the program.
restart_terminates :
    (Lifecycle.run handle
      (lifecycle (http_server 2 handlers 0))
      (starts ∷ stops ∷ starts ∷ [])).terminated
    ≡ true
unfolding Lifecycle.run Lifecycle.step Lifecycle.start Lifecycle.stop lifecycle
restart_terminates = refl
