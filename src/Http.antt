-- ===== src/Http.antt =====
-- include/http_server.h and src/http_server.cpp: requests, responses, the table of handlers, and
-- the class HttpServer.
pub mod Dispatch
pub mod Response
pub mod Request
pub mod Server
pub mod Lifecycle
mod Tests
use systems_craft.Prelude.{
  ℕ, suc, ◌+◌, Bool, true, false, List, [], ◌∷◌, ◌++◌, Option, none, some, Bytes, codes, beq,
  lookup, insert, to_string, ◌==◌, if◌then◌else◌, length,
}

pub record HttpRequest : Type 0 where
  pub method : Bytes
  pub path : Bytes
  pub body : Bytes
  pub headers : List (Bytes × Bytes)

pub record HttpResponse : Type 0 where
  pub status_code : ℕ
  pub body : Bytes
  pub headers : List (Bytes × Bytes)

-- `HttpResponse response;`
abbrev pub new_response : HttpResponse
new_response = record { status_code = 200; body = []; headers = [] }

pub set_json_content : HttpResponse → HttpResponse
set_json_content r = record r {
  headers = insert (codes "Content-Type") (codes "application/json") r.headers;
}

-- `handlers_`, where a handler is named by a value of `H` and run by the caller.
abbrev pub Handlers {ℓ} : Type ℓ → Type ℓ
Handlers H = List (Bytes × List (Bytes × H))

-- A response that `handle_request` makes itself, or the handler that it calls.
pub data Routed {ℓ} (H : Type ℓ) : Type ℓ where
  answers : HttpResponse → Routed H
  calls : H → Routed H

module _ {ℓ} {H : Type ℓ} where
  -- `handlers_[path]`.
  abbrev pub methods_of : Bytes → Handlers H → List (Bytes × H)
  methods_of path handlers = elim (lookup path handlers) [ none ↦ [] | some methods ↦ methods ]

  unfoldable pub add_handler : Bytes → Bytes → H → Handlers H → Handlers H
  add_handler path method handler handlers =
      insert path (insert method handler (methods_of path handlers)) handlers

  unfoldable pub handle_request : Handlers H → HttpRequest → Routed H
  handle_request handlers request = elim (lookup request.path handlers) [
    | none ↦ answers (record { status_code = 404; body = codes "Not Found"; headers = [] })
    | some methods ↦ elim (lookup request.method methods) [
      | none ↦
          answers (record { status_code = 405; body = codes "Method Not Allowed"; headers = [] })
      | some handler ↦ calls handler
    ]
  ]

pub reason_phrase : ℕ → Bytes
reason_phrase status =
    if status == 200
    then codes "OK"
    else if status == 400
    then codes "Bad Request"
    else if status == 429
    then codes "Too Many Requests"
    else if status == 500
    then codes "Internal Server Error"
    else codes "Unknown"

abbrev pub crlf : Bytes
crlf = b'\r' ∷ b'\n' ∷ []

pub format_headers : List (Bytes × Bytes) → Bytes
format_headers [] = []
format_headers ((name, value) ∷ headers) =
    name ++ (codes ": " ++ (value ++ (crlf ++ format_headers headers)))

pub format_response : HttpResponse → Bytes
format_response r =
    codes "HTTP/1.1 "
    ++ (to_string r.status_code
        ++ (codes " "
            ++ (reason_phrase r.status_code
                ++ (crlf
                    ++ (codes "Content-Length: "
                        ++ (to_string (length r.body)
                            ++ (crlf ++ (format_headers r.headers ++ (crlf ++ r.body)))))))))

-- What `run_server` writes when the pool refuses the request.
pub overload_response : Bytes
overload_response =
    codes "HTTP/1.1 503 Service Unavailable\r\n"
    ++ (codes "Content-Type: application/json\r\n"
        ++ (codes "Content-Length: 47\r\n"
            ++ (crlf ++ codes "{\"error\":\"Server overloaded, try again later\"}")))
