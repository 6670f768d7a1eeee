-- ===== src/Http/Request.antt =====
-- HttpServer::parse_request, and that it reads back every well-formed request.
pub mod RoundTrip
use systems_craft.Prelude.{
  lines, word, ℕ, ◌+◌, Bool, true, false, List, [], ◌∷◌, ◌++◌, Option, none, some, Bytes, insert,
  is_space, skip_space, ◌||◌, ◌==◌, if◌then◌else◌, beq,
}
use systems_craft.Http.{HttpRequest}

-- The bytes before the first colon and those behind it, if there is one.
pub split_colon : Bytes → Option (Bytes × Bytes)
split_colon [] = none
split_colon (c ∷ cs) =
    if c == b':'
    then some ([], cs)
    else elim (split_colon cs) [ none ↦ none | some (key, rest) ↦ some (c ∷ key, rest) ]

-- `pop_back` of a last carriage return.
pub strip_last : ℕ → Bytes → Bytes
strip_last b [] = []
strip_last b (c ∷ []) = if c == b then [] else c ∷ []
strip_last b (c ∷ d ∷ cs) = c ∷ strip_last b (d ∷ cs)

-- `line.substr(colon_pos + 2)` without a last carriage return; `substr` throws when the colon is
-- the last byte.
pub header_value : Bytes → Option Bytes
header_value [] = none
header_value (c ∷ value) = some (strip_last b'\r' value)

-- The loop over the header lines; `none` is the exception. The lines of the body are left over.
pub read_headers : List Bytes → List (Bytes × Bytes) → Option (List (Bytes × Bytes) × List Bytes)
read_headers [] headers = some (headers, [])
read_headers (line ∷ rest) headers =
    if beq line (b'\r' ∷ []) || beq line [] then some (headers, rest) else elim (split_colon line) [
      | none ↦ read_headers rest headers
      | some (key, after) ↦ elim (header_value after) [
        | none ↦ none
        | some value ↦ read_headers rest (insert key value headers)
      ]
    ]

-- The body's lines, each with a newline behind it.
pub join_lines : List Bytes → Bytes
join_lines [] = []
join_lines (line ∷ rest) = line ++ b'\n' ∷ join_lines rest

-- The method and the path of the request line.
pub request_line : Bytes → Bytes × Bytes
request_line line =
    let (method, rest) = word (skip_space line) in
    let (path, rest') = word (skip_space rest) in (method, path)

pub build_request : Bytes → List Bytes → Option HttpRequest
build_request line rest = elim (read_headers rest []) [
  | none ↦ none
  | some (headers, body_lines) ↦ some (record {
    method = (request_line line).0;
    path = (request_line line).1;
    body = strip_last b'\n' (join_lines body_lines);
    headers = headers;
  })
]

abbrev first_line : List Bytes → Bytes
first_line [] = []
first_line (line ∷ rest) = line

abbrev later_lines : List Bytes → List Bytes
later_lines [] = []
later_lines (line ∷ rest) = rest

pub parse_request : Bytes → Option HttpRequest
parse_request raw = build_request (first_line (lines raw)) (later_lines (lines raw))
