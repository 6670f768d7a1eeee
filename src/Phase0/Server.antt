-- ===== src/Phase0/Server.antt =====
-- The class IngestionServer of phase0/phase0_poc.cpp: what handle_client answers to the bytes that
-- it received. An exception leaves handle_client and nothing catches it:
-- the program ends.
pub mod Ingest
pub mod Loop
use systems_craft.Prelude.{
  after_prefix, find, ℕ, zero, suc, ◌+◌, Bool, true, false, ◌&&◌, List, [], ◌∷◌, ◌++◌, Option, none,
  some, Bytes, codes, beq, insert, lookup, skip_space, word, to_string, ◌==◌, if◌then◌else◌, length,
  take, drop,
}
use systems_craft.Phase0.{
  NumberOps, Metric, until, is_quote, is_end, name_key, value_key, to_json, query, StorageConsumer,
  push,
}

-- `parse_ingestion_json` returns true with name and value, returns false, or throws.
pub data Ingested (D : Type 0) : Type 0 where
  read : Bytes → D → Ingested D
  refused crashes : Ingested D

-- Behind the first byte.
abbrev pub tail : Bytes → Bytes
tail [] = []
tail (c ∷ cs) = cs

-- The text up to the byte 0, as the constructor from a C string takes it.
pub c_string : Bytes → Bytes
c_string [] = []
c_string (c ∷ cs) = let rest = c_string cs in if c == 0 then [] else c ∷ rest

-- `parse_query_params` from the question mark on. A pair takes at least one byte: `fuel` of the
-- text's length is enough.
unfoldable pub pairs : ℕ → Bytes → List (Bytes × Bytes) → List (Bytes × Bytes)
pairs zero query params = params
pairs (suc fuel) query params = elim (until (λ c. c == b'=') query) [
  | none ↦ params
  | some (key, at_equals) ↦ elim (until (λ c. c == b'&') at_equals) [
    | none ↦ insert key (tail at_equals) params
    | some (equals_value, at_and) ↦ pairs fuel (tail at_and) (insert key (tail equals_value) params)
  ]
]

unfoldable pub parse_query_params : Bytes → List (Bytes × Bytes)
parse_query_params url = elim (until (λ c. c == b'?') url) [
  | none ↦ []
  | some (before, at_mark) ↦ pairs (length at_mark) (tail at_mark) []
]

-- The lines of a response with the length that the code announces.
abbrev pub response : Bytes → Bytes → Bytes → Bytes
response status announced body =
    codes "HTTP/1.1 "
    ++ (status
        ++ (codes "\r\nContent-Type: application/json\r\nContent-Length: "
            ++ (announced ++ (codes "\r\n\r\n" ++ body))))

module _ {D I : Type 0} (ops : NumberOps D I) where
  -- The value is searched for from the beginning of the body.
  pub parse_ingestion_json : Bytes → Ingested D
  parse_ingestion_json body = elim (find name_key body) [
    | none ↦ refused
    | some text ↦ elim (until is_quote text) [
      | none ↦ refused
      | some (name, _) ↦ elim (find value_key body) [
        | none ↦ refused
        | some text' ↦ elim (until is_end text') [
          | none ↦ refused
          | some (number, _) ↦ elim (ops.stod number) [
            | none ↦ crashes
            | some value ↦ read name value
          ]
        ]
      ]
    ]
  ]

  abbrev pub answers : StorageConsumer ops → Bytes → Option (StorageConsumer ops × Bytes)
  answers s text = some (s, text)

  -- POST /metrics, at the time `now`.
  pub post_metrics : I → StorageConsumer ops → Bytes → Option (StorageConsumer ops × Bytes)
  post_metrics now s request = elim (find (codes "\r\n\r\n") request) [
    | none ↦ answers s (codes "HTTP/1.1 400 Bad Request\r\n\r\n")
    | some body ↦ elim (parse_ingestion_json body) [
      | read name value ↦
          answers (push ops (record { name = name; value = value; timestamp = now }) s)
            (response (codes "202 Accepted") (codes "21") (codes "{\"status\":\"accepted\"}"))
      | refused ↦ answers s (
          response (codes "400 Bad Request") (codes "30")
            (codes "{\"error\":\"invalid JSON format\"}"))
      | crashes ↦ none
    ]
  ]

  -- The results with a comma behind each but the last.
  unfoldable pub join_json : List (Metric D I) → Bytes
  join_json [] = []
  join_json (m ∷ []) = to_json ops m
  join_json (m ∷ m' ∷ ms) = to_json ops m ++ b',' ∷ join_json (m' ∷ ms)

  -- A bound of the query: `std::stoll` of the parameter if there is one.
  abbrev pub bound : Bytes → I → List (Bytes × Bytes) → Option I
  bound key default params = elim (lookup key params) [
    | none ↦ some default
    | some text ↦ ops.stoll text
  ]

  -- GET /query. `earliest` is 0 and `latest` is LLONG_MAX.
  unfoldable pub get_query :
      I → I → StorageConsumer ops → Bytes → Option (StorageConsumer ops × Bytes)
  get_query earliest latest s url =
      let params = parse_query_params url in
      let name : Bytes = elim (lookup (codes "name") params) [ none ↦ [] | some text ↦ text ] in
      elim (bound (codes "start") earliest params) [
        | none ↦ none
        | some start_ts ↦ elim (bound (codes "end") latest params) [
          | none ↦ none
          | some end_ts ↦ elim (query ops s.file name start_ts end_ts) [
            | none ↦ none
            | some results ↦
                let body = codes "[" ++ (join_json results ++ codes "]") in
                answers s (response (codes "200 OK") (to_string (length body)) body)
          ]
        ]
      ]

  unfoldable pub get_health : StorageConsumer ops → Bytes
  get_health s =
      let body =
        codes "{\"status\":\"healthy\",\"queue_size\":"
        ++ (to_string (length s.queue) ++ codes "}") in
      response (codes "200 OK") (to_string (length body)) body

  -- The buffer has room for 4095 bytes and the final 0. Nothing received: no answer, which is the
  -- empty text here.
  pub handle_client : I → I → I → StorageConsumer ops → Bytes → Option (StorageConsumer ops × Bytes)
  handle_client now earliest latest s [] = answers s []
  handle_client now earliest latest s (b ∷ bytes) =
      let request = c_string (take 4095 (b ∷ bytes)) in
      let (method, after) = word (skip_space request) in
      let (url, rest) = word (skip_space after) in
      if beq method (codes "POST") && beq url (codes "/metrics")
      then post_metrics now s request
      else if beq method (codes "GET")
          && elim (after_prefix (codes "/query") url) [ none ↦ false | some _ ↦ true ]
      then get_query earliest latest s url
      else if beq method (codes "GET") && beq url (codes "/health")
      then answers s (get_health s)
      else answers s
          (response (codes "404 Not Found") (codes "28") (codes "{\"error\":\"route not found\"}"))
