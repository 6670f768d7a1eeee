-- ===== src/Clients/Requests.antt =====
-- The requests of both load testers at the server: the request parser, the JSON parser, and what
-- the ingestion service takes for the client's name.
use systems_craft.Prelude.{
  ◌≤◌, ℕ, ◌≡◌, refl, true, false, List, [], ◌∷◌, ◌++◌, some, arith, Bytes, codes, beq, is_digit,
  is_space, to_string, to_string-All, All, All-append, Lacks, get_or, lookup, insert, length,
  append_assoc,
}
use systems_craft.Metrics.{Metric, MetricBatch, FloatOps, is_empty, validate_batch}
use systems_craft.Metrics.Validity.{IsValidMetric, validate_batch-valid_iff}
use systems_craft.Http.{HttpRequest}
use systems_craft.Http.Request.{parse_request}
use systems_craft.Http.Request.RoundTrip.{
  IsHeader, EndsBefore, print_request, header_map, parse_request-print,
}
use systems_craft.Ingestion.Json.Reads.{IsNumber}
use systems_craft.Ingestion.Service.{Env, client_of, parsed}
use systems_craft.Clients.Understood.{read_metrics, parse-json_body}
use systems_craft.Clients.Load
use systems_craft.Clients.{
  cpu_value, cpu_host, cpu_region, memory_value, memory_host, requests_value, requests_host, Draw,
  hosts, regions, json_body,
}

-- The text has a last byte, and it is no line feed.
abbrev Closes : Bytes → Type 0
Closes text = EndsBefore b'\n' text × (is_empty text ≡ false)

Closes-append : (xs ys : Bytes) → Closes ys → Closes (xs ++ ys)
Closes-append [] ys h = h
Closes-append (x ∷ []) [] h = absurd (cc (h.1))
Closes-append (x ∷ []) (y ∷ ys) h = (h.0, refl)
Closes-append (x ∷ x' ∷ xs) ys h = ((Closes-append (x' ∷ xs) ys h).0, refl)

json_body-Closes : {D : Type 0} (print : D → Bytes) (draw : Draw D) → Closes (json_body print draw)
unfolding json_body
json_body-Closes print draw =
    let host = get_or hosts draw.host [] in
    let region = get_or regions draw.region [] in
    Closes-append cpu_value _ (
      Closes-append (print draw.cpu) _ (
        Closes-append cpu_host _ (
          Closes-append host _ (
            Closes-append cpu_region _ (
              Closes-append region _ (
                Closes-append memory_value _ (
                  Closes-append (to_string draw.memory) _ (
                    Closes-append memory_host _ (
                      Closes-append host _ (
                        Closes-append requests_value _ (
                          Closes-append (to_string draw.counter) _ (
                            Closes-append requests_host _
                              (Closes-append host _ (refl, refl))))))))))))))

digits-Lacks : (text : Bytes) → All (λ c. is_digit c ≡ true) text → Lacks b'\n' text
unfolding is_digit
digits-Lacks [] h = tt
digits-Lacks (c ∷ text) h = (ground (arith, h.0), digits-Lacks text h.1)

abbrev host_header : Bytes × Bytes
host_header = (codes "Host", codes "localhost")

abbrev type_header : Bytes × Bytes
type_header = (codes "Content-Type", codes "application/json")

abbrev length_header : Bytes → Bytes × Bytes
length_header body = (codes "Content-Length", to_string (length body))

-- The headers of load_test.cpp.
abbrev pub load_headers : Bytes → Bytes → List (Bytes × Bytes)
load_headers client_name body =
    host_header ∷ type_header ∷ (codes "Authorization", client_name) ∷ length_header body ∷ []

module _ {D : Type 0} (print : D → Bytes) where
  generate_metrics-print :
      (client_id : Bytes) (draw : Draw D)
      → Load.generate_metrics print client_id draw
        ≡ print_request
            (codes "POST")
            (codes "/metrics")
            (load_headers client_id (json_body print draw))
            (json_body print draw)
  unfolding Load.generate_metrics print_request
  generate_metrics-print client_id draw = simp append_assoc refl

  Lacks-name :
      (prefix : Bytes) (client_id : ℕ)
      → Lacks b'\n' prefix
      → Lacks b'\n' (prefix ++ to_string client_id)
  Lacks-name prefix client_id h =
      All-append _ prefix (to_string client_id) h
        (digits-Lacks (to_string client_id) (to_string-All client_id))

  headers-IsHeader :
      (client_name body : Bytes)
      → Lacks b'\n' client_name
      → All IsHeader (load_headers client_name body)
  headers-IsHeader client_name body h = (
    record { no_colon = ground arith; name_line = ground arith; value_line = ground arith },
    (
      record { no_colon = ground arith; name_line = ground arith; value_line = ground arith },
      (
        record { no_colon = ground arith; name_line = ground arith; value_line = h },
        (
          record {
            no_colon = ground arith;
            name_line = ground arith;
            value_line = digits-Lacks (to_string (length body)) (to_string-All (length body));
          },
          tt,
        ),
      ),
    ),
  )

  -- The server parses the request of a load tester into what was put together.
  pub parse_request-generate_metrics :
      (client_id : Bytes) (draw : Draw D)
      → Lacks b'\n' client_id
      → parse_request (Load.generate_metrics print client_id draw)
        ≡ some (record {
          method = codes "POST";
          path = codes "/metrics";
          body = json_body print draw;
          headers = header_map (load_headers client_id (json_body print draw)) [];
        })
  unfolding is_space
  parse_request-generate_metrics client_id draw h = rw (generate_metrics-print client_id draw) (
      parse_request-print (codes "POST") (codes "/metrics")
        (load_headers client_id (json_body print draw)) (json_body print draw) (ground arith)
        (ground arith) (λ e. absurd (cc e)) (λ e. absurd (cc e))
        (headers-IsHeader client_id (json_body print draw) h) (json_body-Closes print draw).0)

-- The values that the server reads are finite.
abbrev pub Finite : {D : Type 0} → FloatOps D → MetricBatch D → Type 0
Finite ops = All (λ m. (ops.is_nan m.value ≡ false) × (ops.is_inf m.value ≡ false))

module _ {D K : Type 0} (env : Env D K) where
  -- A request of client `client_id` of load_test.cpp is understood: the server's request parser
  -- reads it as a POST to /metrics, the ingestion service takes the client for the one it names, reads the three metrics
  -- that it drew with their tags, and lets the batch pass validation. `std::strtod` stops at a
  -- comma, the CPU value is printed as a number, and the values read are finite.
  pub client_worker-understood :
      (client_id : ℕ) (draw : Draw D)
      → ((text rest : Bytes)
          → IsNumber text
          → env.ops.strtod (text ++ b',' ∷ rest) ≡ env.ops.strtod text)
      → IsNumber (env.ops.print draw.cpu)
      → Finite env.ops (read_metrics env.ops draw)
      → (request : HttpRequest) × (parse_request
            (Load.generate_metrics env.ops.print (codes "load_client_" ++ to_string client_id) draw)
          ≡ some request)
        × (request.method ≡ codes "POST")
        × (request.path ≡ codes "/metrics")
        × (client_of env request ≡ codes "load_client_" ++ to_string client_id)
        × (parsed env request.body ≡ read_metrics env.ops draw)
        × ((validate_batch env.ops (parsed env request.body)).valid ≡ true)
  client_worker-understood client_id draw stops number finite = (
    _,
    parse_request-generate_metrics env.ops.print name draw
        (Lacks-name env.ops.print (codes "load_client_") client_id (ground arith)),
    refl,
    refl,
    (unfold lookup insert beq in refl),
    read,
    rw read (
        (validate_batch-valid_iff env.ops (read_metrics env.ops draw)).1
          (omega arith, omega arith, all_valid)),
  )
    where
      name : Bytes
      name = codes "load_client_" ++ to_string client_id

      read : parsed env (json_body env.ops.print draw) ≡ read_metrics env.ops draw
      read = rw (parsed, parse-json_body env.ops draw stops number) refl

      -- The three names are short.
      valid_metric :
          (m : Metric D)
          → 1 ≤ length m.name
          → length m.name ≤ 255
          → (env.ops.is_nan m.value ≡ false) × (env.ops.is_inf m.value ≡ false)
          → IsValidMetric env.ops m
      valid_metric m a b f = record { named = a; short = b; not_nan = f.0; not_inf = f.1 }

      all_valid : All (IsValidMetric env.ops) (read_metrics env.ops draw)
      all_valid = (
        valid_metric _ (omega arith) (omega arith) finite.0,
        (
          valid_metric _ (omega arith) (omega arith) finite.1.0,
          (valid_metric _ (omega arith) (omega arith) finite.1.1.0, tt),
        ),
      )
