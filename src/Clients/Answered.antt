-- ===== src/Clients/Answered.antt =====
-- A request of load_test.cpp on its way through the server: bytes received, request parser, table
-- of handlers, ingestion service, bytes written.
use systems_craft.Prelude.{
  ℕ, ◌+◌, ◌^◌, ◌<◌, ◌≤◌, ◌≡◌, refl, ap, ◌∙◌, true, [], ◌∷◌, ◌++◌, some, arith, Bytes, codes,
  take-all, lookup, insert, beq, length, to_string,
}
use systems_craft.Metrics.{MetricBatch}
use systems_craft.RateLimiter.{allow_request}
use systems_craft.Http.{
  HttpRequest, HttpResponse, handle_request, calls, add_handler, format_response,
}
use systems_craft.Http.Request.{parse_request}
use systems_craft.Ingestion.Json.Reads.{IsNumber}
use systems_craft.Ingestion.Service.{
  Env, Service, file_based, client_of, parsed, handle_metrics_post,
}
use systems_craft.Ingestion.Service.Accounting.{expected_status, handle_metrics_post-Accounts}
use systems_craft.Ingestion.Program.{answer, call, endpoints, metrics_post}
use systems_craft.Clients.Load
use systems_craft.Clients.Understood.{read_metrics}
use systems_craft.Clients.Requests.{Finite, client_worker-understood}
use systems_craft.Clients.{Draw}

handle_request-endpoints :
    (request : HttpRequest)
    → request.method ≡ codes "POST"
    → request.path ≡ codes "/metrics"
    → handle_request endpoints request ≡ calls metrics_post
unfolding handle_request endpoints add_handler lookup insert beq
handle_request-endpoints request m p = rw (p, m) refl

module _ {D K : Type 0} (env : Env D K) where
  -- What becomes of a text that is a POST request for the metrics.
  answer-post :
      (svc : Service D K) (text : Bytes) (request : HttpRequest) (now : ℕ)
      → 0 < length text
      → length text ≤ 4095
      → parse_request text ≡ some request
      → request.method ≡ codes "POST"
      → request.path ≡ codes "/metrics"
      → answer env svc text now
        ≡ some (
          (handle_metrics_post env svc request now).0,
          format_response (handle_metrics_post env svc request now).1,
        )
  unfolding answer call
  answer-post svc [] request now some_text fits e m p = absurd (omega arith)
  answer-post svc (c ∷ text) request now some_text fits e m p =
      rw (answer, take-all 4095 (c ∷ text) fits, e, handle_request-endpoints request m p) refl

  generate_metrics-pos :
      (name : Bytes) (draw : Draw D) → 0 < length (Load.generate_metrics env.ops.print name draw)
  unfolding Load.generate_metrics
  generate_metrics-pos name draw = omega arith

  -- A client of load_test.cpp whom the rate limiter admits gets the answer that the service makes
  -- for its request, with status 200, and the three metrics that it drew join the write queue, tags
  -- included, under the client's name, and are counted. The service takes batches to the file
  -- queue, and its counters have room; the request fits into the server's buffer; `std::strtod`
  -- stops at a comma, the CPU value is printed as a number, and the values read are finite.
  pub client_worker-answered :
      (svc : Service D K) (client_id now : ℕ) (draw : Draw D)
      → ((text rest : Bytes)
          → IsNumber text
          → env.ops.strtod (text ++ b',' ∷ rest) ≡ env.ops.strtod text)
      → IsNumber (env.ops.print draw.cpu)
      → Finite env.ops (read_metrics env.ops draw)
      → svc.queue_mode ≡ file_based
      → svc.rate_limited + 1 < 2 ^ 64
      → svc.validation_errors + 1 < 2 ^ 64
      → svc.batches_processed + 1 < 2 ^ 64
      → svc.metrics_received + 3 < 2 ^ 64
      → (allow_request svc.rate_limiter (codes "load_client_" ++ to_string client_id) now).1 ≡ true
      → length
          (Load.generate_metrics env.ops.print (codes "load_client_" ++ to_string client_id) draw)
        ≤ 4095
      → (after : Service D K) × (response : HttpResponse) × (answer env svc
            (Load.generate_metrics env.ops.print (codes "load_client_" ++ to_string client_id) draw)
            now
          ≡ some (after, format_response response))
        × (response.status_code ≡ 200)
        × (after.write_queue
            ≡ svc.write_queue
              ++ (read_metrics env.ops draw, codes "load_client_" ++ to_string client_id) ∷ [])
        × (after.metrics_received ≡ svc.metrics_received + 3)
  client_worker-answered svc client_id now draw stops number finite mode a b c d admitted fits =
      let name = codes "load_client_" ++ to_string client_id in
      let (request, read, is_post, path, client, metrics, valid) =
        client_worker-understood env client_id draw stops number finite in
      let status : expected_status env svc request now ≡ 200 = rw (client, admitted, valid) refl in
      let counted = ap length metrics in
      let item : Path (MetricBatch D × Bytes) (parsed env request.body, client_of env request)
          (read_metrics env.ops draw, name) =
        rw (metrics, client) refl in
      let done =
        handle_metrics_post-Accounts env svc request now mode a b c (omega (arith, d, counted)) in
      (
        (handle_metrics_post env svc request now).0,
        (handle_metrics_post env svc request now).1,
        answer-post svc _ request now (generate_metrics-pos name draw) fits read is_post path,
        done.answered ∙ status,
        done.queued ∙ rw status refl ∙ ap (λ i. svc.write_queue ++ i ∷ []) item,
        done.received ∙ rw status (omega (arith, counted)),
      )
