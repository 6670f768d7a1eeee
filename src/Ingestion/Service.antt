-- ===== src/Ingestion/Service.antt =====
-- The class IngestionService: its HTTP handlers, its queue of batches and the writer thread. Each
-- call of a handler and each round of the writer is one atomic step. Log output is left out.
pub mod Accounting
pub mod Writer
pub mod Printed
pub mod RoundTrip
mod Tests
use systems_craft.Prelude.{
  ℕ, ◌+◌, ◌%◌, ◌^◌, Bool, true, false, not, ◌&&◌, List, [], ◌∷◌, ◌++◌, Option, none, some, Bytes,
  codes, lookup, to_string, if◌then◌else◌, length,
}
use systems_craft.Metrics.{
  MetricType, counter, gauge, histogram, summary, Metric, MetricBatch, FloatOps, is_empty,
  validate_batch,
}
use systems_craft.RateLimiter.{RateLimiter, allow_request}
use systems_craft.Http.{HttpRequest, HttpResponse, new_response, set_json_content}
use systems_craft.FileQueue.Disk.{Disk}
use systems_craft.FileQueue.Producer.{PartitionedQueue, produce}
use systems_craft.Ingestion.Json.{parse_json_metrics_optimized}

pub data QueueMode : Type 0 where
  file_based kafka : QueueMode

-- What the code around the service decides: the hash, the files that cannot be opened, the system
-- clock in milliseconds, and the Kafka producer, whose state is a value of `K`; its result is
-- whether the message was taken.
pub record Env (D K : Type 0) : Type 0 where
  pub ops : FloatOps D
  pub hash : Bytes → ℕ
  pub denied : Bytes → Bool
  pub clock_ms : ℕ
  pub kafka_produce : K → Bytes → Bytes → K × Bool

pub record Service (D K : Type 0) : Type 0 where
  pub rate_limiter : RateLimiter
  pub metrics_received : ℕ
  pub batches_processed : ℕ
  pub validation_errors : ℕ
  pub rate_limited : ℕ
  pub queue_mode : QueueMode
  pub file_queue : PartitionedQueue
  pub disk : Disk
  pub kafka_producer : K
  pub write_queue : List (MetricBatch D × Bytes)
  pub writer_running : Bool

pub create_error_response : Bytes → Bytes
create_error_response message = codes "{\"error\":\"" ++ (message ++ codes "\"}")

pub create_success_response : ℕ → Bytes
create_success_response metrics_count =
    codes "{\"success\":true,\"metrics_processed\":" ++ (to_string metrics_count ++ codes "}")

abbrev pub type_name : MetricType → Bytes
type_name counter = codes "counter"
type_name gauge = codes "gauge"
type_name histogram = codes "histogram"
type_name summary = codes "summary"

-- `++` on an atomic counter.
abbrev pub bump : ℕ → ℕ
bump n = (n + 1) % 2 ^ 64

module _ {D K : Type 0} (env : Env D K) where
  pub metric_json : Metric D → Bytes
  metric_json m =
      codes "\n    {\n      \"name\": \""
      ++ (m.name
          ++ (codes "\",\n      \"value\": "
              ++ (env.ops.print m.value
                  ++ (codes ",\n      \"type\": \"" ++ (type_name m.type ++ codes "\"\n    }")))))

  -- The loop over the metrics, a comma behind each but the last.
  pub metrics_json : MetricBatch D → Bytes
  metrics_json [] = []
  metrics_json (m ∷ []) = metric_json m
  metrics_json (m ∷ m' ∷ batch) = metric_json m ++ (codes "," ++ metrics_json (m' ∷ batch))

  pub serialize_metrics_batch_to_json : MetricBatch D → Bytes
  unfolding metrics_json metric_json
  serialize_metrics_batch_to_json batch =
      codes "\n{\n  \"batch_timestamp\": \""
      ++ (to_string env.clock_ms
          ++ (codes "\",\n  \"metrics\": [" ++ (metrics_json batch ++ codes "\n  ]\n}\n")))

  -- An exception of the file queue and a refusal by Kafka are caught and only logged.
  unfoldable pub store_metrics_to_queue : Service D K → MetricBatch D → Bytes → Service D K
  store_metrics_to_queue svc batch client_id =
      let message = serialize_metrics_batch_to_json batch in
      elim svc.queue_mode [
        | file_based ↦
            let (q, d, outcome) =
              produce env.denied env.hash svc.file_queue svc.disk client_id message in
            record svc { file_queue = q; disk = d }
        | kafka ↦
            let (k, taken) = env.kafka_produce svc.kafka_producer client_id message in
            record svc { kafka_producer = k }
      ]

  unfoldable pub queue_metrics_for_async_write : Service D K → MetricBatch D → Bytes → Service D K
  queue_metrics_for_async_write svc batch client_id = record svc {
    write_queue = svc.write_queue ++ (batch, client_id) ∷ [];
  }

  abbrev pub client_of : HttpRequest → Bytes
  client_of request = elim (lookup (codes "Authorization") request.headers) [
    | none ↦ codes "default"
    | some value ↦ value
  ]

  -- The parser has fuel for every text (Json.Total).
  abbrev pub parsed : Bytes → MetricBatch D
  parsed body = elim (parse_json_metrics_optimized env.ops body) [ none ↦ [] | some batch ↦ batch ]

  abbrev pub json_response : ℕ → Bytes → HttpResponse
  json_response status body = record (set_json_content new_response) {
    status_code = status;
    body = body;
  }

  -- The `try` block. Nothing in it throws: its `catch` is not modelled.
  unfoldable pub accept_batch : Service D K → MetricBatch D → Bytes → Service D K × HttpResponse
  accept_batch svc batch client_id =
      let result = validate_batch env.ops batch in
      if not result.valid
      then (
        record svc { validation_errors = bump svc.validation_errors },
        json_response 400 (create_error_response result.error_message),
      )
      else (let counted : Service D K = record svc {
        metrics_received = (svc.metrics_received + length batch) % 2 ^ 64;
        batches_processed = bump svc.batches_processed;
      } in
          (
            elim svc.queue_mode [
              | kafka ↦ store_metrics_to_queue counted batch client_id
              | file_based ↦ queue_metrics_for_async_write counted batch client_id
            ],
            json_response 200 (create_success_response (length batch)),
          ))

  -- `now` is the steady clock's reading in the rate limiter.
  unfoldable pub handle_metrics_post : Service D K → HttpRequest → ℕ → Service D K × HttpResponse
  handle_metrics_post svc request now =
      let client_id = client_of request in
      let (limiter, allowed) = allow_request svc.rate_limiter client_id now in
      let limited : Service D K = record svc { rate_limiter = limiter } in
      if not allowed
      then (
        record limited { rate_limited = bump svc.rate_limited },
        json_response 429 (create_error_response (codes "Rate limit exceeded")),
      )
      else accept_batch limited (parsed request.body) client_id

  pub handle_health_check : HttpResponse
  handle_health_check =
      json_response 200 (codes "{\"status\":\"healthy\",\"service\":\"ingestion\"}")

  pub handle_metrics_get : Service D K → HttpResponse
  handle_metrics_get svc = json_response 200 (
      codes "{\"metrics_received\":"
      ++ (to_string svc.metrics_received
          ++ (codes ",\"batches_processed\":"
              ++ (to_string svc.batches_processed
                  ++ (codes ",\"validation_errors\":"
                      ++ (to_string svc.validation_errors
                          ++ (codes ",\"rate_limited_requests\":"
                              ++ (to_string svc.rate_limited ++ codes "}"))))))))

  -- One batch taken and written by `async_writer_loop`; it waits while there is none, and ends
  -- when `writer_running` is off, whatever is queued.
  unfoldable pub writer_round : Service D K → Service D K
  writer_round svc =
      if svc.writer_running
      then elim svc.write_queue [
        | [] ↦ svc
        | item ∷ rest ↦ store_metrics_to_queue (record svc { write_queue = rest }) item.0 item.1
      ]
      else svc

  -- The destructor's part of it.
  pub shut_down_writer : Service D K → Service D K
  shut_down_writer svc = record svc { writer_running = false }
