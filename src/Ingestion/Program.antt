-- ===== src/Ingestion/Program.antt =====
-- The constructor of IngestionService, the handlers that it registers, and main.cpp. A request is
-- answered in one step here: the task of the HTTP server with the handler that it calls.
use systems_craft.Prelude.{
  ℕ, true, List, [], ◌∷◌, Option, none, some, Bytes, codes, take, beq, if◌then◌else◌,
}
use systems_craft.RateLimiter.{rate_limiter}
use systems_craft.Http.{
  HttpRequest, HttpResponse, Handlers, add_handler, answers, calls, handle_request, format_response,
}
use systems_craft.Http.Request.{parse_request}
use systems_craft.FileQueue.Disk.{Disk}
use systems_craft.FileQueue.Producer.{PartitionedQueue, partitioned_queue}
use systems_craft.Ingestion.Service.{
  QueueMode, file_based, kafka, Env, Service, handle_metrics_post, handle_health_check,
  handle_metrics_get,
}

pub data Endpoint : Type 0 where
  metrics_post health_check metrics_get : Endpoint

-- The calls of add_handler, in the order of the constructor.
unfoldable pub endpoints : Handlers Endpoint
endpoints = add_handler (codes "/metrics") (codes "GET") metrics_get (
    add_handler (codes "/health") (codes "GET") health_check
      (add_handler (codes "/metrics") (codes "POST") metrics_post []))

abbrev no_queue : PartitionedQueue
no_queue = record { base_path = []; num_partitions = 0; offsets = [] }

module _ {D K : Type 0} where
  -- `connect` makes a Kafka producer, and `absent` stands for none.
  unfoldable pub ingestion_service :
      (Bytes → K) → K → Disk → ℕ → ℕ → QueueMode → Bytes → Service D K
  ingestion_service connect absent disk rate_limit num_partitions mode kafka_brokers = record {
    rate_limiter = rate_limiter rate_limit;
    metrics_received = 0;
    batches_processed = 0;
    validation_errors = 0;
    rate_limited = 0;
    queue_mode = mode;
    file_queue = elim mode [
      | file_based ↦ partitioned_queue disk (codes "queue") num_partitions
      | kafka ↦ no_queue
    ];
    disk = disk;
    kafka_producer = elim mode [ file_based ↦ absent | kafka ↦ connect kafka_brokers ];
    write_queue = [];
    writer_running = true;
  }

  unfoldable pub call :
      Env D K → Endpoint → Service D K → HttpRequest → ℕ → Service D K × HttpResponse
  call env metrics_post svc request now = handle_metrics_post env svc request now
  call env health_check svc request now = (svc, handle_health_check env)
  call env metrics_get svc request now = (svc, handle_metrics_get env svc)

  abbrev printed : Service D K × HttpResponse → Option (Service D K × Bytes)
  printed (svc, response) = some (svc, format_response response)

  -- The bytes received are answered with the text; `none` is an exception, after which the
  -- connection gets no answer. Where nothing is received, nothing is written.
  unfoldable pub answer : Env D K → Service D K → Bytes → ℕ → Option (Service D K × Bytes)
  unfolding call
  answer env svc [] now = some (svc, [])
  answer env svc (c ∷ received) now = elim (parse_request (take 4095 (c ∷ received))) [
    | none ↦ none
    | some request ↦ elim (handle_request endpoints request) [
      | answers response ↦ some (svc, format_response response)
      | calls endpoint ↦ printed (call env endpoint svc request now)
    ]
  ]

-- What the command line of main.cpp sets.
pub record Options : Type 0 where
  pub port : ℕ
  pub queue_mode : QueueMode
  pub kafka_brokers : Bytes
  pub kafka_topic : Bytes

abbrev defaults : Options
defaults = record {
  port = 8080;
  queue_mode = file_based;
  kafka_brokers = codes "localhost:9092";
  kafka_topic = codes "metrics";
}

abbrev with_brokers : Options → List Bytes → Options
with_brokers options [] = options
with_brokers options (brokers ∷ []) = record options { kafka_brokers = brokers }
with_brokers options (brokers ∷ topic ∷ rest) = record options {
  kafka_brokers = brokers;
  kafka_topic = topic;
}

abbrev with_mode : Options → List Bytes → Options
with_mode options [] = options
with_mode options (mode ∷ rest) =
    if beq mode (codes "kafka")
    then with_brokers (record options { queue_mode = kafka }) rest
    else options

-- The arguments behind the program's name. `stoi` is `std::stoi`, and `none` its exception.
unfoldable pub read_options : (Bytes → Option ℕ) → List Bytes → Option Options
read_options stoi [] = some defaults
read_options stoi (port ∷ rest) = elim (stoi port) [
  | none ↦ none
  | some n ↦ some (with_mode (record defaults { port = n }) rest)
]

-- The service that `main` starts, with 10000 requests per second and four partitions.
pub main : {D K : Type 0} → (Bytes → K) → K → Disk → Options → Service D K
unfolding ingestion_service
main connect absent disk options =
    ingestion_service connect absent disk 10_000 4 options.queue_mode options.kafka_brokers
