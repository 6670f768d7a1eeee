-- ===== src/Pipeline.antt =====
-- The service in file mode, its writer thread and a consumer over one directory: requests come in
-- over handle_metrics_post, the writer takes the batches to the file queue, and the consumer
-- processes the messages. Each call is one step, no file operation fails, and a file appears with its
-- whole content.
pub mod Posts
pub mod Simulates
pub mod Accepted
pub mod Delivered
pub mod Drains
mod Tests
use systems_craft.Prelude.{
  ℕ, ◌%◌, true, false, List, [], ◌∷◌, ◌++◌, Option, none, some, Bytes, ◌==◌, if◌then◌else◌,
}
use systems_craft.Metrics.{MetricBatch}
use systems_craft.RateLimiter.{RateLimiter}
use systems_craft.Http.{HttpRequest}
use systems_craft.FileQueue.Producer.{partitioned_queue}
use systems_craft.FileQueue.Consumer.{QueueConsumer, consume_partition, queue_consumer, start}
use systems_craft.FileQueue.Delivery.System.{Event, send, poll, restart_consumer, allowed, deliver}
use systems_craft.Ingestion.Service.{
  Env, Service, file_based, client_of, parsed, handle_metrics_post, serialize_metrics_batch_to_json,
  writer_round,
}

-- `delivered p` records the payloads that the consumer has processed and committed of partition `p`.
pub record Pipeline (D K : Type 0) : Type 0 where
  pub service : Service D K
  pub consumer : QueueConsumer
  pub delivered : ℕ → List Bytes

-- A request and the steady clock's reading, a round of the writer and the system clock's reading,
-- a round of the consumer's thread for a partition, and a restart of the consumer. The process may be
-- killed wherever no file is being written; a message that it has processed and not committed then
-- leaves no trace in this state, and comes again.
pub data Action : Type 0 where
  post : HttpRequest → ℕ → Action
  write : ℕ → Action
  consume : ℕ → Action
  restart : Action

-- A batch with its client.
abbrev pub Item : Type 0 → Type 0
Item D = MetricBatch D × Bytes

module _ {D K : Type 0} (env : Env D K) where
  -- The environment at this reading of the system clock.
  abbrev pub at : ℕ → Env D K
  at time = record env { clock_ms = time; denied = allowed }

  -- In file mode a request does not read the system clock.
  unfoldable pub step : Pipeline D K → Action → Pipeline D K
  step pipe (post request now) = record pipe {
    service = (handle_metrics_post (at 0) pipe.service request now).0;
  }
  step pipe (write time) = record pipe { service = writer_round (at time) pipe.service }
  step pipe (consume p) =
      let (c, d, msg) = consume_partition allowed pipe.consumer pipe.service.disk p in
      record pipe {
        service = record pipe.service { disk = d };
        consumer = c;
        delivered = deliver pipe.delivered msg;
      }
  step pipe restart = record pipe {
    consumer = start (
        queue_consumer pipe.service.disk pipe.consumer.queue_path pipe.consumer.consumer_group
          pipe.consumer.num_partitions);
  }

  unfoldable pub run : Pipeline D K → List Action → Pipeline D K
  run pipe [] = pipe
  run pipe (a ∷ actions) = run (step pipe a) actions

  -- The batches that are answered with status 200, in the order of the requests.
  abbrev pub answered : Service D K → HttpRequest → ℕ → List (Item D)
  answered svc request now =
      if (handle_metrics_post (at 0) svc request now).1.status_code == 200
      then (parsed env request.body, client_of env request) ∷ []
      else []

  pub accepted_batches : Pipeline D K → List Action → List (Item D)
  accepted_batches pipe [] = []
  accepted_batches pipe (post request now ∷ actions) =
      answered pipe.service request now ++ accepted_batches (step pipe (post request now)) actions
  accepted_batches pipe (write time ∷ actions) = accepted_batches (step pipe (write time)) actions
  accepted_batches pipe (consume p ∷ actions) = accepted_batches (step pipe (consume p)) actions
  accepted_batches pipe (restart ∷ actions) = accepted_batches (step pipe restart) actions

  -- Those that belong to partition `p` of `n`.
  pub of_partition : ℕ → ℕ → List (Item D) → List (Item D)
  of_partition n p [] = []
  of_partition n p ((batch, client_id) ∷ items) =
      if env.hash client_id % n == p
      then (batch, client_id) ∷ of_partition n p items
      else of_partition n p items

  -- The messages are the batches, each serialized at some time.
  pub data Written : List (Item D) → List Bytes → Type 0 where
    nil : Written [] []
    cons :
        {batch : MetricBatch D} {client_id : Bytes} {items : List (Item D)} {messages : List Bytes}
        (time : ℕ)
        → Written items messages
        → Written
            ((batch, client_id) ∷ items)
            (serialize_metrics_batch_to_json (at time) batch ∷ messages)

  -- A new service in file mode with `n` partitions and a consumer on an empty directory.
  abbrev pub fresh : RateLimiter → K → Bytes → Bytes → ℕ → Pipeline D K
  fresh limiter producer path group n = record {
    service = record {
      rate_limiter = limiter;
      metrics_received = 0;
      batches_processed = 0;
      validation_errors = 0;
      rate_limited = 0;
      queue_mode = file_based;
      file_queue = partitioned_queue [] path n;
      disk = [];
      kafka_producer = producer;
      write_queue = [];
      writer_running = true;
    };
    consumer = start (queue_consumer [] path group n);
    delivered = λ p. [];
  }

  -- What the actions amount to at the file queue.
  abbrev pub written : Service D K → ℕ → List Event
  written svc time =
      if svc.writer_running
      then elim svc.write_queue [
        | [] ↦ []
        | item ∷ rest ↦ send item.1 (serialize_metrics_batch_to_json (at time) item.0) ∷ []
      ]
      else []

  pub trace : Pipeline D K → List Action → List Event
  trace pipe [] = []
  trace pipe (post request now ∷ actions) = trace (step pipe (post request now)) actions
  trace pipe (write time ∷ actions) =
      written pipe.service time ++ trace (step pipe (write time)) actions
  trace pipe (consume p ∷ actions) = poll p ∷ trace (step pipe (consume p)) actions
  trace pipe (restart ∷ actions) = restart_consumer ∷ trace (step pipe restart) actions
