-- ===== src/Clients/Tests.antt =====
-- Runs of the load testers and of the benchmark.
use systems_craft.Prelude.{
  ℕ, ◌+◌, ◌*◌, ◌/◌, ◌≤◌, ◌<◌, ◌≡◌, refl, true, false, List, [], ◌∷◌, ◌++◌, some, arith, Bytes,
  codes, leb, ltb, length, to_string, read_digits, read_digits-comma, lookup, is_digit, beq,
}
use systems_craft.RateLimiter.{rate_limiter, allow_request, decide_queue, remove_old, client_queue}
use systems_craft.Http.{HttpResponse, format_response}
use systems_craft.Ingestion.Json.Reads.{to_string-IsNumber}
use systems_craft.Ingestion.Service.{Env, Service, file_based, kafka}
use systems_craft.Ingestion.Program.{ingestion_service, answer, read_options}
use systems_craft.Clients.Load
use systems_craft.Clients.Persistent.{Exchange, persistent_client_worker}
use systems_craft.Clients.Understood.{read_metrics}
use systems_craft.Clients.Answered.{client_worker-answered}
use systems_craft.Clients.Counted.{Adds}
use systems_craft.Clients.Lost.{leading, lost, waited, persistent_client_worker-Adds}
use systems_craft.Clients.Benchmark.{sort, insert_sorted, calculate_percentile}
use systems_craft.Clients.Percentile.{count, calculate_percentile-sort}
use systems_craft.Clients.{no_requests, Draw, json_body}

-- Values are numbers, read and printed in decimal.
abbrev env : Env ℕ ℕ
env = record {
  ops = record {
    is_nan = λ d. false;
    is_inf = λ d. false;
    zero_value = 0;
    strtod = read_digits 0;
    print = to_string;
  };
  hash = length;
  denied = λ path. false;
  clock_ms = 0;
  kafka_produce = λ k key message. (k + 1, true);
}

abbrev draw : Draw ℕ
draw = record { host = 2; region = 1; cpu = 55; memory = 2_000_000; counter = 17 }

-- The service of main.cpp with the arguments `8080 file`.
abbrev service : Service ℕ ℕ
service = ingestion_service (λ brokers. 1) 0 [] 10_000 4 file_based []

abbrev client_name : Bytes
client_name = codes "load_client_" ++ to_string 3

three_admitted : (allow_request service.rate_limiter client_name 100).1 ≡ true
unfolding ingestion_service allow_request decide_queue remove_old client_queue lookup rate_limiter
three_admitted = refl

request_fits : length (Load.generate_metrics env.ops.print client_name draw) ≤ 4095
unfolding Load.generate_metrics json_body to_string
request_fits = omega arith

client_worker-answered_example :
    (after : Service ℕ ℕ) × (response : HttpResponse) × (answer env service
        (Load.generate_metrics env.ops.print client_name draw)
        100
      ≡ some (after, format_response response))
    × (response.status_code ≡ 200)
    × (after.write_queue ≡ service.write_queue ++ (read_metrics env.ops draw, client_name) ∷ [])
    × (after.metrics_received ≡ service.metrics_received + 3)
unfolding ingestion_service
client_worker-answered_example =
    client_worker-answered env service 3 100 draw (λ text rest h. read_digits-comma 0 text rest)
      (to_string-IsNumber 55) ((refl, refl), ((refl, refl), ((refl, refl), tt))) refl (omega arith)
      (omega arith) (omega arith) (omega arith) three_admitted request_fits

-- The arguments of main.cpp.
read_options_runs :
    (read_options (λ text. some (read_digits 0 text)) (codes "9000" ∷ codes "kafka" ∷ [])
      ≡ some (record {
        port = 9000;
        queue_mode = kafka;
        kafka_brokers = codes "localhost:9092";
        kafka_topic = codes "metrics";
      }))
unfolding read_options read_digits is_digit beq
read_options_runs = refl

-- The connection ends at the second of three requests.
abbrev exchanges : List (Draw ℕ × Exchange)
exchanges =
    (draw, record { sends = true; received = 200; latency = 4 })
    ∷ (draw, record { sends = true; received = 0; latency = 9 })
    ∷ (draw, record { sends = true; received = 200; latency = 5 })
    ∷ []

persistent_client_worker-Adds_example :
    (leading env.ops.print exchanges + lost env.ops.print exchanges ≡ length exchanges)
    × Adds no_requests
        (persistent_client_worker env.ops.print true true 3 exchanges no_requests).1
        (leading env.ops.print exchanges)
        (lost env.ops.print exchanges)
        (waited env.ops.print exchanges)
persistent_client_worker-Adds_example =
    persistent_client_worker-Adds env.ops.print true true 3 exchanges no_requests
      (record { total = omega arith; successful = omega arith; failed = omega arith }) (omega arith)

lost_two : lost env.ops.print exchanges ≡ 2
unfolding lost
lost_two = refl

-- The smallest number that is at least `p * n / 100`.
abbrev ceiling : ℕ → ℕ → ℕ
ceiling p n = (p * n + 99) / 100

abbrev latencies : List ℕ
latencies = 30 ∷ 10 ∷ 50 ∷ 20 ∷ 40 ∷ []

sorted_latencies : sort latencies ≡ 10 ∷ 20 ∷ 30 ∷ 40 ∷ 50 ∷ []
unfolding sort insert_sorted
sorted_latencies = refl

calculate_percentile-sort_example :
    (90 * length latencies
      ≤ 100 * count (λ x. leb x (calculate_percentile ceiling (sort latencies) 90)) latencies)
    × (count (λ x. ltb x (calculate_percentile ceiling (sort latencies) 90)) latencies
        < ceiling 90 (length latencies))
calculate_percentile-sort_example =
    calculate_percentile-sort ceiling latencies 90 (omega arith) (omega arith) (omega arith)
      (omega arith) (omega arith) (omega arith)
