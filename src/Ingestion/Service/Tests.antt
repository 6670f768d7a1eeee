-- ===== src/Ingestion/Service/Tests.antt =====
-- Runs of the service on small inputs.
use systems_craft.Prelude.{
  read_digits-comma, ℕ, ◌+◌, ◌≡◌, ◌++◌, refl, true, false, [], ◌∷◌, arith, codes, length, to_string,
  skip_space, beq, is_digit, lookup, some, map, read_digits,
}
use systems_craft.Metrics.{MetricBatch, counter, gauge, validate_metric, validate_batch}
use systems_craft.RateLimiter.{rate_limiter, allow_request, decide_queue, remove_old, client_queue}
use systems_craft.Ingestion.Json.{
  parse_json_metrics_optimized, parse_loop, step, parse_string, number_end,
}
use systems_craft.Ingestion.Json.Reads.{to_string-IsNumber}
use systems_craft.Http.{HttpRequest}
use systems_craft.Ingestion.Service.Printed.{transmitted}
use systems_craft.Ingestion.Service.RoundTrip.{
  parse_json_metrics_optimized-serialize_metrics_batch_to_json,
}
use systems_craft.FileQueue.Producer.{partitioned_queue}
use systems_craft.Ingestion.Service.{
  serialize_metrics_batch_to_json, client_of, shut_down_writer, file_based, Env, Service, parsed,
  handle_metrics_post,
}
use systems_craft.Ingestion.Service.Writer.{rounds, shut_down_writer-loses}
use systems_craft.Ingestion.Service.Accounting.{
  Accounts, expected_status, handle_metrics_post-Accounts,
}

-- Values are numbers, read as the number of digits; Kafka keeps a count.
abbrev env : Env ℕ ℕ
env = record {
  ops = record {
    is_nan = λ d. false;
    is_inf = λ d. false;
    zero_value = 0;
    strtod = λ text. length text;
    print = to_string;
  };
  hash = length;
  denied = λ path. false;
  clock_ms = 1_700_000_000_000;
  kafka_produce = λ k key message. (k + 1, true);
}

abbrev service : Service ℕ ℕ
service = record {
  rate_limiter = rate_limiter 2;
  metrics_received = 0;
  batches_processed = 0;
  validation_errors = 0;
  rate_limited = 0;
  queue_mode = file_based;
  file_queue = partitioned_queue [] (codes "queue") 2;
  disk = [];
  kafka_producer = 0;
  write_queue = [];
  writer_running = true;
}

abbrev post : HttpRequest
post = record {
  method = codes "POST";
  path = codes "/metrics";
  body = codes "{\"metrics\":[{\"name\":\"cpu\",\"value\":75}]}";
  headers = (codes "Authorization", codes "alice") ∷ [];
}

post-expected_status : expected_status env service post 100 ≡ 200
unfolding allow_request decide_queue remove_old client_queue lookup rate_limiter validate_batch
    validate_metric parse_json_metrics_optimized parse_loop step skip_space parse_string beq
    number_end is_digit
post-expected_status = refl

length-parsed : length (parsed env post.body) ≡ 1
unfolding parse_json_metrics_optimized parse_loop step skip_space parse_string beq number_end
    is_digit
length-parsed = refl

handle_metrics_post-Accounts_example :
    Accounts env service post 100
      (handle_metrics_post env service post 100).0
      (handle_metrics_post env service post 100).1
      (expected_status env service post 100)
handle_metrics_post-Accounts_example =
    handle_metrics_post-Accounts env service post 100 refl (omega arith) (omega arith) (omega arith)
      (omega (arith, length-parsed))

shut_down_writer-loses_example :
    ((handle_metrics_post env service post 100).1.status_code ≡ 200)
    × ((rounds env 3 (shut_down_writer env (handle_metrics_post env service post 100).0)).disk
        ≡ service.disk)
    × ((rounds env 3
          (shut_down_writer env (handle_metrics_post env service post 100).0)).write_queue
        ≡ service.write_queue ++ (parsed env post.body, client_of env post) ∷ [])
shut_down_writer-loses_example =
    shut_down_writer-loses env 3 service post 100 refl (omega arith) (omega arith) (omega arith)
      (omega (arith, length-parsed)) post-expected_status

-- Values are read and printed in decimal.
abbrev decimal_env : Env ℕ ℕ
decimal_env = record env {
  ops = record {
    is_nan = λ d. false;
    is_inf = λ d. false;
    zero_value = 0;
    strtod = read_digits 0;
    print = to_string;
  };
}

abbrev two_metrics : MetricBatch ℕ
two_metrics =
    record { name = codes "cpu"; value = 75; type = gauge; tags = [] }
    ∷ record {
      name = codes "requests";
      value = 10_203;
      type = counter;
      tags = (codes "host", codes "a") ∷ [];
    }
    ∷ []

two_metrics-valid : (validate_batch decimal_env.ops two_metrics).valid ≡ true
unfolding validate_batch validate_metric
two_metrics-valid = refl

parse-serialize_example :
    parse_json_metrics_optimized decimal_env.ops
      (serialize_metrics_batch_to_json decimal_env two_metrics)
    ≡ some (map (transmitted decimal_env) two_metrics)
parse-serialize_example =
    parse_json_metrics_optimized-serialize_metrics_batch_to_json decimal_env two_metrics
      (λ text rest. λ h. read_digits-comma 0 text rest) (λ d a b. to_string-IsNumber d)
      two_metrics-valid (ground arith, (ground arith, tt))
