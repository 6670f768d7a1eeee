-- ===== src/Pipeline/Tests.antt =====
-- A run of the pipeline: two requests, of which the rate limiter refuses the second, the writer,
-- and the consumer with a restart.
use systems_craft.Prelude.{
  ℕ, ◌+◌, ◌≡◌, refl, true, false, List, [], ◌∷◌, ◌++◌, arith, codes, length, to_string, skip_space,
  beq, is_digit, lookup, insert, map, replicate,
}
use systems_craft.Metrics.{validate_metric, validate_batch}
use systems_craft.RateLimiter.{
  RateLimiter, rate_limiter, allow_request, decide_queue, remove_old, client_queue,
}
use systems_craft.Http.{HttpRequest}
use systems_craft.Ingestion.Json.{
  parse_json_metrics_optimized, parse_loop, step, parse_string, number_end,
}
use systems_craft.Ingestion.Service.{
  Env, handle_metrics_post, accept_batch, queue_metrics_for_async_write,
}
use systems_craft.Pipeline.Delivered.{delivered-accepted_batches}
use systems_craft.Pipeline.Drains.{delivered-accepted_batches_all}
use systems_craft.Pipeline
use systems_craft.Pipeline.{
  Action, post, write, consume, restart, run, accepted_batches, of_partition, Written, fresh, Item,
}

-- Values are numbers, read as the number of digits; Kafka keeps a count.
abbrev env : Env ℕ ℕ
env = record {
  ops = record {
    is_nan = λ d. false;
    is_inf = λ d. false;
    zero_value = 0;
    strtod = λ text. length text;
    print = to_string;
  };
  hash = length;
  denied = λ path. false;
  clock_ms = 0;
  kafka_produce = λ k key message. (k + 1, true);
}

abbrev limiter : RateLimiter
limiter = rate_limiter 1

abbrev request : HttpRequest
request = record {
  method = codes "POST";
  path = codes "/metrics";
  body = codes "{\"metrics\":[{\"name\":\"cpu\",\"value\":75}]}";
  headers = (codes "Authorization", codes "alice") ∷ [];
}

abbrev actions : List Action
actions = consume 1 ∷ post request 100 ∷ restart ∷ post request 200 ∷ []

one_accepted :
    length (accepted_batches env (fresh env limiter 0 (codes "queue") (codes "g") 2) actions) ≡ 1
unfolding accepted_batches Pipeline.step handle_metrics_post accept_batch
    queue_metrics_for_async_write allow_request decide_queue remove_old client_queue lookup insert
    rate_limiter validate_batch validate_metric parse_json_metrics_optimized parse_loop step
    skip_space parse_string beq number_end is_digit
one_accepted = refl

delivered-accepted_batches_example :
    (front : List (Item ℕ)) × (rest : List (Item ℕ)) × (of_partition env 2 1
        (accepted_batches env (fresh env limiter 0 (codes "queue") (codes "g") 2) actions)
      ≡ front ++ rest)
    × Written env front
        ((run env (fresh env limiter 0 (codes "queue") (codes "g") 2) actions).delivered 1)
delivered-accepted_batches_example =
    delivered-accepted_batches env limiter 0 (codes "queue") (codes "g") 2 actions (omega arith)
      (omega arith) (omega arith, tt) 1

delivered-accepted_batches_all_example :
    Written env
      (of_partition env 2 1
        (accepted_batches env (fresh env limiter 0 (codes "queue") (codes "g") 2) actions))
      ((run env
          (fresh env limiter 0 (codes "queue") (codes "g") 2)
          (actions ++ (map write (1_700_000_000_000 ∷ []) ++ replicate 1 (consume 1)))).delivered
        1)
delivered-accepted_batches_all_example =
    delivered-accepted_batches_all env limiter 0 (codes "queue") (codes "g") 2 actions
      (1_700_000_000_000 ∷ []) 1 1 (omega arith) (omega arith) (omega arith, tt) (omega arith)
      (omega (arith, one_accepted)) (omega (arith, one_accepted))
