-- ===== src/Clients/Load.antt =====
-- load_test.cpp. What the kernel returns and the measured latencies are arguments; both threads'
-- writes to the statistics are atomic, so they are calls in some order.
use systems_craft.Prelude.{
  ℕ, ◌/◌, Bool, false, List, [], ◌∷◌, ◌++◌, Bytes, codes, ltb, to_string, length, if◌then◌else◌,
}
use systems_craft.Clients.{Stats, record_request, RatioOps, Report, Draw, json_body}

-- `LoadTestStats::print_stats`; the time since the start is in nanoseconds.
pub print_stats : {D : Type 0} → RatioOps D → Stats → ℕ → Report D
print_stats ops stats elapsed =
    let seconds = elapsed / 1_000_000_000 in
    record {
      duration = seconds;
      requests_per_second =
          if ltb 0 seconds then ops.ratio stats.total_requests seconds else ops.zero_value;
      avg_latency =
          if ltb 0 stats.total_requests
          then ops.ratio stats.total_latency stats.total_requests
          else ops.zero_value;
      success_rate =
          if ltb 0 stats.total_requests
          then ops.percent (ops.ratio stats.successful_requests stats.total_requests)
          else ops.zero_value;
    }

-- How the calls of one request go; `received` is 0 at the end of the stream, on an error and after
-- the timeout.
pub record Attempt : Type 0 where
  pub opens : Bool
  pub connects : Bool
  pub sends : Bool
  pub received : ℕ
  pub latency : ℕ

-- Whether an answer came, and the statistics.
unfoldable pub send_metric_request : Attempt → Stats → Bool × Stats
send_metric_request a stats =
    if a.opens
    then (let success =
          if a.connects then (if a.sends then ltb 0 a.received else false) else false in
        (success, record_request stats success a.latency))
    else (false, record_request stats false a.latency)

module _ {D : Type 0} (print : D → Bytes) where
  unfoldable pub generate_metrics : Bytes → Draw D → Bytes
  generate_metrics client_id draw =
      let body = json_body print draw in
      codes "POST /metrics HTTP/1.1\r\n"
      ++ (codes "Host: localhost\r\n"
          ++ (codes "Content-Type: application/json\r\n"
              ++ (codes "Authorization: "
                  ++ (client_id
                      ++ (codes "\r\n"
                          ++ (codes "Content-Length: "
                              ++ (to_string (length body)
                                  ++ (codes "\r\n" ++ (codes "\r\n" ++ body)))))))))

  -- The requests that were generated, and the statistics after them.
  unfoldable pub client_loop : Bytes → List (Draw D × Attempt) → Stats → List Bytes × Stats
  client_loop client_name [] stats = ([], stats)
  client_loop client_name ((draw, a) ∷ rest) stats =
      let request = generate_metrics client_name draw in
      let (success, after) = send_metric_request a stats in
      let (requests, last) = client_loop client_name rest after in (request ∷ requests, last)

  -- One pass for each of the requests of a client.
  unfoldable pub client_worker : ℕ → List (Draw D × Attempt) → Stats → List Bytes × Stats
  client_worker client_id rounds stats =
      client_loop (codes "load_client_" ++ to_string client_id) rounds stats
