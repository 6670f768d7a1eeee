-- ===== src/Clients/Persistent.antt =====
-- load_test_persistent.cpp: a client with one connection for all its requests.
use systems_craft.Prelude.{
  ℕ, zero, suc, ◌/◌, Bool, true, false, List, [], ◌∷◌, ◌++◌, Bytes, codes, ltb, to_string, length,
  if◌then◌else◌,
}
use systems_craft.Clients.{Stats, record_request, RatioOps, Report, Draw, json_body}

-- `LoadTestStats::print_stats`; `per_thousand a b` is the double `a / (b / 1000.0)`.
pub print_stats : {D : Type 0} → RatioOps D → (ℕ → ℕ → D) → Stats → ℕ → Report D
print_stats ops per_thousand stats elapsed =
    let milliseconds = elapsed / 1_000_000 in
    record {
      duration = milliseconds;
      requests_per_second =
          if ltb 0 milliseconds
          then per_thousand stats.total_requests milliseconds
          else ops.zero_value;
      avg_latency =
          if ltb 0 stats.total_requests
          then ops.ratio stats.total_latency stats.total_requests
          else ops.zero_value;
      success_rate =
          if ltb 0 stats.total_requests
          then ops.percent (ops.ratio stats.successful_requests stats.total_requests)
          else ops.zero_value;
    }

-- One request over the connection; `received` is 0 where nothing more is received.
pub record Exchange : Type 0 where
  pub sends : Bool
  pub received : ℕ
  pub latency : ℕ

-- `n` requests that are not sent any more.
unfoldable pub record_failures : ℕ → Stats → Stats
record_failures zero stats = stats
record_failures (suc n) stats = record_failures n (record_request stats false 0)

module _ {D : Type 0} (print : D → Bytes) where
  pub generate_metrics : Bytes → Draw D → Bytes
  generate_metrics client_id draw =
      let body = json_body print draw in
      codes "POST /metrics HTTP/1.1\r\n"
      ++ (codes "Host: localhost\r\n"
          ++ (codes "Content-Type: application/json\r\n"
              ++ (codes "Authorization: "
                  ++ (client_id
                      ++ (codes "\r\n"
                          ++ (codes "Connection: keep-alive\r\n"
                              ++ (codes "Content-Length: "
                                  ++ (to_string (length body)
                                      ++ (codes "\r\n" ++ (codes "\r\n" ++ body))))))))))

  -- The loop over the requests, which the first failure ends.
  unfoldable pub request_loop : Bytes → List (Draw D × Exchange) → Stats → List Bytes × Stats
  request_loop client_name [] stats = ([], stats)
  request_loop client_name ((draw, x) ∷ rest) stats =
      let request = generate_metrics client_name draw in
      let (requests, last) = request_loop client_name rest (record_request stats true x.latency) in
      let failed : Stats = record_failures (length rest) (record_request stats false x.latency) in
      if x.sends
      then (if ltb 0 x.received then (request ∷ requests, last) else (request ∷ [], failed))
      else (request ∷ [], failed)

  -- `opens` and `connects` are the results of `socket` and `connect`.
  unfoldable pub persistent_client_worker :
      Bool → Bool → ℕ → List (Draw D × Exchange) → Stats → List Bytes × Stats
  unfolding request_loop record_failures
  persistent_client_worker opens connects client_id rounds stats =
      if opens
      then (if connects
          then request_loop (codes "persistent_client_" ++ to_string client_id) rounds stats
          else ([], record_failures (length rounds) stats))
      else ([], record_failures (length rounds) stats)
