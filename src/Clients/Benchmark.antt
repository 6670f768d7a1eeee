-- ===== src/Clients/Benchmark.antt =====
-- phase0/simple_benchmark.cpp. A latency is its number of nanoseconds; the source keeps it as a
-- double of milliseconds, which are in the same order. What the kernel returns is an argument.
use systems_craft.Prelude.{
  ℕ, ◌+◌, ◌-◌, ◌*◌, ◌%◌, ◌^◌, Bool, true, false, ◌||◌, List, [], ◌∷◌, ◌++◌, none, some, Bytes,
  codes, find, leb, ltb, length, to_string, get_or, take, if◌then◌else◌,
}
use systems_craft.Metrics.{is_empty}
use systems_craft.Phase0.Server.{c_string}

-- The global counters and `all_latencies`.
pub record Totals : Type 0 where
  pub total_requests_sent : ℕ
  pub total_requests_succeeded : ℕ
  pub all_latencies : List ℕ

-- How the calls of one request go; `received` is empty at the end, on an error, and where nothing
-- comes.
pub record Trip : Type 0 where
  pub opens : Bool
  pub connects : Bool
  pub sends : Bool
  pub received : Bytes
  pub latency : ℕ

pub benchmark_request : Bytes → ℕ → Bytes
benchmark_request host value =
    let body = codes "{\"name\":\"benchmark\",\"value\":" ++ (to_string value ++ codes "}") in
    codes "POST /metrics HTTP/1.1\r\n"
    ++ (codes "Host: "
        ++ (host
            ++ (codes "\r\n"
                ++ (codes "Content-Type: application/json\r\n"
                    ++ (codes "Content-Length: "
                        ++ (to_string (length body)
                            ++ (codes "\r\n" ++ (codes "\r\n" ++ body))))))))

abbrev pub holds : Bytes → Bytes → Bool
holds text pattern = elim (find pattern text) [ none ↦ false | some rest ↦ true ]

-- The string made from the buffer ends at its first byte 0.
unfoldable pub send_metric_request : Trip → Bool
send_metric_request t =
    let response = c_string (take 1023 t.received) in
    if t.opens
    then (if t.connects
        then (if t.sends
            then (if is_empty t.received
                then false
                else holds response (codes "202") || holds response (codes "200"))
            else false)
        else false)
    else false

-- One pass of the loop of `client_worker`.
pub count_trip : Totals → Trip → Totals
count_trip totals t =
    let sent : Totals = record totals {
      total_requests_sent = (totals.total_requests_sent + 1) % 2 ^ 32;
    } in
    if send_metric_request t
    then record sent {
      total_requests_succeeded = (totals.total_requests_succeeded + 1) % 2 ^ 32;
      all_latencies = totals.all_latencies ++ t.latency ∷ [];
    }
    else sent

unfoldable pub client_worker : List Trip → Totals → Totals
client_worker [] totals = totals
client_worker (t ∷ trips) totals = client_worker trips (count_trip totals t)

-- `std::sort`.
unfoldable pub insert_sorted : ℕ → List ℕ → List ℕ
insert_sorted x [] = x ∷ []
insert_sorted x (y ∷ ys) = if leb x y then x ∷ y ∷ ys else y ∷ insert_sorted x ys

unfoldable pub sort : List ℕ → List ℕ
sort [] = []
sort (x ∷ xs) = insert_sorted x (sort xs)

-- `rank percentile n` is `ceil(percentile / 100.0 * n)`, computed in doubles.
unfoldable pub calculate_percentile : (ℕ → ℕ → ℕ) → List ℕ → ℕ → ℕ
calculate_percentile rank sorted_data percentile =
    let size = length sorted_data in
    let index = (rank percentile size + (2 ^ 64 - 1)) % 2 ^ 64 in
    if is_empty sorted_data
    then 0
    else get_or sorted_data (if ltb index (size - 1) then index else size - 1) 0

-- The figures that `main` computes from the totals: those that failed, and three percentiles.
pub record Results : Type 0 where
  pub failed : ℕ
  pub p50 : ℕ
  pub p90 : ℕ
  pub p99 : ℕ

pub results : (ℕ → ℕ → ℕ) → ℕ → ℕ → Totals → Results
results rank num_clients requests_per_client totals = record {
  failed = (num_clients * requests_per_client) - totals.total_requests_succeeded;
  p50 = calculate_percentile rank (sort totals.all_latencies) 50;
  p90 = calculate_percentile rank (sort totals.all_latencies) 90;
  p99 = calculate_percentile rank (sort totals.all_latencies) 99;
}
