-- ===== src/Clients.antt =====
-- load_test.cpp and load_test_persistent.cpp, which keep the same statistics and send the same
-- bodies. `double` is the type parameter `D`; the draws of the random generator are arguments.
pub mod Load
pub mod Persistent
pub mod Pieces
pub mod Understood
pub mod Requests
pub mod Counted
pub mod Answered
pub mod Lost
pub mod Benchmark
pub mod Percentile
mod Tests
use systems_craft.Prelude.{
  ℕ, ◌+◌, ◌%◌, ◌^◌, ◌/◌, Bool, true, false, List, [], ◌∷◌, ◌++◌, Bytes, codes, ltb, to_string,
  get_or, if◌then◌else◌,
}

-- The counters of LoadTestStats, atomic numbers of 32 and 64 bits.
pub record Stats : Type 0 where
  pub total_requests : ℕ
  pub successful_requests : ℕ
  pub failed_requests : ℕ
  pub total_latency : ℕ

abbrev pub no_requests : Stats
no_requests = record {
  total_requests = 0;
  successful_requests = 0;
  failed_requests = 0;
  total_latency = 0;
}

-- `++` on an atomic int.
abbrev pub increment : ℕ → ℕ
increment n = (n + 1) % 2 ^ 32

pub record_request : Stats → Bool → ℕ → Stats
record_request stats success latency = record stats {
  total_requests = increment stats.total_requests;
  successful_requests =
      if success then increment stats.successful_requests else stats.successful_requests;
  failed_requests = if success then stats.failed_requests else increment stats.failed_requests;
  total_latency = (stats.total_latency + latency) % 2 ^ 64;
}

-- Arithmetic on doubles: the constant 0, the quotient of two integers, and `* 100`.
pub record RatioOps (D : Type 0) : Type 0 where
  pub zero_value : D
  pub ratio : ℕ → ℕ → D
  pub percent : D → D

-- The figures that print_stats shows.
pub record Report (D : Type 0) : Type 0 where
  pub duration : ℕ
  pub requests_per_second : D
  pub avg_latency : D
  pub success_rate : D

-- What a call of generate_metrics draws: two indices and three values.
pub record Draw (D : Type 0) : Type 0 where
  pub host : ℕ
  pub region : ℕ
  pub cpu : D
  pub memory : ℕ
  pub counter : ℕ

abbrev pub hosts : List Bytes
hosts = codes "web1" ∷ codes "web2" ∷ codes "db1" ∷ codes "db2" ∷ codes "cache1" ∷ []

abbrev pub regions : List Bytes
regions = codes "us-west" ∷ codes "us-east" ∷ codes "eu-west" ∷ codes "ap-south" ∷ []

-- The pieces of the raw string literal.
abbrev pub cpu_value : Bytes
cpu_value =
    codes
      "{\n            \"metrics\": [\n                {\n                    \"name\": \"cpu_usage\",\n                    \"value\": "

abbrev pub cpu_host : Bytes
cpu_host =
    codes ",\n                    \"type\": \"gauge\",\n                    \"tags\": {\"host\": \""

abbrev pub cpu_region : Bytes
cpu_region = codes "\", \"region\": \""

abbrev pub memory_value : Bytes
memory_value =
    codes
      "\"}\n                },\n                {\n                    \"name\": \"memory_usage\",\n                    \"value\": "

abbrev pub memory_host : Bytes
memory_host =
    codes ",\n                    \"type\": \"gauge\",\n                    \"tags\": {\"host\": \""

abbrev pub requests_value : Bytes
requests_value =
    codes
      "\"}\n                },\n                {\n                    \"name\": \"requests_total\",\n                    \"value\": "

abbrev pub requests_host : Bytes
requests_host =
    codes
      ",\n                    \"type\": \"counter\",\n                    \"tags\": {\"service\": \"api\", \"host\": \""

abbrev pub closing : Bytes
closing = codes "\"}\n                }\n            ]\n        }"

module _ {D : Type 0} (print : D → Bytes) where
  pub json_body : Draw D → Bytes
  json_body draw =
      let host = get_or hosts draw.host [] in
      let region = get_or regions draw.region [] in
      cpu_value
      ++ (print draw.cpu
          ++ (cpu_host
              ++ (host
                  ++ (cpu_region
                      ++ (region
                          ++ (memory_value
                              ++ (to_string draw.memory
                                  ++ (memory_host
                                      ++ (host
                                          ++ (requests_value
                                              ++ (to_string draw.counter
                                                  ++ (requests_host ++ (host ++ closing)))))))))))))
