-- ===== src/RateLimiter.antt =====
-- src/ingestion_service.cpp and include/ingestion_service.h: the class RateLimiter.
-- Each public call is one atomic step, but for those in Race; the steady clock's reading `now`, in
-- nanoseconds, is an argument, and `std::hash` is a parameter. Log output and profiling counters are
-- left out.
pub mod Window
pub mod Ring
pub mod Flush
pub mod Race
mod Tests
use systems_craft.Prelude.{
  ℕ, zero, suc, ◌+◌, ◌-◌, ◌/◌, ◌%◌, ◌^◌, Bool, true, false, List, [], ◌∷◌, ◌++◌, Option, none, some,
  Bytes, lookup, insert, leb, ltb, if◌then◌else◌, length, get_or, set, replicate, map,
}

-- One second of the steady clock, in nanoseconds.
abbrev pub second : ℕ
second = 1_000_000_000

abbrev pub buffer_size : ℕ
buffer_size = 1000

abbrev pub mutex_pool_size : ℕ
mutex_pool_size = 10007

pub record MetricEvent : Type 0 where
  pub timestamp : ℕ
  pub allowed : Bool

abbrev pub default_event : MetricEvent
default_event = record { timestamp = 0; allowed = false }

pub record ClientMetrics : Type 0 where
  pub ring_buffer : List MetricEvent
  pub write_index : ℕ
  pub read_index : ℕ

-- What `client_metrics_[id]` makes for a new id.
pub fresh_metrics : ClientMetrics
fresh_metrics = record {
  ring_buffer = replicate buffer_size default_event;
  write_index = 0;
  read_index = 0;
}

pub record RateLimiter : Type 0 where
  pub max_requests : ℕ
  pub client_requests : List (Bytes × List ℕ)
  pub client_metrics : List (Bytes × ClientMetrics)

unfoldable pub rate_limiter : ℕ → RateLimiter
rate_limiter max_requests_per_second = record {
  max_requests = max_requests_per_second;
  client_requests = [];
  client_metrics = [];
}

-- The index of the client's mutex in the pool.
pub get_client_mutex : (Bytes → ℕ) → Bytes → ℕ
get_client_mutex hash client_id = hash client_id % mutex_pool_size

-- The deque that `client_requests_[id]` refers to.
unfoldable pub client_queue : RateLimiter → Bytes → List ℕ
client_queue r client_id = elim (lookup client_id r.client_requests) [
  | none ↦ []
  | some queue ↦ queue
]

-- The `while` loop that pops timestamps at least one whole second old. A timestamp later than
-- `now` has a negative difference in the source, and stays, as it does here.
unfoldable pub remove_old : ℕ → List ℕ → List ℕ
remove_old now [] = []
remove_old now (oldest ∷ rest) =
    if leb 1 ((now - oldest) / second) then remove_old now rest else oldest ∷ rest

-- The decision on the cleaned queue.
unfoldable pub decide_queue : ℕ → List ℕ → ℕ → List ℕ × Bool
decide_queue max_requests queue now =
    if ltb (length queue) max_requests then (queue ++ now ∷ [], true) else (queue, false)

-- The ring buffer write and the publication of the new index.
pub write_event : ClientMetrics → MetricEvent → ClientMetrics
write_event m event = record m {
  ring_buffer = set m.ring_buffer (m.write_index % buffer_size) event;
  write_index = (m.write_index + 1) % 2 ^ 64;
}

pub metrics_of : RateLimiter → Bytes → ClientMetrics
metrics_of r client_id = elim (lookup client_id r.client_metrics) [
  | none ↦ fresh_metrics
  | some m ↦ m
]

unfoldable pub allow_request : RateLimiter → Bytes → ℕ → RateLimiter × Bool
allow_request r client_id now =
    let (queue, decision) =
      decide_queue r.max_requests (remove_old now (client_queue r client_id)) now in
    let event : MetricEvent = record { timestamp = now; allowed = decision } in
    (
      record r {
        client_requests = insert client_id queue r.client_requests;
        client_metrics =
            insert client_id (write_event (metrics_of r client_id) event) r.client_metrics;
      },
      decision,
    )

-- A line that `send_to_monitoring` writes.
pub record Sent : Type 0 where
  pub client : Bytes
  pub ms_since_epoch : ℕ
  pub allowed : Bool

pub send_to_monitoring : Bytes → MetricEvent → Sent
send_to_monitoring client_id event = record {
  client = client_id;
  ms_since_epoch = event.timestamp / 1_000_000;
  allowed = event.allowed;
}

-- `count` rounds of the loop over the ring from index `i`.
pub read_events : List MetricEvent → ℕ → ℕ → List MetricEvent
read_events ring zero i = []
read_events ring (suc count) i =
    get_or ring (i % buffer_size) default_event ∷ read_events ring count (i + 1)

-- The read of one client's events and the update of its read index.
pub flush_client : ClientMetrics → ClientMetrics × List MetricEvent
flush_client m =
    let events = read_events m.ring_buffer (m.write_index - m.read_index) m.read_index in
    (if ltb 0 (length events) then record m { read_index = m.write_index } else m, events)

pub flush_ids : List Bytes → RateLimiter → RateLimiter × List Sent
flush_ids [] r = (r, [])
flush_ids (client_id ∷ ids) r = elim (lookup client_id r.client_metrics) [
  | none ↦ flush_ids ids r
  | some m ↦
      let (m', events) = flush_client m in
      let (r', sent) =
        flush_ids ids (record r { client_metrics = insert client_id m' r.client_metrics }) in
      (r', map (send_to_monitoring client_id) events ++ sent)
]

pub flush_metrics : RateLimiter → RateLimiter × List Sent
flush_metrics r = flush_ids (map (λ e. e.0) r.client_metrics) r
