-- ===== src/RateLimiter/Tests.antt =====
-- Runs of the rate limiter on small inputs. Times are in nanoseconds.
use systems_craft.Prelude.{
  ℕ, ◌+◌, ◌≤◌, ◌≡◌, refl, ◌⊎◌, true, false, List, [], ◌∷◌, ◌++◌, arith, Bytes, codes, lookup,
  insert, get_or, beq,
}
use systems_craft.RateLimiter.{
  MetricEvent, ClientMetrics, RateLimiter, buffer_size, default_event, fresh_metrics, rate_limiter,
  get_client_mutex, client_queue, remove_old, decide_queue, write_event, metrics_of, allow_request,
  flush_client, flush_metrics,
}
use systems_craft.RateLimiter.Window.{window_decisions, decisions, decisions-eq-window_decisions}
use systems_craft.RateLimiter.Window.Bound.{admissions, count_window, admissions-le-max}
use systems_craft.RateLimiter.Ring.{
  Action, record_event, report, reports, queue_reports, reports-eq-queue_reports, flush_client_late,
}
use systems_craft.RateLimiter.Flush.{
  Tracks, ids_of, replace, sent_of, allow_request-Tracks, flush_metrics-sends,
}
use systems_craft.RateLimiter.Race.{Race, loads, advance, turn, take_turns}
use systems_craft.RateLimiter.Race.Schedules.{take_turns-loses}

abbrev alice : Bytes
alice = codes "alice"

abbrev bob : Bytes
bob = codes "bob"

abbrev calls : List (Bytes × ℕ)
calls =
    (alice, 100)
    ∷ (alice, 200)
    ∷ (alice, 300)
    ∷ (bob, 300)
    ∷ (alice, 1_000_000_099)
    ∷ (alice, 1_000_000_100)
    ∷ []

-- Two requests in a second: the third is refused, and a full second frees the first.
decisions-calls : decisions (rate_limiter 2) calls ≡ true ∷ true ∷ false ∷ true ∷ false ∷ true ∷ []
unfolding decisions rate_limiter allow_request client_queue remove_old decide_queue write_event
    metrics_of fresh_metrics lookup insert beq
decisions-calls = refl

decisions-eq-window_decisions_example :
    decisions (rate_limiter 2) calls ≡ window_decisions 2 [] calls
decisions-eq-window_decisions_example =
    decisions-eq-window_decisions 2 calls
      (omega arith, (omega arith, (omega arith, (omega arith, (omega arith, (omega arith, tt))))))

admissions-le-max_example :
    count_window 1_000_000_100 alice (admissions (decisions (rate_limiter 2) calls) calls) ≤ 2
admissions-le-max_example =
    admissions-le-max 2 calls 1_000_000_100 alice
      (omega arith, (omega arith, (omega arith, (omega arith, (omega arith, (omega arith, tt))))))

-- The slot of the mutex pool for a hash beyond its size.
mutex : get_client_mutex (λ id. 10_010) alice ≡ 3
unfolding get_client_mutex
mutex = refl

abbrev admitted_at : ℕ → MetricEvent
admitted_at now = record { timestamp = now; allowed = true }

abbrev actions : List Action
actions =
    record_event (admitted_at 100)
    ∷ record_event (admitted_at 200)
    ∷ report
    ∷ record_event (admitted_at 300)
    ∷ report
    ∷ report
    ∷ []

reported :
    queue_reports [] actions
    ≡ (admitted_at 100 ∷ admitted_at 200 ∷ []) ∷ (admitted_at 300 ∷ []) ∷ [] ∷ []
unfolding queue_reports
reported = refl

reports-eq-queue_reports_example : reports fresh_metrics actions ≡ queue_reports [] actions
reports-eq-queue_reports_example =
    reports-eq-queue_reports actions (omega arith, (omega arith, (omega arith, tt))) (omega arith)

-- 1003 events written, none reported.
abbrev late : ClientMetrics
late = record fresh_metrics { write_index = 1003 }

flush_client_late_example :
    get_or (flush_client late).1 2 default_event
    ≡ get_or (flush_client late).1 (2 + buffer_size) default_event
unfolding fresh_metrics
flush_client_late_example = flush_client_late late 2 (omega arith)

abbrev no_events : Bytes → List MetricEvent
no_events client = []

abbrev limiter : RateLimiter
limiter = rate_limiter 2

fresh-Tracks : Tracks limiter.client_metrics no_events
unfolding rate_limiter lookup
fresh-Tracks = record { distinct = tt; holds = λ c m e. absurd (cc e); unseen = λ c e. refl }

allow_request-Tracks_example : Tracks (allow_request limiter alice 100).0.client_metrics (
    replace alice
      (no_events alice
        ++ record { timestamp = 100; allowed = (allow_request limiter alice 100).1 } ∷ [])
      no_events)
unfolding rate_limiter metrics_of lookup fresh_metrics
allow_request-Tracks_example =
    allow_request-Tracks limiter no_events alice 100 fresh-Tracks (omega arith) (omega arith)

-- The limiter after one request, and its unreported event.
abbrev busy : RateLimiter
busy = (allow_request limiter alice 100).0

abbrev one_event : Bytes → List MetricEvent
one_event =
    replace alice
      (no_events alice
        ++ record { timestamp = 100; allowed = (allow_request limiter alice 100).1 } ∷ [])
      no_events

busy-Tracks : Tracks busy.client_metrics one_event
unfolding rate_limiter metrics_of lookup fresh_metrics
busy-Tracks =
    allow_request-Tracks limiter no_events alice 100 fresh-Tracks (omega arith) (omega arith)

flush_metrics-sends_example :
    ((flush_metrics busy).1 ≡ sent_of one_event (ids_of busy.client_metrics))
    × Tracks (flush_metrics busy).0.client_metrics (λ c. [])
flush_metrics-sends_example = flush_metrics-sends busy one_event busy-Tracks

abbrev both : Race
both = record { metrics = fresh_metrics; first = loads; second = loads }

abbrev earlier_event : MetricEvent
earlier_event = record { timestamp = 100; allowed = true }

abbrev later_event : MetricEvent
later_event = record { timestamp = 200; allowed = true }

take_turns-loses_example :
    ((take_turns earlier_event later_event
        (false ∷ false ∷ true ∷ true ∷ false ∷ true ∷ [])
        both).metrics
      ≡ write_event fresh_metrics earlier_event)
    ⊎ ((take_turns earlier_event later_event
          (false ∷ false ∷ true ∷ true ∷ false ∷ true ∷ [])
          both).metrics
        ≡ write_event fresh_metrics later_event)
unfolding take_turns turn advance
take_turns-loses_example =
    take_turns-loses fresh_metrics earlier_event later_event (false ∷ false ∷ true ∷ [])
      (true ∷ false ∷ true ∷ []) refl refl refl refl
