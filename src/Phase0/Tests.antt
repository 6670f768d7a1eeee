-- ===== src/Phase0/Tests.antt =====
-- Runs of the proof of concept on small inputs. Values and times are numbers.
use systems_craft.Prelude.{
  false, ◌⊎◌, ◌/◌, ◌*◌, ◌-◌, ◌+◌, ltb, length, after_prefix, find, ℕ, ◌≡◌, refl, sym, ap, ◌∙◌, true,
  List, [], ◌∷◌, ◌++◌, map, append-nil, none, some, arith, Bytes, codes, All, to_string,
  to_string-All, is_digit, read_digits, read-to_string, read_digits-Stops, leb, replicate, beq,
  lines, insert, lookup,
}
use systems_craft.Phase0.{
  NumberOps, Metric, found, fails, parse_metric, to_json, query, query_all, query_lines, until,
}
use systems_craft.Phase0.Storage.{IsPlain, Reads, IsName, kept, parse_metric-to_json}
use systems_craft.Phase0.Server.{
  pairs, parse_query_params, response, join_json, get_query, get_health,
}
use systems_craft.Phase0.Server.Ingest.{IsPosted, print_post}
use systems_craft.Phase0.Server.Loop.{
  Post, accept_loop, round, metric_of, accepted, accept_loop-posted,
}
use systems_craft.Phase0.Runs.{
  Event, pushes, works, matching, wanted, run, started, pushed, query-run,
}
use systems_craft.Phase0.Alerts.{
  Arithmetic, AlertRule, Fires, mean, evaluate_rule, in_window, evaluate_rule-run, add_rule, start,
  worker_round, triggered, judge, sum_values, check_rules,
}

abbrev ops : NumberOps ℕ ℕ
ops = record {
  show_value = to_string;
  stod = λ text. some (read_digits 0 text);
  show_time = to_string;
  stoll = λ text. some (read_digits 0 text);
  time_le = leb;
}

abbrev same : ℕ → ℕ
same n = n

digits-IsPlain : (text : Bytes) → All (λ c. is_digit c ≡ true) text → IsPlain text
unfolding is_digit
digits-IsPlain [] h = record { no_end = tt; no_line = tt }
digits-IsPlain (c ∷ text) (d, h) =
    let rest = digits-IsPlain text h in
    record {
      no_end = (ground (arith, d), rest.no_end);
      no_line = (ground (arith, d), rest.no_line);
    }

reads_back : (n : ℕ) → read_digits 0 (to_string n) ≡ n
reads_back n =
    ap (read_digits 0) (sym (append-nil (to_string n)))
    ∙ read-to_string n []
    ∙ read_digits-Stops n [] tt

ops-Reads : Reads ops same
ops-Reads = record {
  plain_value = λ v. digits-IsPlain (to_string v) (to_string-All v);
  plain_time = λ t. digits-IsPlain (to_string t) (to_string-All t);
  reads_value = λ v. ap some (reads_back v);
  reads_time = λ t. ap some (reads_back t);
}

abbrev cpu : ℕ → ℕ → Metric ℕ ℕ
cpu value time = record { name = codes "cpu"; value = value; timestamp = time }

abbrev memory : Metric ℕ ℕ
memory = record { name = codes "memory"; value = 9; timestamp = 20 }

cpu-IsName : IsName (codes "cpu")
cpu-IsName = record { no_quote = ground arith; no_line = ground arith }

memory-IsName : IsName (codes "memory")
memory-IsName = record { no_quote = ground arith; no_line = ground arith }

abbrev events : List (Event ℕ ℕ)
events = pushes (cpu 50 10) ∷ works ∷ pushes memory ∷ pushes (cpu 60 30) ∷ pushes (cpu 70 99) ∷ []

-- A line without a time stamp is skipped.
no_time : parse_metric ops (codes "{\"name\":\"cpu\",\"value\":5}") ≡ fails
unfolding parse_metric find after_prefix until
no_time = refl

all_times :
    query_all ops (some (codes "x\n{\"name\":\"cpu\",\"value\":5,\"timestamp\":7}\n")) 0 7
    ≡ some (cpu 5 7 ∷ [])
unfolding query_all query_lines lines parse_metric find after_prefix until read_digits
all_times = refl

parse_metric-to_json_example :
    parse_metric ops (to_json ops (cpu 50 10)) ≡ found (kept ops same ops-Reads (cpu 50 10))
parse_metric-to_json_example = parse_metric-to_json ops same ops-Reads (cpu 50 10) cpu-IsName

query-run_example :
    query ops (run ops (started ops) (events ++ replicate 4 works)).file (codes "cpu") 0 30
    ≡ some (
        matching
          (wanted ops (codes "cpu") 0 30)
          (map (kept ops same ops-Reads) (pushed ops events)))
query-run_example =
    query-run ops same ops-Reads events 4 (codes "cpu") 0 30
      (cpu-IsName, (memory-IsName, (cpu-IsName, (cpu-IsName, tt)))) (omega arith)

-- The last value of a key stays, and a part without an equals sign goes to the next key.
params :
    parse_query_params (codes "/query?name=cpu&start=1&x&end=9&start=2")
    ≡ (codes "name", codes "cpu") ∷ (codes "start", codes "2") ∷ (codes "x&end", codes "9") ∷ []
unfolding parse_query_params pairs until insert beq
params = refl

-- The metrics of the file in the range of the query.
queried :
    get_query ops 0 1000
      (record { queue = []; file = some (to_json ops (cpu 50 10) ++ b'\n' ∷ []); running = true })
      (codes "/query?name=cpu&start=1")
    ≡ some (
      record { queue = []; file = some (to_json ops (cpu 50 10) ++ b'\n' ∷ []); running = true },
      response
          (codes "200 OK")
          (codes "42")
          (codes "[{\"name\":\"cpu\",\"value\":50,\"timestamp\":10}]"),
    )
unfolding get_query parse_query_params lookup until pairs insert beq query query_lines lines to_json
    to_string parse_metric find after_prefix join_json read_digits
queried = refl

health :
    get_health ops (record { queue = memory ∷ []; file = none; running = true })
    ≡ response (codes "200 OK") (codes "35") (codes "{\"status\":\"healthy\",\"queue_size\":1}")
unfolding get_health to_string
health = refl

cpu-IsPosted : IsPosted (codes "cpu") (codes "75")
cpu-IsPosted = record {
  no_quote = ground arith;
  no_end = ground arith;
  name_bytes = ground arith;
  number_bytes = ground arith;
}

-- The empty text is no number.
abbrev ops_or_none : NumberOps ℕ ℕ
ops_or_none = record ops {
  stod = λ text. elim text [ [] ↦ none | c ∷ cs ↦ some (read_digits 0 (c ∷ cs)) ];
}

abbrev header_lines : List Bytes
header_lines = codes "Host: localhost:8080" ∷ codes "Content-Length: 27" ∷ []

abbrev post : Post ops_or_none
post = record {
  time = 20;
  headers = header_lines;
  name = codes "cpu";
  number = codes "75";
  value = 75;
}

empty-IsPosted : IsPosted (codes "cpu") []
empty-IsPosted = record {
  no_quote = ground arith;
  no_end = tt;
  name_bytes = ground arith;
  number_bytes = tt;
}

accept_loop-posted_example :
    (accept_loop ops_or_none (map (round ops_or_none 0 1000) (post ∷ [])) (started ops_or_none, [])
      ≡ some (
        record (started ops_or_none) { queue = metric_of ops_or_none post ∷ [] },
        map (accepted ops_or_none) (post ∷ []),
      ))
    × (accept_loop ops_or_none
          (map (round ops_or_none 0 1000) (post ∷ [])
            ++ record {
              now = 30;
              earliest = 0;
              latest = 1000;
              received = some (print_post header_lines (codes "cpu") []);
            }
              ∷ [])
          (started ops_or_none, [])
        ≡ none)
unfolding read_digits
accept_loop-posted_example =
    accept_loop-posted ops_or_none 0 1000 30 (post ∷ []) header_lines (codes "cpu") [] []
      (started ops_or_none)
      (record { lines = ground arith; form = cpu-IsPosted; fits = omega arith; reads = refl }, tt)
      (ground arith) empty-IsPosted (omega arith) refl

abbrev whole : Arithmetic ℕ ℕ
whole = record {
  zero_sum = 0;
  add = λ a b. a + b;
  over = λ a n. a / n;
  above = λ a b. ltb b a;
  below = ltb;
  in_ms = λ s. s * 1000;
  minus = λ a b. a - b;
}

abbrev hot : AlertRule ℕ ℕ
hot = record {
  metric_name = codes "cpu";
  threshold = 40;
  condition = codes ">";
  window_seconds = 1;
}

evaluate_rule-run_example :
    (Fires ops whole hot (in_window ops whole same ops-Reads hot 30 events)
      × (evaluate_rule ops whole (run ops (started ops) (events ++ replicate 4 works)).file 30 hot
          ≡ some (
              some (record {
                rule = hot;
                avg = mean ops whole (in_window ops whole same ops-Reads hot 30 events);
                samples = length (in_window ops whole same ops-Reads hot 30 events);
              }))))
    ⊎ ((Fires ops whole hot (in_window ops whole same ops-Reads hot 30 events) → ⊥)
        × (evaluate_rule ops whole (run ops (started ops) (events ++ replicate 4 works)).file 30 hot
            ≡ some none))
evaluate_rule-run_example =
    evaluate_rule-run ops whole same ops-Reads events 4 hot 30
      (cpu-IsName, (memory-IsName, (cpu-IsName, (cpu-IsName, tt)))) (omega arith)

-- A rule of a started engine sees two samples.
hot_round :
    worker_round ops whole
      (λ i. (some (to_json ops (cpu 50 10) ++ (b'\n' ∷ to_json ops (cpu 70 20) ++ b'\n' ∷ [])), 30))
      (start (add_rule hot (record { rules = []; running = false })))
    ≡ some (record { rule = hot; avg = 60; samples = 2 } ∷ [])
unfolding worker_round start add_rule check_rules evaluate_rule judge triggered sum_values query
    query_lines lines to_json to_string parse_metric find after_prefix until read_digits beq
hot_round = refl
