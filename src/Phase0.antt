-- ===== src/Phase0.antt =====
-- phase0/phase0_poc.cpp: the queue, the storage consumer and the query engine of the proof of
-- concept. `double` is the type parameter `D`, `long long` the parameter `I`. Each call of the
-- queue and each round of the storage thread is one step.
pub mod Storage
pub mod Runs
pub mod Server
pub mod Alerts
mod Tests
use systems_craft.Prelude.{
  after_prefix, find, ℕ, Bool, true, false, ◌&&◌, ◌||◌, List, [], ◌∷◌, ◌++◌, Option, none, some,
  Bytes, codes, lines, beq, ◌==◌, if◌then◌else◌, length,
}

-- The standard library on numbers: `<<` on streams, `std::stod` and `std::stoll`, which throw on
-- text without a number, and `<=`.
pub record NumberOps (D I : Type 0) : Type 0 where
  pub show_value : D → Bytes
  pub stod : Bytes → Option D
  pub show_time : I → Bytes
  pub stoll : Bytes → Option I
  pub time_le : I → I → Bool

pub record Metric (D I : Type 0) : Type 0 where
  pub name : Bytes
  pub value : D
  pub timestamp : I

-- `parse_metric` returns true with the metric, returns false, or throws.
pub data Parsed (D I : Type 0) : Type 0 where
  found : Metric D I → Parsed D I
  fails throws : Parsed D I

-- `find_first_of`: the text before the first byte that passes the test, and the text from it on.
pub until : (ℕ → Bool) → Bytes → Option (Bytes × Bytes)
until test [] = none
until test (c ∷ cs) =
    let later = until test cs in
    if test c
    then some ([], c ∷ cs)
    else elim later [ none ↦ none | some (before, rest) ↦ some (c ∷ before, rest) ]

abbrev pub is_quote : ℕ → Bool
is_quote c = c == b'"'

abbrev pub is_end : ℕ → Bool
is_end c = c == b',' || c == b'}'

abbrev pub name_key : Bytes
name_key = codes "\"name\":\""

abbrev pub value_key : Bytes
value_key = codes "\"value\":"

abbrev pub time_key : Bytes
time_key = codes "\"timestamp\":"

module _ {D I : Type 0} (ops : NumberOps D I) where
  pub to_json : Metric D I → Bytes
  to_json m =
      codes "{\"name\":\""
      ++ (m.name
          ++ (codes "\",\"value\":"
              ++ (ops.show_value m.value
                  ++ (codes ",\"timestamp\":" ++ (ops.show_time m.timestamp ++ codes "}")))))

  -- `parse_metric` from its search for the time stamp on.
  pub parse_time : Bytes → D → Bytes → Parsed D I
  parse_time name value rest = elim (find time_key rest) [
    | none ↦ fails
    | some text ↦ elim (until is_end text) [
      | none ↦ fails
      | some (number, _) ↦ elim (ops.stoll number) [
        | none ↦ throws
        | some time ↦ found (record { name = name; value = value; timestamp = time })
      ]
    ]
  ]

  -- `parse_metric` from its search for the value on.
  pub parse_value : Bytes → Bytes → Parsed D I
  unfolding parse_time
  parse_value name rest = elim (find value_key rest) [
    | none ↦ fails
    | some text ↦ elim (until is_end text) [
      | none ↦ fails
      | some (number, after) ↦ elim (ops.stod number) [
        | none ↦ throws
        | some value ↦ parse_time name value after
      ]
    ]
  ]

  pub parse_metric : Bytes → Parsed D I
  unfolding parse_value
  parse_metric line = elim (find name_key line) [
    | none ↦ fails
    | some text ↦ elim (until is_quote text) [
      | none ↦ fails
      | some (name, rest) ↦ parse_value name rest
    ]
  ]

  -- The filters of `query` and `query_all`.
  abbrev pub in_range : I → I → Metric D I → Bool
  in_range start_ts end_ts m = ops.time_le start_ts m.timestamp && ops.time_le m.timestamp end_ts

  abbrev pub in_query : Bytes → I → I → Metric D I → Bool
  in_query name start_ts end_ts m = beq m.name name && in_range start_ts end_ts m

  -- The loop over the lines; `none` when `parse_metric` throws.
  pub query_lines : (Metric D I → Bool) → List Bytes → Option (List (Metric D I))
  query_lines keep [] = some []
  query_lines keep (line ∷ lines) =
      let rest = query_lines keep lines in
      elim (parse_metric line) [
        | found m ↦ elim rest [
          | none ↦ none
          | some results ↦ some (if keep m then m ∷ results else results)
        ]
        | fails ↦ rest
        | throws ↦ none
      ]

  -- `file` is `none` where the file cannot be opened.
  pub query : Option Bytes → Bytes → I → I → Option (List (Metric D I))
  query none name start_ts end_ts = some []
  query (some text) name start_ts end_ts = query_lines (in_query name start_ts end_ts) (lines text)

  pub query_all : Option Bytes → I → I → Option (List (Metric D I))
  query_all none start_ts end_ts = some []
  query_all (some text) start_ts end_ts = query_lines (in_range start_ts end_ts) (lines text)

  -- MetricQueue and StorageConsumer: the queue, the file, and the flag of the thread.
  pub record StorageConsumer : Type 0 where
    pub queue : List (Metric D I)
    pub file : Option Bytes
    pub running : Bool

  pub push : Metric D I → StorageConsumer → StorageConsumer
  push metric s = record s { queue = s.queue ++ metric ∷ [] }

  pub try_pop : StorageConsumer → StorageConsumer × Option (Metric D I)
  try_pop s = elim s.queue [
    | [] ↦ (s, none)
    | metric ∷ rest ↦ (record s { queue = rest }, some metric)
  ]

  abbrev pub contents : Option Bytes → Bytes
  contents none = []
  contents (some text) = text

  -- A round of the loop while `running_`. `openable` says whether the file can be opened; a metric
  -- is lost where it cannot.
  pub worker_round : Bool → StorageConsumer → StorageConsumer
  unfolding try_pop
  worker_round openable s =
      let (s', popped) = try_pop s in
      if s.running
      then elim popped [
        | none ↦ s'
        | some metric ↦
            if openable
            then record s' { file = some (contents s.file ++ (to_json metric ++ b'\n' ∷ [])) }
            else s'
      ]
      else s
