-- ===== src/Ingestion/Json.antt =====
-- IngestionService::parse_json_metrics_optimized, the one-pass parser. The index `i` into the body
-- is the text from `i` on. The strings that a state only fills and moves out of are local here.
pub mod Shrinks
pub mod Named
pub mod Total
pub mod Reads
pub mod Fields
mod Tests
use systems_craft.Prelude.{
  ℕ, zero, suc, Bool, true, false, ◌&&◌, ◌||◌, List, [], ◌∷◌, ◌++◌, Option, none, some, Bytes,
  codes, insert, is_space, skip_space, is_digit, ◌==◌, if◌then◌else◌, beq, length, ◌+◌,
}
use systems_craft.Metrics.{
  MetricType, counter, gauge, histogram, summary, Tags, Metric, MetricBatch, FloatOps, is_empty,
}

pub data ParseState : Type 0 where
  looking_for_metrics in_metrics_array in_metric_object parsing_field_name : ParseState
  parsing_string_value parsing_number_value in_tags_object done : ParseState

-- The parser's variables; `rest` is the text that is not read yet.
pub record Parser (D : Type 0) : Type 0 where
  pub state : ParseState
  pub rest : Bytes
  pub metric_name : Bytes
  pub metric_type : Bytes
  pub metric_value : D
  pub metric_tags : Tags
  pub batch : MetricBatch D

-- Whether `parse_string` succeeded, what it read, and what follows.
pub record Scanned : Type 0 where
  pub ok : Bool
  pub result : Bytes
  pub after : Bytes

abbrev unescape : ℕ → ℕ
unescape c =
    if c == b'n' then b'\n' else if c == b't' then b'\t' else if c == b'r' then b'\r' else c

-- The loop of `parse_string` behind the opening quote.
pub scan_string : Bytes → Bytes → Scanned
scan_string result [] = record { ok = false; result = result; after = [] }
scan_string result (c ∷ []) =
    if c == b'"'
    then record { ok = true; result = result; after = [] }
    else record { ok = false; result = result ++ c ∷ []; after = [] }
scan_string result (c ∷ d ∷ cs) =
    let plain = scan_string (result ++ c ∷ []) (d ∷ cs) in
    let escaped = scan_string (result ++ unescape d ∷ []) cs in
    if c == b'"'
    then record { ok = true; result = result; after = d ∷ cs }
    else if c == b'\\'
    then escaped
    else plain

unfoldable pub parse_string : Bytes → Scanned
unfolding scan_string
parse_string [] = record { ok = false; result = []; after = [] }
parse_string (c ∷ cs) =
    if c == b'"' then scan_string [] cs else record { ok = false; result = []; after = c ∷ cs }

-- Digits and dots.
pub skip_number : Bytes → Bytes
skip_number [] = []
skip_number (c ∷ cs) = if is_digit c || c == b'.' then skip_number cs else c ∷ cs

abbrev pub skip_minus : Bytes → Bytes
skip_minus [] = []
skip_minus (c ∷ cs) = if c == b'-' then cs else c ∷ cs

-- The text behind a number. `strtod` itself reads from the number's start as far as it can.
unfoldable pub number_end : Bytes → Bytes
unfolding skip_number
number_end text = skip_number (skip_minus text)

-- A byte, where the text begins with it, and white space behind it.
abbrev pub expect : ℕ → Bytes → Option Bytes
expect b [] = none
expect b (c ∷ cs) = if c == b then some (skip_space cs) else none

abbrev pub type_of : Bytes → MetricType
type_of name =
    if beq name (codes "counter")
    then counter
    else if beq name (codes "histogram")
    then histogram
    else if beq name (codes "summary")
    then summary
    else gauge

module _ {D : Type 0} (ops : FloatOps D) where
  -- `i` moves to this text.
  abbrev to : Parser D → Bytes → Parser D
  to p text = record p { rest = text }

  -- Behind the field `"metrics"` and its colon.
  pub open_array : Parser D → Bytes → Parser D
  open_array p [] = to p []
  open_array p (c ∷ cs) =
      if c == b'[' then record p { rest = cs; state = in_metrics_array } else to p (c ∷ cs)

  pub step_looking : Parser D → ℕ → Bytes → Parser D
  unfolding open_array
  step_looking p c cs =
      if c == b'"'
      then (let field = parse_string (c ∷ cs) in
          if field.ok && beq field.result (codes "metrics")
          then elim (expect b':' (skip_space field.after)) [
            | none ↦ to p (skip_space field.after)
            | some text ↦ open_array p text
          ]
          else to p field.after)
      else to p cs

  pub step_array : Parser D → ℕ → Bytes → Parser D
  step_array p c cs =
      if c == b'{'
      then record p {
        rest = cs;
        state = in_metric_object;
        metric_name = [];
        metric_type = codes "gauge";
        metric_value = ops.zero_value;
        metric_tags = [];
      }
      else if c == b']'
      then record p { rest = c ∷ cs; state = done }
      else to p cs

  -- Behind the field `"tags"` and its colon.
  pub open_tags : Parser D → Bytes → Parser D
  open_tags p [] = to p []
  open_tags p (c ∷ cs) =
      if c == b'{' then record p { rest = cs; state = in_tags_object } else to p (c ∷ cs)

  -- The value of the field that was just named.
  pub read_field : Parser D → Bytes → Bytes → Parser D
  unfolding open_tags
  read_field p field text =
      if beq field (codes "name")
      then (let value = parse_string text in
          if value.ok
          then record p { metric_name = value.result; rest = value.after }
          else to p value.after)
      else if beq field (codes "type")
      then (let value = parse_string text in
          if value.ok
          then record p { metric_type = value.result; rest = value.after }
          else to p value.after)
      else if beq field (codes "value")
      then record p {
        metric_value = if beq (number_end text) text then ops.zero_value else ops.strtod text;
        rest = number_end text;
      }
      else if beq field (codes "tags")
      then open_tags p text
      else to p text

  -- `}`: the metric joins the batch if it has a name.
  pub close_metric : Parser D → Bytes → Parser D
  close_metric p cs =
      if is_empty p.metric_name
      then record p { rest = cs; state = in_metrics_array }
      else record p {
        rest = cs;
        state = in_metrics_array;
        batch =
            p.batch
            ++ (record {
              name = p.metric_name;
              value = p.metric_value;
              type = type_of p.metric_type;
              tags = p.metric_tags;
            })
              ∷ [];
      }

  pub step_object : Parser D → ℕ → Bytes → Parser D
  unfolding read_field close_metric
  step_object p c cs =
      if c == b'"'
      then (let field = parse_string (c ∷ cs) in
          if field.ok
          then elim (expect b':' (skip_space field.after)) [
            | none ↦ to p (skip_space field.after)
            | some text ↦ read_field p field.result text
          ]
          else to p field.after)
      else if c == b'}'
      then close_metric p cs
      else to p cs

  -- The value of a tag.
  pub read_tag : Parser D → Bytes → Bytes → Parser D
  read_tag p key text =
      let value = parse_string text in
      if value.ok
      then record p { metric_tags = insert key value.result p.metric_tags; rest = value.after }
      else to p value.after

  pub step_tags : Parser D → ℕ → Bytes → Parser D
  unfolding read_tag
  step_tags p c cs =
      if c == b'"'
      then (let key = parse_string (c ∷ cs) in
          if key.ok
          then elim (expect b':' (skip_space key.after)) [
            | none ↦ to p (skip_space key.after)
            | some text ↦ read_tag p key.result text
          ]
          else to p key.after)
      else if c == b'}'
      then record p { rest = cs; state = in_metric_object }
      else to p cs

  -- The switch, at the byte `c` in front of `cs`.
  unfoldable pub step : ParseState → Parser D → ℕ → Bytes → Parser D
  unfolding step_looking step_array step_object step_tags
  step looking_for_metrics p c cs = step_looking p c cs
  step in_metrics_array p c cs = step_array p c cs
  step in_metric_object p c cs = step_object p c cs
  step in_tags_object p c cs = step_tags p c cs
  step _ p c cs = to p cs

  abbrev is_done : ParseState → Bool
  is_done done = true
  is_done _ = false

  -- The `while` loop; `none` means that the fuel ran out.
  unfoldable pub parse_loop : ℕ → Parser D → Option (MetricBatch D)
  parse_loop zero p = none
  parse_loop (suc fuel) p = if is_done p.state then some p.batch else elim (skip_space p.rest) [
    | [] ↦ some p.batch
    | c ∷ cs ↦ parse_loop fuel (step p.state p c cs)
  ]

  abbrev pub initial : Bytes → Parser D
  initial json_body = record {
    state = looking_for_metrics;
    rest = json_body;
    metric_name = [];
    metric_type = codes "gauge";
    metric_value = ops.zero_value;
    metric_tags = [];
    batch = [];
  }

  unfoldable pub parse_json_metrics_optimized : Bytes → Option (MetricBatch D)
  parse_json_metrics_optimized json_body = parse_loop (length json_body + 2) (initial json_body)
