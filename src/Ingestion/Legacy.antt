-- ===== src/Ingestion/Legacy.antt =====
-- IngestionService::parse_json_metrics and the functions that it calls, the parser that was used
-- before the one-pass one. Positions are numbers, `npos` is the largest one of 64 bits, and
-- `npos + 1` is 0. `std::stod` is the parameter `stod`; it throws where it is `none`.
pub mod Ends
pub mod Hangs
pub mod Positions
mod Tests
use systems_craft.Prelude.{
  ℕ, zero, suc, ◌+◌, ◌-◌, ◌%◌, ◌^◌, Bool, true, false, ◌&&◌, ◌||◌, not, List, [], ◌∷◌, ◌++◌, Option,
  none, some, Bytes, codes, split, insert, beq, is_space, is_digit, leb, ltb, ◌==◌, if◌then◌else◌,
  length, take, drop,
}
use systems_craft.Metrics.{MetricType, Tags, Metric, MetricBatch}
use systems_craft.Ingestion.Json.{type_of}

abbrev pub npos : ℕ
npos = 18446744073709551615

abbrev pub after : ℕ → ℕ
after pos = (pos + 1) % 2 ^ 64

abbrev pub is_npos : ℕ → Bool
is_npos pos = pos == npos

pub index_of : ℕ → Bytes → Option ℕ
index_of b [] = none
index_of b (c ∷ cs) =
    let later = index_of b cs in
    if c == b then some 0 else elim later [ none ↦ none | some i ↦ some (suc i) ]

-- `find` for one character from a position, which may be `npos`.
pub find_byte : ℕ → Bytes → ℕ → ℕ
unfolding index_of
find_byte b text pos = elim (index_of b (drop pos text)) [ none ↦ npos | some i ↦ pos + i ]

-- `find` for a text from the front.
pub find_text : Bytes → Bytes → ℕ
find_text pattern text = elim (split pattern text) [
  | none ↦ npos
  | some (before, _) ↦ length before
]

-- `substr` from a position inside the text.
abbrev pub substr : Bytes → ℕ → ℕ → Bytes
substr text pos count = take count (drop pos text)

-- What a call does: return, throw, or not end within the rounds given to its loop.
pub data Result {ℓ} (A : Type ℓ) : Type ℓ where
  returns : A → Result A
  throws unfinished : Result A

abbrev quoted : Bytes → Bytes
quoted field = b'"' ∷ (field ++ b'"' ∷ [])

pub extract_string_field : Bytes → Bytes → Bytes
unfolding find_text find_byte
extract_string_field json field =
    let field_pos = find_text (quoted field) json in
    let colon_pos = find_byte b':' json field_pos in
    let quote_start = find_byte b'"' json colon_pos in
    let quote_end = find_byte b'"' json (after quote_start) in
    if is_npos field_pos
    then []
    else if is_npos quote_start || is_npos quote_end
    then []
    else substr json (quote_start + 1) (quote_end - quote_start - 1)

abbrev drop_spaces : Bytes → Bytes
drop_spaces [] = []
drop_spaces (c ∷ cs) = if is_space c then drop_spaces cs else c ∷ cs

abbrev take_number : Bytes → Bytes
take_number [] = []
take_number (c ∷ cs) =
    let rest = take_number cs in if is_digit c || (c == b'.' || c == b'-') then c ∷ rest else []

pub extract_numeric_field {ℓ} : {D : Type ℓ} → (Bytes → Option D) → Bytes → Bytes → Option D
unfolding find_text find_byte
extract_numeric_field stod json field =
    let field_pos = find_text (quoted field) json in
    let number_start = after (find_byte b':' json field_pos) in
    if is_npos field_pos then none else stod (take_number (drop_spaces (drop number_start json)))

-- The loop of `extract_tags` from `pos` on, over at most so many rounds.
pub tags_loop : ℕ → Bytes → ℕ → Tags → Result Tags
unfolding find_byte
tags_loop zero tags_obj pos tags = if ltb pos (length tags_obj) then unfinished else returns tags
tags_loop (suc fuel) tags_obj pos tags =
    let key_start = find_byte b'"' tags_obj pos in
    let key_end = find_byte b'"' tags_obj (after key_start) in
    let colon = find_byte b':' tags_obj key_end in
    let value_start = find_byte b'"' tags_obj colon in
    let value_end = find_byte b'"' tags_obj (after value_start) in
    let key = substr tags_obj (key_start + 1) (key_end - key_start - 1) in
    let value = substr tags_obj (value_start + 1) (value_end - value_start - 1) in
    let found = not (is_npos key_end) && (not (is_npos value_start) && not (is_npos value_end)) in
    let rest =
      tags_loop fuel tags_obj (after value_end) (if found then insert key value tags else tags) in
    if ltb pos (length tags_obj)
    then (if is_npos key_start then returns tags else rest)
    else returns tags

pub extract_tags : ℕ → Bytes → Result Tags
unfolding find_text find_byte tags_loop
extract_tags fuel json =
    let tags_pos = find_text (codes "\"tags\"") json in
    let obj_start = find_byte b'{' json tags_pos in
    let obj_end = find_byte b'}' json obj_start in
    if is_npos tags_pos
    then returns []
    else if is_npos obj_start || is_npos obj_end
    then returns []
    else tags_loop fuel (substr json (obj_start + 1) (obj_end - obj_start - 1)) 0 []

module _ {D : Type 0} (stod : Bytes → Option D) where
  pub parse_single_metric : ℕ → Bytes → Result (Metric D)
  unfolding extract_string_field extract_numeric_field extract_tags
  parse_single_metric fuel metric_json =
      elim (extract_numeric_field stod metric_json (codes "value")) [
        | none ↦ throws
        | some value ↦ elim (extract_tags fuel metric_json) [
          | unfinished ↦ unfinished
          | throws ↦ throws
          | returns tags ↦ returns (record {
            name = extract_string_field metric_json (codes "name");
            value = value;
            type = type_of (extract_string_field metric_json (codes "type"));
            tags = tags;
          })
        ]
      ]

  -- The loop over the objects, over at most `rounds` rounds.
  pub objects_loop : ℕ → ℕ → Bytes → ℕ → MetricBatch D → Result (MetricBatch D)
  unfolding find_byte parse_single_metric
  objects_loop fuel zero metrics_array pos batch =
      if ltb pos (length metrics_array) then unfinished else returns batch
  objects_loop fuel (suc rounds) metrics_array pos batch =
      let obj_start = find_byte b'{' metrics_array pos in
      let obj_end = find_byte b'}' metrics_array obj_start in
      if ltb pos (length metrics_array)
      then (if is_npos obj_start || is_npos obj_end
          then returns batch
          else elim (parse_single_metric fuel
              (substr metrics_array obj_start (obj_end - obj_start + 1))) [
                | unfinished ↦ unfinished
                | throws ↦ throws
                | returns metric ↦
                    objects_loop fuel rounds metrics_array (obj_end + 1) (batch ++ metric ∷ [])
              ])
      else returns batch

  pub parse_json_metrics : ℕ → Bytes → Result (MetricBatch D)
  unfolding find_text find_byte objects_loop
  parse_json_metrics fuel json_body =
      let metrics_pos = find_text (codes "\"metrics\"") json_body in
      let array_start = find_byte b'[' json_body metrics_pos in
      let array_end = find_byte b']' json_body array_start in
      let metrics_array = substr json_body (array_start + 1) (array_end - array_start - 1) in
      if is_npos metrics_pos
      then throws
      else if is_npos array_start || is_npos array_end
      then throws
      else objects_loop fuel (length metrics_array) metrics_array 0 []
