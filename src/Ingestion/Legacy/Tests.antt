-- ===== src/Ingestion/Legacy/Tests.antt =====
-- The older parser on concrete texts. Values are natural numbers.
use systems_craft.Prelude.{
  ℕ, ◌≡◌, refl, Lacks, [], ◌∷◌, Option, none, some, arith, Bytes, codes, split, after_prefix,
  insert, beq, is_digit, is_space, read_digits, if◌then◌else◌,
}
use systems_craft.Metrics.{counter}
use systems_craft.Ingestion.Legacy.{
  index_of, find_byte, find_text, returns, throws, unfinished, extract_string_field,
  extract_numeric_field, tags_loop, extract_tags, parse_single_metric, objects_loop,
  parse_json_metrics,
}
use systems_craft.Ingestion.Legacy.Hangs.{closed, tags_loop-tag}
use systems_craft.Ingestion.Legacy.Positions.{tag}

abbrev stod : Bytes → Option ℕ
stod [] = none
stod (c ∷ cs) = if is_digit c then some (read_digits 0 (c ∷ cs)) else none

-- A body with two metrics.
two_metrics :
    parse_json_metrics stod 5 (
      codes
        "{\"metrics\": [{\"name\": \"cpu\", \"value\": 7, \"type\": \"counter\"}, {\"value\": x}]}")
    ≡ throws
unfolding parse_json_metrics objects_loop parse_single_metric extract_tags tags_loop
    extract_numeric_field extract_string_field find_byte find_text index_of split after_prefix
    is_digit read_digits is_space
two_metrics = refl

one_metric :
    parse_json_metrics stod 5 (
      codes
        "{\"metrics\": [{\"name\": \"cpu\", \"value\": 7, \"type\": \"counter\", \"tags\": {\"a\":\"b\"}}]}")
    ≡ returns (
        record { name = codes "cpu"; value = 7; type = counter; tags = (codes "a", codes "b") ∷ [] }
        ∷ [])
unfolding parse_json_metrics objects_loop parse_single_metric extract_tags tags_loop
    extract_numeric_field extract_string_field find_byte find_text index_of split after_prefix
    is_digit read_digits insert beq is_space
one_metric = refl

host_plain : Lacks b'"' (codes "host")
host_plain = (refl, (refl, (refl, (refl, tt))))

tags_loop-tag_example :
    (tags_loop 1 (tag (codes "host") (closed (codes "a"))) 0 []
      ≡ returns ((codes "host", codes "a") ∷ []))
    × ((fuel : ℕ) → tags_loop fuel (tag (codes "host") (codes "80")) 0 [] ≡ unfinished)
tags_loop-tag_example =
    tags_loop-tag (codes "host") (codes "a") (codes "80") host_plain (refl, tt) (refl, (refl, tt))
      (omega arith) (omega arith)
