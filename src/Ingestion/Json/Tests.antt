-- ===== src/Ingestion/Json/Tests.antt =====
-- Runs of the one-pass parser. A value is the number of bytes that are left where it begins.
use systems_craft.Prelude.{
  ℕ, ◌≡◌, refl, false, [], ◌∷◌, some, All, Bytes, codes, length, to_string, skip_space, beq,
  is_digit, insert,
}
use systems_craft.Metrics.{MetricBatch, FloatOps, is_empty, gauge, counter}
use systems_craft.Ingestion.Json.{
  parse_json_metrics_optimized, parse_loop, step, parse_string, number_end,
}
use systems_craft.Ingestion.Json.Total.{parse_json_metrics_optimized_total}

abbrev ops : FloatOps ℕ
ops = record {
  is_nan = λ d. false;
  is_inf = λ d. false;
  zero_value = 0;
  strtod = λ text. length text;
  print = to_string;
}

abbrev body : Bytes
body =
    codes
      "{\"metrics\": [{\"name\": \"a\\\"b\", \"type\": \"counter\", \"tags\": {\"k\": \"v\"}}, {\"value\": 7}, {\"name\": \"c\"}]}"

-- An escape is taken up, the nameless metric is skipped, and no type means gauge.
parsed-body :
    parse_json_metrics_optimized ops body
    ≡ some (
        record {
          name = codes "a\"b";
          value = 0;
          type = counter;
          tags = (codes "k", codes "v") ∷ [];
        }
        ∷ record { name = codes "c"; value = 0; type = gauge; tags = [] }
        ∷ [])
unfolding parse_json_metrics_optimized parse_loop step skip_space parse_string beq number_end
    is_digit insert
parsed-body = refl

parse_json_metrics_optimized_total_example :
    (batch : MetricBatch ℕ) × (parse_json_metrics_optimized ops body ≡ some batch)
    × All (λ m. is_empty m.name ≡ false) batch
parse_json_metrics_optimized_total_example = parse_json_metrics_optimized_total ops body
