-- ===== src/Ingestion/Json/Fields.antt =====
-- The fields of a metric that the one-pass parser reads, one pass of its loop each.
use systems_craft.Prelude.{
  ◌≡◌, refl, false, true, [], ◌∷◌, ◌++◌, Bytes, codes, skip_space, beq, insert, All,
}
use systems_craft.Metrics.{FloatOps, is_empty}
use systems_craft.Ingestion.Json.{
  Parser, scan_string, parse_string, step_looking, step_object, step_tags, read_tag, read_field,
  close_metric, step, type_of, in_tags_object, in_metric_object, in_metrics_array,
  looking_for_metrics,
}
use systems_craft.Ingestion.Json.Reads.{
  is_plain, scan_string-plain, IsNumber, number_end-IsNumber, beq-IsNumber, skip_space-IsNumber,
}

module _ {D : Type 0} (ops : FloatOps D) where
  -- In front of the array, a string that is not the field `"metrics"`.
  pub step-other_string :
      (p : Parser D) (text rest : Bytes)
      → All (λ c. is_plain c ≡ true) text
      → beq text (codes "metrics") ≡ false
      → step ops looking_for_metrics p b'"' (text ++ b'"' ∷ rest) ≡ record p { rest = rest }
  unfolding step step_looking parse_string
  step-other_string p text rest h other = rw (scan_string-plain [] text rest h) (rw other refl)

  pub step-metrics_field :
      (p : Parser D) (rest : Bytes)
      → step ops looking_for_metrics p b'"' (codes "metrics\": [" ++ rest)
        ≡ record p { state = in_metrics_array; rest = rest }
  unfolding step step_looking parse_string scan_string skip_space beq
  step-metrics_field p rest = refl

  pub step-name_field :
      (p : Parser D) (name rest : Bytes)
      → All (λ c. is_plain c ≡ true) name
      → step ops in_metric_object p b'"' (codes "name\": \"" ++ (name ++ b'"' ∷ rest))
        ≡ record p { metric_name = name; rest = rest }
  unfolding step step_object read_field parse_string scan_string skip_space beq
  step-name_field p name rest h = rw (scan_string-plain [] name rest h) refl

  pub step-value_field :
      (p : Parser D) (text rest : Bytes)
      → IsNumber text
      → step ops in_metric_object p b'"' (codes "value\": " ++ (text ++ b',' ∷ rest))
        ≡ record p { metric_value = ops.strtod (text ++ b',' ∷ rest); rest = b',' ∷ rest }
  unfolding step step_object read_field parse_string scan_string skip_space beq
  step-value_field p text rest h =
      rw (skip_space-IsNumber text rest h)
        (rw (number_end-IsNumber text rest h) (rw (beq-IsNumber text rest h) refl))

  pub step-type_field :
      (p : Parser D) (name rest : Bytes)
      → All (λ c. is_plain c ≡ true) name
      → step ops in_metric_object p b'"' (codes "type\": \"" ++ (name ++ b'"' ∷ rest))
        ≡ record p { metric_type = name; rest = rest }
  unfolding step step_object read_field parse_string scan_string skip_space beq
  step-type_field p name rest h = rw (scan_string-plain [] name rest h) refl

  -- The closing brace of a metric that has a name.
  pub step-close :
      (p : Parser D) (rest : Bytes)
      → is_empty p.metric_name ≡ false
      → step ops in_metric_object p b'}' rest ≡ record p {
        rest = rest;
        state = in_metrics_array;
        batch =
            p.batch
            ++ (record {
              name = p.metric_name;
              value = p.metric_value;
              type = type_of p.metric_type;
              tags = p.metric_tags;
            })
              ∷ [];
      }
  unfolding step step_object close_metric
  step-close p rest e = rw e refl

  pub step-tags_field :
      (p : Parser D) (rest : Bytes)
      → step ops in_metric_object p b'"' (codes "tags\": {" ++ rest)
        ≡ record p { state = in_tags_object; rest = rest }
  unfolding step step_object read_field parse_string scan_string skip_space beq
  step-tags_field p rest = refl

  pub step-tag :
      (p : Parser D) (key value rest : Bytes)
      → All (λ c. is_plain c ≡ true) key
      → All (λ c. is_plain c ≡ true) value
      → step ops in_tags_object p b'"' (key ++ (codes "\": \"" ++ (value ++ b'"' ∷ rest)))
        ≡ record p { metric_tags = insert key value p.metric_tags; rest = rest }
  unfolding step step_tags read_tag parse_string skip_space
  step-tag p key value rest h k =
      let read_key = scan_string-plain [] key (codes ": \"" ++ (value ++ b'"' ∷ rest)) h in
      let read_value = scan_string-plain [] value rest k in
      rw read_key (rw read_value (rw read_key refl))
