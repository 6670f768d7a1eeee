-- ===== src/Clients/Pieces.antt =====
-- Pieces of the load testers' bodies that the one-pass parser reads.
use systems_craft.Prelude.{
  ◌≡◌, refl, true, false, [], ◌∷◌, ◌++◌, Bytes, codes, skip_space, All, insert,
}
use systems_craft.Metrics.{MetricBatch, FloatOps, is_empty}
use systems_craft.Ingestion.Json.{
  Parser, step, type_of, in_metric_object, in_metrics_array, in_tags_object,
}
use systems_craft.Ingestion.Json.Reads.{is_plain, IsNumber, Yields, Yields-step}
use systems_craft.Ingestion.Json.Fields.{
  step-name_field, step-value_field, step-type_field, step-tags_field, step-tag, step-close,
}

module _ {D : Type 0} (ops : FloatOps D) where
  -- The text of a metric up to its tags.
  abbrev pub metric_head : Bytes → Bytes → Bytes → Bytes → Bytes
  metric_head name value type rest =
      codes "\n                {\n                    \"name\": \""
      ++ (name
          ++ (codes "\",\n                    \"value\": "
              ++ (value
                  ++ (codes ",\n                    \"type\": \""
                      ++ (type ++ (codes "\",\n                    \"tags\": {" ++ rest))))))

  -- The parser inside the tags of a metric with these fields.
  abbrev pub inside : MetricBatch D → Bytes → Bytes → Bytes → Bytes → Parser D
  inside batch name value type rest = record {
    state = in_tags_object;
    rest = rest;
    metric_name = name;
    metric_type = type;
    metric_value = ops.strtod value;
    metric_tags = [];
    batch = batch;
  }

  pub Yields-metric_head :
      (p : Parser D) (name value type rest : Bytes) {batch : MetricBatch D}
      → ((text rest' : Bytes) → IsNumber text → ops.strtod (text ++ b',' ∷ rest') ≡ ops.strtod text)
      → All (λ c. is_plain c ≡ true) name
      → IsNumber value
      → All (λ c. is_plain c ≡ true) type
      → Yields ops (inside p.batch name value type rest) batch
      → Yields ops
          (record p { state = in_metrics_array; rest = metric_head name value type rest })
          batch
  unfolding step skip_space
  Yields-metric_head p name value type rest stops hn hv ht y =
      let untagged : Parser D = record (inside p.batch name value type rest) {
        state = in_metric_object;
        rest = codes "\n                    \"tags\": {" ++ rest;
      } in
      Yields-step ops _ b'{' _ refl refl (
        Yields-step ops _ b'"' _ refl refl (
          rw (step-name_field ops _ name _ hn) (
            Yields-step ops _ b',' _ refl refl (
              Yields-step ops _ b'"' _ refl refl (
                rw (step-value_field ops _ value _ hv) (
                  rw (stops value _ hv) (
                    Yields-step ops _ b',' _ refl refl (
                      Yields-step ops _ b'"' _ refl refl (
                        rw (step-type_field ops _ type _ ht) (
                          Yields-step ops _ b',' _ refl refl (
                            Yields-step ops _ b'"' _ refl refl
                              (rw (step-tags_field ops untagged rest) y))))))))))))

  -- The braces behind the tags.
  pub Yields-metric_end :
      (p : Parser D) (rest : Bytes) {batch : MetricBatch D}
      → is_empty p.metric_name ≡ false
      → Yields ops
          (record p {
            state = in_metrics_array;
            rest = rest;
            batch =
                p.batch
                ++ (record {
                  name = p.metric_name;
                  value = p.metric_value;
                  type = type_of p.metric_type;
                  tags = p.metric_tags;
                })
                  ∷ [];
          })
          batch
      → Yields ops
          (record p { state = in_tags_object; rest = codes "}\n                }" ++ rest })
          batch
  unfolding step skip_space
  Yields-metric_end p rest named y =
      let open_metric : Parser D = record p {
        state = in_metric_object;
        rest = codes "\n                }" ++ rest;
      } in
      Yields-step ops _ b'}' _ refl refl
        (Yields-step ops _ b'}' _ refl refl (rw (step-close ops open_metric rest named) y))

  pub Yields-tag :
      (p : Parser D) (key value text rest : Bytes) {batch : MetricBatch D}
      → skip_space text ≡ b'"' ∷ (key ++ (codes "\": \"" ++ (value ++ b'"' ∷ rest)))
      → All (λ c. is_plain c ≡ true) key
      → All (λ c. is_plain c ≡ true) value
      → Yields ops
          (record p {
            state = in_tags_object;
            rest = rest;
            metric_tags = insert key value p.metric_tags;
          })
          batch
      → Yields ops (record p { state = in_tags_object; rest = text }) batch
  Yields-tag p key value text rest e hk hv y =
      let tags : Parser D = record p { state = in_tags_object; rest = text } in
      Yields-step ops tags b'"' _ refl e (rw (step-tag ops tags key value rest hk hv) y)
