-- ===== src/Ingestion/Service/Printed.antt =====
-- The text that serialize_metrics_batch_to_json writes for the metrics, read by the one-pass parser.
use systems_craft.Prelude.{
  ◌≡◌, refl, false, true, [], ◌∷◌, ◌++◌, arith, Bytes, codes, skip_space, beq, All, append_assoc,
  append-nil, map,
}
use systems_craft.Metrics.{
  MetricType, counter, gauge, histogram, summary, Metric, MetricBatch, is_empty,
}
use systems_craft.Ingestion.Json.{Parser, step, type_of, in_metric_object, in_metrics_array}
use systems_craft.Ingestion.Json.Reads.{is_plain, IsNumber, Yields, Yields-step, Yields-done}
use systems_craft.Ingestion.Json.Fields.{
  step-name_field, step-value_field, step-type_field, step-close,
}
use systems_craft.Ingestion.Service.{Env, type_name, metric_json, metrics_json}

type_of-type_name : (t : MetricType) → type_of (type_name t) ≡ t
unfolding beq
type_of-type_name counter = refl
type_of-type_name gauge = refl
type_of-type_name histogram = refl
type_of-type_name summary = refl

type_name-plain : (t : MetricType) → All (λ c. is_plain c ≡ true) (type_name t)
type_name-plain counter = ground arith
type_name-plain gauge = ground arith
type_name-plain histogram = ground arith
type_name-plain summary = ground arith

module _ {D K : Type 0} (env : Env D K) where
  -- What reaches the reader of a message: the value as printed, and no tags.
  abbrev pub transmitted : Metric D → Metric D
  transmitted m = record m { value = env.ops.strtod (env.ops.print m.value); tags = [] }

  -- `std::strtod` stops at the comma behind a number.
  abbrev pub StopsAtComma : Type 0
  StopsAtComma =
      (text rest : Bytes)
      → IsNumber text
      → env.ops.strtod (text ++ b',' ∷ rest) ≡ env.ops.strtod text

  -- A metric whose name needs no escape and whose value is printed as a number.
  pub record IsPlain (m : Metric D) : Type 0 where
    pub named : is_empty m.name ≡ false
    pub plain : All (λ c. is_plain c ≡ true) m.name
    pub number : IsNumber (env.ops.print m.value)

  -- The text of a metric in front of `rest`.
  metric_text : Metric D → Bytes → Bytes
  metric_text m rest =
      codes "\n    {\n      \"name\": \""
      ++ (m.name
          ++ (codes "\",\n      \"value\": "
              ++ (env.ops.print m.value
                  ++ (codes ",\n      \"type\": \""
                      ++ (type_name m.type ++ (codes "\"\n    }" ++ rest))))))

  metric_json-text : (m : Metric D) (rest : Bytes) → metric_json env m ++ rest ≡ metric_text m rest
  unfolding metric_json metric_text
  metric_json-text m rest = simp append_assoc

  -- The loop reads one metric.
  Yields-metric_text :
      (p : Parser D) (m : Metric D) (rest : Bytes) {batch : MetricBatch D}
      → StopsAtComma
      → IsPlain m
      → Yields env.ops
          (record {
            state = in_metrics_array;
            rest = rest;
            metric_name = m.name;
            metric_type = type_name m.type;
            metric_value = (transmitted m).value;
            metric_tags = [];
            batch = p.batch ++ transmitted m ∷ [];
          })
          batch
      → Yields env.ops (record p { state = in_metrics_array; rest = metric_text m rest }) batch
  unfolding metric_text step skip_space
  Yields-metric_text p m rest stops h y =
      let closing : Parser D = record {
        state = in_metric_object;
        rest = codes "\n    }" ++ rest;
        metric_name = m.name;
        metric_type = type_name m.type;
        metric_value = (transmitted m).value;
        metric_tags = [];
        batch = p.batch;
      } in
      Yields-step env.ops _ b'{' _ refl refl (
        Yields-step env.ops _ b'"' _ refl refl (
          rw (step-name_field env.ops _ m.name _ h.plain) (
            Yields-step env.ops _ b',' _ refl refl (
              Yields-step env.ops _ b'"' _ refl refl (
                rw (step-value_field env.ops _ (env.ops.print m.value) _ h.number) (
                  rw (stops (env.ops.print m.value) _ h.number) (
                    Yields-step env.ops _ b',' _ refl refl (
                      Yields-step env.ops _ b'"' _ refl refl (
                        rw (step-type_field env.ops _ (type_name m.type) _ (type_name-plain m.type))
                          (Yields-step env.ops _ b'}' _ refl refl (
                            rw (step-close env.ops closing rest h.named)
                              (rw (type_of-type_name m.type) y))))))))))))

  pub Yields-metrics_json :
      (p : Parser D) (batch : MetricBatch D)
      → StopsAtComma
      → All IsPlain batch
      → Yields env.ops
          (record p {
            state = in_metrics_array;
            rest = metrics_json env batch ++ codes "\n  ]\n}\n";
          })
          (p.batch ++ map transmitted batch)
  unfolding metrics_json step skip_space
  Yields-metrics_json p [] stops h =
      rw append-nil (Yields-step env.ops _ b']' _ refl refl (Yields-done env.ops _ refl))
  Yields-metrics_json p (m ∷ []) stops h = rw (metric_json-text m (codes "\n  ]\n}\n")) (
      Yields-metric_text p m _ stops h.0
        (Yields-step env.ops _ b']' _ refl refl (Yields-done env.ops _ refl)))
  Yields-metrics_json p (m ∷ m' ∷ batch) stops h =
      rw
        (
          append_assoc (metric_json env m) (codes "," ++ metrics_json env (m' ∷ batch))
              (codes "\n  ]\n}\n"),
          metric_json-text m,
        )
        (Yields-metric_text p m _ stops h.0 (
          Yields-step env.ops _ b',' _ refl refl (
            rw (← append_assoc p.batch (transmitted m ∷ []) (map transmitted (m' ∷ batch))) (
              Yields-metrics_json
                (record p {
                  metric_name = m.name;
                  metric_type = type_name m.type;
                  metric_value = (transmitted m).value;
                  metric_tags = [];
                  batch = p.batch ++ transmitted m ∷ [];
                })
                (m' ∷ batch) stops h.1))))
