-- ===== src/Ingestion/Service/RoundTrip.antt =====
-- serialize_metrics_batch_to_json and parse_json_metrics_optimized against each other.
use systems_craft.Prelude.{
  ◌≤◌, ◌≡◌, refl, false, true, [], ◌∷◌, some, arith, Bytes, codes, skip_space, beq, is_digit,
  to_string, to_string-All, All, map, length,
}
use systems_craft.Metrics.{MetricBatch, is_empty, validate_batch}
use systems_craft.Metrics.Validity.{IsValidMetric, validate_batch-valid_iff}
use systems_craft.Ingestion.Json.{initial, step, parse_json_metrics_optimized}
use systems_craft.Ingestion.Json.Reads.{is_plain, IsNumber, Yields-step, parse-Yields}
use systems_craft.Ingestion.Json.Fields.{step-other_string, step-metrics_field}
use systems_craft.Ingestion.Service.Printed.{
  transmitted, StopsAtComma, IsPlain, Yields-metrics_json,
}
use systems_craft.Ingestion.Service.{Env, serialize_metrics_batch_to_json}

module _ {D K : Type 0} (env : Env D K) where
  -- A number is no field of the parser's.
  number_other :
      (text : Bytes) → All (λ c. is_digit c ≡ true) text → beq text (codes "metrics") ≡ false
  unfolding is_digit beq
  number_other [] h = refl
  number_other (c ∷ text) h = ground (arith, h.0)

  number_plain :
      (text : Bytes) → All (λ c. is_digit c ≡ true) text → All (λ c. is_plain c ≡ true) text
  unfolding is_digit
  number_plain [] h = tt
  number_plain (c ∷ text) h = (ground (arith, h.0), number_plain text h.1)

  -- `std::to_string` prints a finite value as a number.
  abbrev pub PrintsNumbers : Type 0
  PrintsNumbers =
      (d : D) → env.ops.is_nan d ≡ false → env.ops.is_inf d ≡ false → IsNumber (env.ops.print d)

  IsValidMetric-IsPlain :
      (batch : MetricBatch D)
      → PrintsNumbers
      → All (IsValidMetric env.ops) batch
      → All (λ m. All (λ c. is_plain c ≡ true) m.name) batch
      → All (IsPlain env) batch
  IsValidMetric-IsPlain [] prints v h = tt
  IsValidMetric-IsPlain (m ∷ batch) prints v h = (
    record {
      named = nonempty m.name v.0.named;
      plain = h.0;
      number = prints m.value v.0.not_nan v.0.not_inf;
    },
    IsValidMetric-IsPlain batch prints v.1 h.1,
  )
    where
      nonempty : (name : Bytes) → 1 ≤ length name → is_empty name ≡ false
      nonempty [] h = absurd (omega arith)
      nonempty (c ∷ name) h = refl

  -- A message that the service writes for a batch that passed validation is read back by its own
  -- parser: the same metrics in the same order, each with its name and its type, its value as
  -- printed and read, and without tags. No metric name may hold a quotation mark or a backslash.
  pub parse_json_metrics_optimized-serialize_metrics_batch_to_json :
      (batch : MetricBatch D)
      → StopsAtComma env
      → PrintsNumbers
      → (validate_batch env.ops batch).valid ≡ true
      → All (λ m. All (λ c. is_plain c ≡ true) m.name) batch
      → parse_json_metrics_optimized env.ops (serialize_metrics_batch_to_json env batch)
        ≡ some (map (transmitted env) batch)
  unfolding serialize_metrics_batch_to_json step skip_space
  parse_json_metrics_optimized-serialize_metrics_batch_to_json batch stops prints v h =
      let clock = to_string env.clock_ms in
      let plain = number_plain clock (to_string-All env.clock_ms) in
      let other = number_other clock (to_string-All env.clock_ms) in
      let valid = ((validate_batch-valid_iff env.ops batch).0 v).2 in
      parse-Yields env.ops _ (
        Yields-step env.ops _ b'{' _ refl refl (
          Yields-step env.ops _ b'"' _ refl refl (
            rw
              (step-other_string env.ops _ (codes "batch_timestamp") _ (ground arith)
                (unfold beq in refl))
              (Yields-step env.ops _ b':' _ refl refl (
                Yields-step env.ops _ b'"' _ refl refl (
                  rw (step-other_string env.ops _ clock _ plain other) (
                    Yields-step env.ops _ b',' _ refl refl (
                      Yields-step env.ops _ b'"' _ refl refl (
                        rw (step-metrics_field env.ops (initial env.ops []) _) (
                          Yields-metrics_json env (initial env.ops []) batch stops
                            (IsValidMetric-IsPlain batch prints valid h)))))))))))
