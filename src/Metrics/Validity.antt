-- ===== src/Metrics/Validity.antt =====
-- MetricValidator: exactly which batches pass, and what is said of those that do not.
use systems_craft.Prelude.{
  ◌≤◌, ◌≡◌, refl, ◌↔◌, true, false, [], ◌∷◌, ◌++◌, arith, Bytes, codes, All, length, ltb,
}
use systems_craft.Metrics.{
  Metric, MetricBatch, FloatOps, rejected, is_empty, validate_metric, validate_metrics,
  validate_batch,
}

module _ {D : Type 0} (ops : FloatOps D) where
  -- The name has 1 to 255 bytes, and the value is finite.
  pub record IsValidMetric (m : Metric D) : Type 0 where
    pub named : 1 ≤ length m.name
    pub short : length m.name ≤ 255
    pub not_nan : ops.is_nan m.value ≡ false
    pub not_inf : ops.is_inf m.value ≡ false

  validate_metric_iff : (m : Metric D) → ((validate_metric ops m).valid ≡ true) ↔ IsValidMetric m
  unfolding validate_metric
  validate_metric_iff m = (λ e. sound e, λ v. ground (arith, name_length m.name))
    where
      name_length : (name : Bytes) → 1 ≤ length name → is_empty name ≡ false
      name_length [] h = absurd (omega arith)
      name_length (c ∷ name) h = refl

      some_length : (name : Bytes) → is_empty name ≡ false → 1 ≤ length name
      some_length [] h = cc
      some_length (c ∷ name) h = omega arith

      sound : (validate_metric ops m).valid ≡ true → IsValidMetric m
      sound e = ground (arith, some_length m.name)

  validate_metrics_iff :
      (batch : MetricBatch D)
      → ((validate_metrics ops batch).valid ≡ true) ↔ All IsValidMetric batch
  unfolding validate_metrics
  validate_metrics_iff [] = (λ e. tt, λ v. refl)
  validate_metrics_iff (m ∷ batch) =
      let head = validate_metric_iff m in
      let rest = validate_metrics_iff batch in
      (λ e. ground (arith, head, rest), λ v. ground (arith, head, rest))

  -- A batch passes exactly when it has 1 to 1000 metrics, all of them valid.
  pub validate_batch-valid_iff :
      (batch : MetricBatch D)
      → ((validate_batch ops batch).valid ≡ true)
        ↔ ((1 ≤ length batch) × (length batch ≤ 1000) × All IsValidMetric batch)
  unfolding validate_batch
  validate_batch-valid_iff [] = (λ e. cc, λ v. absurd (omega arith))
  validate_batch-valid_iff (m ∷ batch) =
      let inner = validate_metrics_iff (m ∷ batch) in
      (λ e. ground (arith, inner), λ v. ground (arith, inner))

  -- The first invalid metric decides what is said of a batch of acceptable size.
  pub validate_batch-first_invalid :
      (before after : MetricBatch D) (m : Metric D)
      → All IsValidMetric before
      → (validate_metric ops m).valid ≡ false
      → length (before ++ m ∷ after) ≤ 1000
      → validate_batch ops (before ++ m ∷ after)
        ≡ rejected (codes "Invalid metric: " ++ (validate_metric ops m).error_message)
  unfolding validate_batch
  validate_batch-first_invalid before after m good bad small =
      rw (nonempty before, within) (first before good)
    where
      nonempty : (xs : MetricBatch D) → is_empty (xs ++ m ∷ after) ≡ false
      nonempty [] = refl
      nonempty (x ∷ xs) = refl

      within : ltb 1000 (length (before ++ m ∷ after)) ≡ false
      within = ground arith

      first :
          (xs : MetricBatch D)
          → All IsValidMetric xs
          → validate_metrics ops (xs ++ m ∷ after)
            ≡ rejected (codes "Invalid metric: " ++ (validate_metric ops m).error_message)
      first [] h = rw bad
      first (x ∷ xs) h = rw ((validate_metric_iff x).1 h.0) (first xs h.1)
