-- ===== src/Metrics.antt =====
-- include/metric.h: metrics and batches; MetricValidator of include/ingestion_service.h and
-- src/ingestion_service.cpp. `double` is the type parameter `D`, and what the program asks of
-- doubles is a `FloatOps`. The timestamps and the source of a batch, which the program never
-- reads, are left out.
pub mod Validity
mod Tests
use systems_craft.Prelude.{
  ℕ, Bool, true, false, not, ◌||◌, List, [], ◌∷◌, ◌++◌, Bytes, codes, ltb, if◌then◌else◌, length,
}

pub data MetricType : Type 0 where
  counter gauge histogram summary : MetricType

abbrev pub Tags : Type 0
Tags = List (Bytes × Bytes)

pub record Metric (D : Type 0) : Type 0 where
  pub name : Bytes
  pub value : D
  pub type : MetricType
  pub tags : Tags

abbrev pub MetricBatch : Type 0 → Type 0
MetricBatch D = List (Metric D)

-- The standard library on doubles: `std::isnan`, `std::isinf`, the constant 0.0, `std::strtod` on
-- the text that begins at its argument, and `std::to_string`.
pub record FloatOps (D : Type 0) : Type 0 where
  pub is_nan : D → Bool
  pub is_inf : D → Bool
  pub zero_value : D
  pub strtod : Bytes → D
  pub print : D → Bytes

pub record ValidationResult : Type 0 where
  pub valid : Bool
  pub error_message : Bytes

abbrev pub accepted : ValidationResult
accepted = record { valid = true; error_message = [] }

abbrev pub rejected : Bytes → ValidationResult
rejected message = record { valid = false; error_message = message }

-- `empty()` of strings and batches.
abbrev pub is_empty {ℓ} : {A : Type ℓ} → List A → Bool
is_empty [] = true
is_empty (x ∷ xs) = false

module _ {D : Type 0} (ops : FloatOps D) where
  unfoldable pub validate_metric : Metric D → ValidationResult
  validate_metric metric =
      if is_empty metric.name
      then rejected (codes "Metric name cannot be empty")
      else if ltb 255 (length metric.name)
      then rejected (codes "Metric name too long (max 255 characters)")
      else if ops.is_nan metric.value || ops.is_inf metric.value
      then rejected (codes "Metric value must be a finite number")
      else accepted

  -- The loop over the metrics of the batch.
  pub validate_metrics : MetricBatch D → ValidationResult
  validate_metrics [] = accepted
  validate_metrics (metric ∷ metrics) =
      let result = validate_metric metric in
      if not result.valid
      then rejected (codes "Invalid metric: " ++ result.error_message)
      else validate_metrics metrics

  unfoldable pub validate_batch : MetricBatch D → ValidationResult
  unfolding validate_metrics
  validate_batch batch =
      if is_empty batch
      then rejected (codes "Batch cannot be empty")
      else if ltb 1000 (length batch)
      then rejected (codes "Batch size exceeds maximum (1000 metrics)")
      else validate_metrics batch
