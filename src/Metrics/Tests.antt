-- ===== src/Metrics/Tests.antt =====
-- Runs of the validator. A value is a number here; the number 99 stands for "not a number".
use systems_craft.Prelude.{
  ℕ, ◌≤◌, ◌≡◌, ◌↔◌, refl, true, false, [], ◌∷◌, arith, codes, All, length, ◌==◌, to_string,
}
use systems_craft.Metrics.{gauge, Metric, FloatOps, validate_batch}
use systems_craft.Metrics.Validity.{IsValidMetric, validate_batch-valid_iff}

abbrev pub ops : FloatOps ℕ
ops = record {
  is_nan = λ d. d == 99;
  is_inf = λ d. false;
  zero_value = 0;
  strtod = λ text. length text;
  print = to_string;
}

abbrev cpu : Metric ℕ
cpu = record { name = codes "cpu"; value = 75; type = gauge; tags = [] }

abbrev broken : Metric ℕ
broken = record { name = codes "cpu"; value = 99; type = gauge; tags = [] }

abbrev unnamed : Metric ℕ
unnamed = record { name = []; value = 1; type = gauge; tags = [] }

validate_batch-valid_iff_example : ((validate_batch ops (cpu ∷ broken ∷ [])).valid ≡ true) ↔ (
    (1 ≤ length (cpu ∷ broken ∷ []))
    × (length (cpu ∷ broken ∷ []) ≤ 1000)
    × All (IsValidMetric ops) (cpu ∷ broken ∷ []))
validate_batch-valid_iff_example = validate_batch-valid_iff ops (cpu ∷ broken ∷ [])

cpu-IsValidMetric : IsValidMetric ops cpu
cpu-IsValidMetric = record {
  named = omega arith;
  short = omega arith;
  not_nan = refl;
  not_inf = refl;
}
