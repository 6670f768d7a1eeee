-- ===== src/Ingestion/Json/Total.antt =====
-- The one-pass parser always ends, and what it can return.
use systems_craft.Prelude.{
  ℕ, zero, suc, ◌+◌, ◌<◌, ◌≡◌, ◌⊎◌, ap, inl, inr, true, false, Option, some, arith, Bytes,
  skip_space, Bool-cases, List-cases, All, length,
}
use systems_craft.Metrics.{MetricBatch, FloatOps, is_empty}
use systems_craft.Ingestion.Json.{
  Parser, step, is_done, parse_loop, initial, parse_json_metrics_optimized,
}
use systems_craft.Ingestion.Json.Shrinks.{length-skip_space, Shrinks, step-Shrinks}
use systems_craft.Ingestion.Json.Named.{Named, step-Named}

module _ {D : Type 0} (ops : FloatOps D) where
  -- A run that ends with a batch of named metrics.
  abbrev Parsed : Option (MetricBatch D) → Type 0
  Parsed r = (batch : MetricBatch D) × (r ≡ some batch) × Named ops batch

  parse_loop-ends :
      (fuel : ℕ) (p : Parser D)
      → Named ops p.batch
      → (is_done ops p.state ≡ true) ⊎ (length p.rest < fuel)
      → Parsed (parse_loop ops (suc fuel) p)
  unfolding parse_loop
  parse_loop-ends fuel p n (inl d) = (p.batch, rw d, n)
  parse_loop-ends zero p n (inr h) = absurd (omega arith)
  parse_loop-ends (suc fuel) p n (inr h) = elim (Bool-cases (is_done ops p.state)) [
    | inl d ↦ (p.batch, rw d, n)
    | inr d ↦ elim (List-cases (skip_space p.rest)) [
      | inl e ↦ (p.batch, rw (d, e), n)
      | inr (c, cs, e) ↦
          let next = step ops p.state p c cs in
          let size = length-skip_space p.rest in
          let ih : Parsed (parse_loop ops (suc fuel) next) =
            parse_loop-ends fuel next (step-Named ops p.state p c cs n) (
              shorter next (length cs) fuel (omega (arith, ap length e))
                (step-Shrinks ops p.state p c cs)) in
          (ih.0, rw (d, e) ih.1, ih.2)
    ]
  ]
    where
      shorter :
          (q : Parser D) (n k : ℕ)
          → n < k
          → Shrinks ops q n
          → (is_done ops q.state ≡ true) ⊎ (length q.rest < k)
      shorter q n k h (inl d) = inl d
      shorter q n k h (inr l) = inr (omega arith)

  -- The parser ends on every text, with a batch in which every metric has a name. It never fails:
  -- what it cannot read it skips.
  pub parse_json_metrics_optimized_total :
      (json_body : Bytes)
      → (batch : MetricBatch D) × (parse_json_metrics_optimized ops json_body ≡ some batch)
        × All (λ m. is_empty m.name ≡ false) batch
  unfolding parse_json_metrics_optimized
  parse_json_metrics_optimized_total json_body =
      let e : length json_body + 2 ≡ suc (length json_body + 1) = omega arith in
      rw e (parse_loop-ends (length json_body + 1) (initial ops json_body) tt (inr (omega arith)))
