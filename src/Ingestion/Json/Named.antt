-- ===== src/Ingestion/Json/Named.antt =====
-- Each pass of the parser loop keeps the metrics of the batch named.
use systems_craft.Prelude.{
  ℕ, ◌≡◌, ◌⊎◌, refl, inl, inr, true, false, [], ◌∷◌, none, some, arith, Bytes, skip_space, ◌==◌,
  if◌then◌else◌, Bool-cases, Option-cases, All, All-append,
}
use systems_craft.Metrics.{MetricBatch, FloatOps, is_empty}
use systems_craft.Ingestion.Json.{
  ParseState, Parser, parse_string, expect, open_array, open_tags, step_looking, step_array,
  read_field, close_metric, step_object, read_tag, step_tags, step, to, looking_for_metrics,
  in_metrics_array, in_metric_object, in_tags_object,
}

module _ {D : Type 0} (ops : FloatOps D) where
  -- Every metric of the batch has a name.
  abbrev pub Named : MetricBatch D → Type 0
  Named = All (λ m. is_empty m.name ≡ false)

  open_array-batch : (p : Parser D) (text : Bytes) → (open_array ops p text).batch ≡ p.batch
  unfolding open_array
  open_array-batch p [] = refl
  open_array-batch p (c ∷ cs) = ground arith

  open_tags-batch : (p : Parser D) (text : Bytes) → (open_tags ops p text).batch ≡ p.batch
  unfolding open_tags
  open_tags-batch p [] = refl
  open_tags-batch p (c ∷ cs) = ground arith

  read_field-batch :
      (p : Parser D) (field text : Bytes) → (read_field ops p field text).batch ≡ p.batch
  unfolding read_field
  read_field-batch p field text = ground (arith, open_tags-batch p text)

  step_looking-batch :
      (p : Parser D) (c : ℕ) (cs : Bytes) → (step_looking ops p c cs).batch ≡ p.batch
  unfolding step_looking
  step_looking-batch p c cs =
      let text = skip_space (parse_string (c ∷ cs)).after in
      elim (Option-cases (expect b':' text)) [
        | inl e ↦ ground (arith, e)
        | inr (after, e) ↦ ground (arith, e, open_array-batch p after)
      ]

  step_tags-batch : (p : Parser D) (c : ℕ) (cs : Bytes) → (step_tags ops p c cs).batch ≡ p.batch
  unfolding step_tags read_tag
  step_tags-batch p c cs =
      let text = skip_space (parse_string (c ∷ cs)).after in
      elim (Option-cases (expect b':' text)) [
        | inl e ↦ ground (arith, e)
        | inr (after, e) ↦ ground (arith, e)
      ]

  close_metric-Named :
      (p : Parser D) (cs : Bytes) → Named p.batch → Named (close_metric ops p cs).batch
  unfolding close_metric
  close_metric-Named p cs h = elim (Bool-cases (is_empty p.metric_name)) [
    | inl e ↦ rw e h
    | inr e ↦ rw e (All-append _ p.batch _ h (e, tt))
  ]

  step_object-Named :
      (p : Parser D) (c : ℕ) (cs : Bytes) → Named p.batch → Named (step_object ops p c cs).batch
  unfolding step_object
  step_object-Named p c cs h = elim (Bool-cases (c == b'"')) [
    | inl q ↦ rw q (
        quoted (Bool-cases (parse_string (c ∷ cs)).ok)
          (Option-cases (expect b':' (skip_space (parse_string (c ∷ cs)).after))))
    | inr q ↦ rw q (elim (Bool-cases (c == b'}')) [
      | inl b ↦ rw b (close_metric-Named p cs h)
      | inr b ↦ rw b h
    ])
  ]
    where
      quoted :
          ((parse_string (c ∷ cs)).ok ≡ true) ⊎ ((parse_string (c ∷ cs)).ok ≡ false)
          → (expect b':' (skip_space (parse_string (c ∷ cs)).after) ≡ none)
            ⊎ ((text : Bytes) × (expect b':' (skip_space (parse_string (c ∷ cs)).after)
                  ≡ some text))
          → Named
              (if (parse_string (c ∷ cs)).ok
                then elim (expect b':' (skip_space (parse_string (c ∷ cs)).after)) [
                  | none ↦ to ops p (skip_space (parse_string (c ∷ cs)).after)
                  | some text ↦ read_field ops p (parse_string (c ∷ cs)).result text
                ]
                else to ops p (parse_string (c ∷ cs)).after).batch
      quoted (inr f) o = rw f h
      quoted (inl t) (inl e) = rw (t, e) h
      quoted (inl t) (inr (text, e)) =
          rw (t, e) (rw (read_field-batch p (parse_string (c ∷ cs)).result text) h)

  pub step-Named :
      (s : ParseState) (p : Parser D) (c : ℕ) (cs : Bytes)
      → Named p.batch
      → Named (step ops s p c cs).batch
  unfolding step step_array
  step-Named looking_for_metrics p c cs h = rw (step_looking-batch p c cs) h
  step-Named in_metrics_array p c cs h = ground (arith, h)
  step-Named in_metric_object p c cs h = step_object-Named p c cs h
  step-Named in_tags_object p c cs h = rw (step_tags-batch p c cs) h
  step-Named _ p c cs h = h
