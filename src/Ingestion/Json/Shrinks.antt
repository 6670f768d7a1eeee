-- ===== src/Ingestion/Json/Shrinks.antt =====
-- Each helper of the parser, and each pass of its loop, leaves a shorter text.
use systems_craft.Prelude.{
  ℕ, ◌≤◌, ◌≡◌, ◌⊎◌, inl, inr, true, [], ◌∷◌, ◌++◌, some, arith, Bytes, skip_space, ◌==◌,
  Option-cases, length,
}
use systems_craft.Metrics.{FloatOps}
use systems_craft.Ingestion.Json.{
  ParseState, Parser, unescape, scan_string, parse_string, skip_number, number_end, expect,
  open_array, open_tags, step_looking, step_array, read_field, close_metric, step_object, read_tag,
  step_tags, step, is_done, looking_for_metrics, in_metrics_array, in_metric_object, in_tags_object,
}

pub length-skip_space : (text : Bytes) → length (skip_space text) ≤ length text
unfolding skip_space
length-skip_space [] = omega arith
length-skip_space (c ∷ cs) = ground (arith, length-skip_space cs)

length-scan_string : (result text : Bytes) → length (scan_string result text).after ≤ length text
unfolding scan_string
length-scan_string result [] = omega arith
length-scan_string result (c ∷ []) = ground arith
length-scan_string result (c ∷ d ∷ cs) = ground (
  arith,
  length-scan_string (result ++ unescape d ∷ []) cs,
  length-scan_string (result ++ c ∷ []) (d ∷ cs),
)

length-skip_number : (text : Bytes) → length (skip_number text) ≤ length text
unfolding skip_number
length-skip_number [] = omega arith
length-skip_number (c ∷ cs) = ground (arith, length-skip_number cs)

length-number_end : (text : Bytes) → length (number_end text) ≤ length text
unfolding number_end
length-number_end [] = omega arith
length-number_end (c ∷ cs) = ground (arith, length-skip_number cs, length-skip_number (c ∷ cs))

length-expect :
    (b : ℕ) (text after : Bytes) → expect b text ≡ some after → length after ≤ length text
length-expect b [] after e = cc
length-expect b (c ∷ cs) after e = ground (arith, length-skip_space cs)

length-parse_string : (text : Bytes) → length (parse_string text).after ≤ length text
unfolding parse_string
length-parse_string [] = omega arith
length-parse_string (c ∷ cs) = ground (arith, length-scan_string [] cs)

-- Behind an opening quote at least that byte is gone.
length-parse_string_quote :
    (c : ℕ) (cs : Bytes) → (c == b'"') ≡ true → length (parse_string (c ∷ cs)).after ≤ length cs
unfolding parse_string
length-parse_string_quote c cs e = rw e (length-scan_string [] cs)

module _ {D : Type 0} (ops : FloatOps D) where
  -- The loop ends here, or at most `n` bytes are left.
  abbrev pub Shrinks : Parser D → ℕ → Type 0
  Shrinks p n = (is_done ops p.state ≡ true) ⊎ (length p.rest ≤ n)

  length-open_array :
      (p : Parser D) (text : Bytes) → length (open_array ops p text).rest ≤ length text
  unfolding open_array
  length-open_array p [] = omega arith
  length-open_array p (c ∷ cs) = ground arith

  length-open_tags :
      (p : Parser D) (text : Bytes) → length (open_tags ops p text).rest ≤ length text
  unfolding open_tags
  length-open_tags p [] = omega arith
  length-open_tags p (c ∷ cs) = ground arith

  length-read_field :
      (p : Parser D) (field text : Bytes) → length (read_field ops p field text).rest ≤ length text
  unfolding read_field
  length-read_field p field text =
      ground (arith, length-parse_string text, length-number_end text, length-open_tags p text)

  length-read_tag :
      (p : Parser D) (key text : Bytes) → length (read_tag ops p key text).rest ≤ length text
  unfolding read_tag
  length-read_tag p key text = ground (arith, length-parse_string text)

  step_looking-Shrinks :
      (p : Parser D) (c : ℕ) (cs : Bytes) → length (step_looking ops p c cs).rest ≤ length cs
  unfolding step_looking
  step_looking-Shrinks p c cs =
      let field = parse_string (c ∷ cs) in
      elim (Option-cases (expect b':' (skip_space field.after))) [
        | inl e ↦ ground (arith, e, length-parse_string_quote c cs, length-skip_space field.after)
        | inr (text, e) ↦ ground (
          arith,
          e,
          length-parse_string_quote c cs,
          length-skip_space field.after,
          length-expect b':' (skip_space field.after) text e,
          length-open_array p text,
        )
      ]

  step_object-Shrinks :
      (p : Parser D) (c : ℕ) (cs : Bytes) → length (step_object ops p c cs).rest ≤ length cs
  unfolding step_object close_metric
  step_object-Shrinks p c cs =
      let field = parse_string (c ∷ cs) in
      elim (Option-cases (expect b':' (skip_space field.after))) [
        | inl e ↦ ground (arith, e, length-parse_string_quote c cs, length-skip_space field.after)
        | inr (text, e) ↦ ground (
          arith,
          e,
          length-parse_string_quote c cs,
          length-skip_space field.after,
          length-expect b':' (skip_space field.after) text e,
          length-read_field p field.result text,
        )
      ]

  step_tags-Shrinks :
      (p : Parser D) (c : ℕ) (cs : Bytes) → length (step_tags ops p c cs).rest ≤ length cs
  unfolding step_tags
  step_tags-Shrinks p c cs =
      let key = parse_string (c ∷ cs) in
      elim (Option-cases (expect b':' (skip_space key.after))) [
        | inl e ↦ ground (arith, e, length-parse_string_quote c cs, length-skip_space key.after)
        | inr (text, e) ↦ ground (
          arith,
          e,
          length-parse_string_quote c cs,
          length-skip_space key.after,
          length-expect b':' (skip_space key.after) text e,
          length-read_tag p key.result text,
        )
      ]

  pub step-Shrinks :
      (s : ParseState) (p : Parser D) (c : ℕ) (cs : Bytes) → Shrinks (step ops s p c cs) (length cs)
  unfolding step step_array
  step-Shrinks looking_for_metrics p c cs = inr (step_looking-Shrinks p c cs)
  step-Shrinks in_metrics_array p c cs = ground arith
  step-Shrinks in_metric_object p c cs = inr (step_object-Shrinks p c cs)
  step-Shrinks in_tags_object p c cs = inr (step_tags-Shrinks p c cs)
  step-Shrinks _ p c cs = inr (omega arith)
