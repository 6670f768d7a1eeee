-- ===== src/Ingestion/Json/Reads.antt =====
-- The pieces of a JSON text that the one-pass parser reads back: strings without escapes, numbers,
-- and runs of its loop.
use mathlib.Core.Path.{subst}
use systems_craft.Prelude.{
  ◌<◌, to_string, to_string-All, length-to_string, ℕ, zero, suc, ◌+◌, ◌≡◌, refl, sym, ap, ◌∙◌, Bool,
  true, false, not, ◌&&◌, ◌||◌, [], ◌∷◌, ◌++◌, some, arith, Bytes, skip_space, is_digit, ◌==◌,
  Bool-cases, inl, inr, beq, List-cases, All, append_assoc, append-nil, length,
}
use systems_craft.Metrics.{MetricBatch, FloatOps, is_empty}
use systems_craft.Ingestion.Json.{
  Parser, scan_string, skip_number, skip_minus, number_end, step, is_done, parse_loop,
  parse_json_metrics_optimized, initial,
}
use systems_craft.Ingestion.Json.Total.{parse_json_metrics_optimized_total}

-- A byte that stands for itself between quotation marks.
abbrev pub is_plain : ℕ → Bool
is_plain c = not (c == b'"') && not (c == b'\\')

pub scan_string-plain :
    (result name rest : Bytes)
    → All (λ c. is_plain c ≡ true) name
    → scan_string result (name ++ b'"' ∷ rest)
      ≡ record { ok = true; result = result ++ name; after = rest }
unfolding scan_string
scan_string-plain result [] [] h = rw append-nil refl
scan_string-plain result [] (r ∷ rest) h = rw append-nil refl
scan_string-plain result (c ∷ []) rest h =
    let next = scan_string-plain (result ++ c ∷ []) [] rest tt in
    ground (arith, next, h.0, append_assoc result (c ∷ []) [])
scan_string-plain result (c ∷ d ∷ name) rest h =
    let next = scan_string-plain (result ++ c ∷ []) (d ∷ name) rest h.1 in
    ground (arith, next, h.0, append_assoc result (c ∷ []) (d ∷ name))

-- Digits and dots.
abbrev pub Numeric : Bytes → Type 0
Numeric = All (λ c. (is_digit c || c == b'.') ≡ true)

-- A minus sign or none, and at least one digit or dot.
abbrev pub IsNumber : Bytes → Type 0
IsNumber text = Numeric (skip_minus text) × (is_empty (skip_minus text) ≡ false)

digits-Numeric : (text : Bytes) → All (λ c. is_digit c ≡ true) text → Numeric text
digits-Numeric [] h = tt
digits-Numeric (c ∷ text) h = (rw h.0 refl, digits-Numeric text h.1)

digits-IsNumber :
    (text : Bytes) → All (λ c. is_digit c ≡ true) text → 0 < length text → IsNumber text
digits-IsNumber [] h n = absurd (omega arith)
digits-IsNumber (c ∷ text) h n =
    subst (λ t. Numeric t × (is_empty t ≡ false)) (sym (no_minus h.0))
      (digits-Numeric (c ∷ text) h, refl)
  where
    no_minus : is_digit c ≡ true → skip_minus (c ∷ text) ≡ c ∷ text
    no_minus d = unfold is_digit in ground (arith, d)

-- A printed natural number is a number.
pub to_string-IsNumber : (n : ℕ) → IsNumber (to_string n)
to_string-IsNumber n = digits-IsNumber (to_string n) (to_string-All n) (length-to_string n)

skip_number-Numeric :
    (text rest : Bytes) → Numeric text → skip_number (text ++ b',' ∷ rest) ≡ b',' ∷ rest
unfolding skip_number is_digit
skip_number-Numeric [] rest h = refl
skip_number-Numeric (c ∷ text) rest h = rw h.0 (skip_number-Numeric text rest h.1)

pub number_end-IsNumber :
    (text rest : Bytes) → IsNumber text → number_end (text ++ b',' ∷ rest) ≡ b',' ∷ rest
unfolding number_end
number_end-IsNumber [] rest h = absurd (empty h.1)
  where
    empty : true ≡ false → ⊥
    empty e = ground (arith, e)
number_end-IsNumber (c ∷ text) rest h = elim (Bool-cases (c == b'-')) [
  | inl t ↦ rw t (skip_number-Numeric text rest (subst Numeric (minus t) h.0))
  | inr f ↦ rw f (skip_number-Numeric (c ∷ text) rest (subst Numeric (no_minus f) h.0))
]
  where
    minus : (c == b'-') ≡ true → skip_minus (c ∷ text) ≡ text
    minus t = rw t refl

    no_minus : (c == b'-') ≡ false → skip_minus (c ∷ text) ≡ c ∷ text
    no_minus f = rw f refl

-- A number is no comma, so the test for an empty number fails.
pub beq-IsNumber :
    (text rest : Bytes) → IsNumber text → beq (b',' ∷ rest) (text ++ b',' ∷ rest) ≡ false
unfolding beq is_digit
beq-IsNumber [] rest h = ground (arith, h.1)
beq-IsNumber (c ∷ text) rest h = ground (arith, h.0)

-- A number does not begin with white space.
pub skip_space-IsNumber :
    (text rest : Bytes) → IsNumber text → skip_space (text ++ b',' ∷ rest) ≡ text ++ b',' ∷ rest
unfolding skip_space is_digit
skip_space-IsNumber [] rest h = refl
skip_space-IsNumber (c ∷ text) rest h = ground (arith, h.0)

module _ {D : Type 0} (ops : FloatOps D) where
  -- The loop, started here with fuel enough, ends with this batch.
  abbrev pub Yields : Parser D → MetricBatch D → Type 0
  Yields p batch = (fuel : ℕ) × (parse_loop ops fuel p ≡ some batch)

  -- One pass of the loop.
  pub Yields-step :
      (p : Parser D) (c : ℕ) (cs : Bytes) {batch : MetricBatch D}
      → is_done ops p.state ≡ false
      → skip_space p.rest ≡ c ∷ cs
      → Yields (step ops p.state p c cs) batch
      → Yields p batch
  unfolding parse_loop
  Yields-step p c cs d e (fuel, h) = (suc fuel, rw (d, e) h)

  pub Yields-done : (p : Parser D) → is_done ops p.state ≡ true → Yields p p.batch
  unfolding parse_loop
  Yields-done p d = (1, rw d refl)

  -- More fuel does not change the result.
  parse_loop-more :
      (fuel more : ℕ) (p : Parser D) (batch : MetricBatch D)
      → parse_loop ops fuel p ≡ some batch
      → parse_loop ops (fuel + more) p ≡ some batch
  unfolding parse_loop
  parse_loop-more zero more p batch h = ground (arith, h)
  parse_loop-more (suc fuel) more p batch h = elim (Bool-cases (is_done ops p.state)) [
    | inl d ↦ rw (same, d) (sym (run d) ∙ h)
    | inr d ↦ elim (List-cases (skip_space p.rest)) [
      | inl e ↦ rw (same, d, e) (sym (end d e) ∙ h)
      | inr (c, cs, e) ↦
          rw (same, d, e)
            (parse_loop-more fuel more (step ops p.state p c cs) batch (sym (pass c cs d e) ∙ h))
    ]
  ]
    where
      same : suc fuel + more ≡ suc (fuel + more)
      same = omega arith

      run : is_done ops p.state ≡ true → parse_loop ops (suc fuel) p ≡ some p.batch
      run d = rw d refl

      end :
          is_done ops p.state ≡ false
          → skip_space p.rest ≡ []
          → parse_loop ops (suc fuel) p ≡ some p.batch
      end d e = rw (d, e) refl

      pass :
          (c : ℕ) (cs : Bytes)
          → is_done ops p.state ≡ false
          → skip_space p.rest ≡ c ∷ cs
          → parse_loop ops (suc fuel) p ≡ parse_loop ops fuel (step ops p.state p c cs)
      pass c cs d e = rw (d, e) refl

  -- The fuel that the parser takes is enough.
  pub parse-Yields :
      (json_body : Bytes) {batch : MetricBatch D}
      → Yields (initial ops json_body) batch
      → parse_json_metrics_optimized ops json_body ≡ some batch
  unfolding parse_json_metrics_optimized
  parse-Yields json_body {batch} (fuel, h) =
      let total = parse_json_metrics_optimized_total ops json_body in
      let run = parse_loop-more fuel (length json_body + 2) (initial ops json_body) batch h in
      let back =
        parse_loop-more (length json_body + 2) fuel (initial ops json_body) total.0 total.1 in
      let order : length json_body + 2 + fuel ≡ fuel + (length json_body + 2) = omega arith in
      total.1 ∙ sym back ∙ ap (λ n. parse_loop ops n (initial ops json_body)) order ∙ run
