-- ===== src/Ingestion/Legacy/Ends.antt =====
-- The rounds of the loop over the objects of a body.
use systems_craft.Prelude.{
  ℕ, zero, suc, ◌+◌, ◌-◌, ◌≤◌, ◌≡◌, ◌≢◌, ◌⊎◌, refl, inl, inr, false, [], ◌∷◌, ◌++◌, Option, arith,
  Bytes, ltb, length, drop, Bool-cases, Option-cases,
}
use systems_craft.Metrics.{Metric, MetricBatch}
use systems_craft.Ingestion.Legacy.{
  npos, is_npos, index_of, find_byte, substr, Result, returns, throws, unfinished,
  parse_single_metric, objects_loop,
}

-- What is found does not lie before the place where the search begins.
find_byte-ge :
    (b : ℕ) (text : Bytes) (pos : ℕ) → (find_byte b text pos ≡ npos) ⊎ (pos ≤ find_byte b text pos)
unfolding find_byte
find_byte-ge b text pos = elim (Option-cases (index_of b (drop pos text))) [
  | inl e ↦ inl (rw (find_byte, e) refl)
  | inr (i, e) ↦ inr (rw (find_byte, e) (omega arith))
]

found_ge :
    (b : ℕ) (text : Bytes) (pos : ℕ)
    → is_npos (find_byte b text pos) ≡ false
    → pos ≤ find_byte b text pos
found_ge b text pos h = ground (arith, find_byte-ge b text pos)

module _ {D : Type 0} (stod : Bytes → Option D) (fuel : ℕ) where
  -- What follows the call for an object.
  parsed_on :
      (r : Result (Metric D)) (rounds : ℕ) (text : Bytes) (obj_end : ℕ) (batch : MetricBatch D)
      → r ≢ unfinished
      → ((more : MetricBatch D)
          → objects_loop stod fuel rounds text (obj_end + 1) more ≢ unfinished)
      → (elim r [
        | unfinished ↦ unfinished
        | throws ↦ throws
        | returns metric ↦ objects_loop stod fuel rounds text (obj_end + 1) (batch ++ metric ∷ [])
      ])
        ≢ unfinished
  parsed_on unfinished rounds text obj_end batch ends later e = ends refl
  parsed_on throws rounds text obj_end batch ends later e = cc e
  parsed_on (returns metric) rounds text obj_end batch ends later e = later (batch ++ metric ∷ []) e

  objects_round :
      (rounds : ℕ) (text : Bytes) (pos : ℕ) (batch : MetricBatch D)
      → ((from count : ℕ) → parse_single_metric stod fuel (substr text from count) ≢ unfinished)
      → ((next : ℕ) (more : MetricBatch D)
          → pos ≤ next
          → objects_loop stod fuel rounds text (next + 1) more ≢ unfinished)
      → objects_loop stod fuel (suc rounds) text pos batch ≢ unfinished
  unfolding objects_loop
  objects_round rounds text pos batch ends later =
      let obj_start = find_byte b'{' text pos in
      let obj_end = find_byte b'}' text obj_start in
      elim (Bool-cases (ltb pos (length text))) [
        | inr out ↦ rw (objects_loop, out) (λ e. cc e)
        | inl inside ↦ elim (Bool-cases (is_npos obj_start)) [
          | inl n ↦ rw (objects_loop, inside, n) (λ e. cc e)
          | inr s ↦ elim (Bool-cases (is_npos obj_end)) [
            | inl n ↦ rw (objects_loop, inside, s, n) (λ e. cc e)
            | inr t ↦
                let ahead : pos ≤ obj_end =
                  omega (arith, found_ge b'{' text pos s, found_ge b'}' text obj_start t) in
                rw (objects_loop, inside, s, t)
                  (parsed_on
                    (parse_single_metric stod fuel
                      (substr text obj_start (obj_end - obj_start + 1)))
                    rounds text obj_end batch (ends obj_start (obj_end - obj_start + 1))
                    (λ more. later obj_end more ahead))
          ]
        ]
      ]

  -- If the loop over tags ends in every object of the text, the rounds that `parse_json_metrics`
  -- gives this loop are enough.
  objects_loop-ends :
      (rounds : ℕ) (text : Bytes) (pos : ℕ) (batch : MetricBatch D)
      → ((from count : ℕ) → parse_single_metric stod fuel (substr text from count) ≢ unfinished)
      → length text ≤ pos + rounds
      → objects_loop stod fuel rounds text pos batch ≢ unfinished
  unfolding objects_loop
  objects_loop-ends zero text pos batch ends enough =
      let out : ltb pos (length text) ≡ false = ground (arith, enough) in
      rw (objects_loop, out) (λ e. cc e)
  objects_loop-ends (suc rounds) text pos batch ends enough =
      objects_round rounds text pos batch ends (λ next more ahead.
        objects_loop-ends rounds text (next + 1) more ends (omega (arith, enough, ahead)))
