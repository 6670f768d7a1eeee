-- ===== src/Phase0/Alerts.antt =====
-- phase0/phase0_poc.cpp: the class AlertingEngine. The arithmetic on `double` and `long long` is a
-- parameter, and so are the files and clock readings that the rules of a round see.
use systems_craft.Prelude.{
  ℕ, suc, ◌≤◌, ◌≡◌, ◌≢◌, refl, ap, ◌∙◌, Bool, true, false, ◌&&◌, List, [], ◌∷◌, ◌++◌, map, Option,
  none, some, Bytes, codes, beq, All, if◌then◌else◌, length, replicate, inl, inr, ◌⊎◌, ◌↔◌, beq_iff,
  arith, Bool-cases,
}
use systems_craft.Phase0.{NumberOps, Metric, query}
use systems_craft.Phase0.Storage.{Reads, IsName, kept}
use systems_craft.Phase0.Runs.{Event, works, matching, wanted, run, started, pushed, query-run}

-- `0.0`, `+` and `/` on `double`, with a number of samples below the line, `>` and `<`, and
-- `seconds * 1000LL` and `-` on `long long`.
pub record Arithmetic (D I : Type 0) : Type 0 where
  pub zero_sum : D
  pub add : D → D → D
  pub over : D → ℕ → D
  pub above : D → D → Bool
  pub below : D → D → Bool
  pub in_ms : I → I
  pub minus : I → I → I

pub record AlertRule (D I : Type 0) : Type 0 where
  pub metric_name : Bytes
  pub threshold : D
  pub condition : Bytes
  pub window_seconds : I

-- What a triggered rule writes.
pub record Alert (D I : Type 0) : Type 0 where
  pub rule : AlertRule D I
  pub avg : D
  pub samples : ℕ

pub record AlertingEngine (D I : Type 0) : Type 0 where
  pub rules : List (AlertRule D I)
  pub running : Bool

module _ {D I : Type 0} where
  unfoldable pub add_rule : AlertRule D I → AlertingEngine D I → AlertingEngine D I
  add_rule rule engine = record engine { rules = engine.rules ++ rule ∷ [] }

  -- `start` makes the thread too, and `stop` waits for it.
  unfoldable pub start : AlertingEngine D I → AlertingEngine D I
  start engine = if engine.running then engine else record engine { running = true }

  unfoldable pub stop : AlertingEngine D I → AlertingEngine D I
  stop engine = if engine.running then record engine { running = false } else engine

module _ {D I : Type 0} (ops : NumberOps D I) (arithmetic : Arithmetic D I) where
  unfoldable pub sum_values : D → List (Metric D I) → D
  sum_values sum [] = sum
  sum_values sum (m ∷ metrics) = sum_values (arithmetic.add sum m.value) metrics

  abbrev pub average : List (Metric D I) → D
  unfolding sum_values
  average metrics = arithmetic.over (sum_values arithmetic.zero_sum metrics) (length metrics)

  unfoldable pub triggered : AlertRule D I → D → Bool
  triggered rule avg =
      if beq rule.condition (codes ">") && arithmetic.above avg rule.threshold
      then true
      else if beq rule.condition (codes "<") && arithmetic.below avg rule.threshold
      then true
      else false

  -- `evaluate_rule` behind its query.
  unfoldable pub judge : AlertRule D I → List (Metric D I) → Option (Alert D I)
  unfolding triggered average
  judge rule [] = none
  judge rule (m ∷ metrics) =
      let avg = average (m ∷ metrics) in
      if triggered rule avg
      then some (record { rule = rule; avg = avg; samples = length (m ∷ metrics) })
      else none

  -- The outer `none` is an exception of the query.
  unfoldable pub evaluate_rule : Option Bytes → I → AlertRule D I → Option (Option (Alert D I))
  unfolding judge
  evaluate_rule file now_ms rule =
      elim (query ops file rule.metric_name
        (arithmetic.minus now_ms (arithmetic.in_ms rule.window_seconds)) now_ms) [
          | none ↦ none
          | some metrics ↦ some (judge rule metrics)
        ]

  -- The alerts of a round over the rules; `moment` says what file and clock the rules see. `none` is
  -- an exception, which ends the program.
  unfoldable pub check_rules :
      (ℕ → Option Bytes × I) → ℕ → List (AlertRule D I) → Option (List (Alert D I))
  unfolding evaluate_rule
  check_rules moment i [] = some []
  check_rules moment i (rule ∷ rules) =
      let rest = check_rules moment (suc i) rules in
      let (file, now_ms) = moment i in
      elim (evaluate_rule file now_ms rule) [
        | none ↦ none
        | some none ↦ rest
        | some (some alert) ↦ elim rest [ none ↦ none | some alerts ↦ some (alert ∷ alerts) ]
      ]

  -- A round of the loop of `worker`.
  unfoldable pub worker_round :
      (ℕ → Option Bytes × I) → AlertingEngine D I → Option (List (Alert D I))
  unfolding check_rules
  worker_round moment engine = if engine.running then check_rules moment 0 engine.rules else some []

  -- The values added one after the other, and divided by their number.
  abbrev pub added : D → List D → D
  added sum [] = sum
  added sum (value ∷ values) = added (arithmetic.add sum value) values

  abbrev pub mean : List (Metric D I) → D
  mean metrics =
      arithmetic.over (added arithmetic.zero_sum (map (λ m. m.value) metrics)) (length metrics)

  sum_values-added :
      (sum : D) (metrics : List (Metric D I))
      → sum_values sum metrics ≡ added sum (map (λ m. m.value) metrics)
  unfolding sum_values
  sum_values-added sum [] = refl
  sum_values-added sum (m ∷ metrics) = sum_values-added (arithmetic.add sum m.value) metrics

  -- When a rule is to alert about these metrics.
  abbrev pub Fires : AlertRule D I → List (Metric D I) → Type 0
  Fires rule metrics =
      (metrics ≢ [])
      × (((rule.condition ≡ codes ">") × (arithmetic.above (mean metrics) rule.threshold ≡ true))
          ⊎ ((rule.condition ≡ codes "<")
              × (arithmetic.below (mean metrics) rule.threshold ≡ true)))

  triggered-fires :
      (rule : AlertRule D I) (avg : D)
      → (triggered rule avg ≡ true) ↔ (
          ((rule.condition ≡ codes ">") × (arithmetic.above avg rule.threshold ≡ true))
          ⊎ ((rule.condition ≡ codes "<") × (arithmetic.below avg rule.threshold ≡ true)))
  unfolding triggered
  triggered-fires rule avg =
      ground (arith, beq_iff rule.condition (codes ">"), beq_iff rule.condition (codes "<"))

  judge-Fires :
      (rule : AlertRule D I) (metrics : List (Metric D I))
      → (Fires rule metrics
          × (judge rule metrics
              ≡ some (record { rule = rule; avg = mean metrics; samples = length metrics })))
        ⊎ ((Fires rule metrics → ⊥) × (judge rule metrics ≡ none))
  unfolding judge average
  judge-Fires rule [] = inr ((λ f. f.0 refl), refl)
  judge-Fires rule (m ∷ metrics) =
      let avg = mean (m ∷ metrics) in
      let same : average (m ∷ metrics) ≡ avg =
        ap (λ sum. arithmetic.over sum (length (m ∷ metrics)))
          (sum_values-added arithmetic.zero_sum (m ∷ metrics)) in
      let outcome : Bool → Option (Alert D I) = λ b.
        if b
        then some (record { rule = rule; avg = avg; samples = length (m ∷ metrics) })
        else none in
      elim (Bool-cases (triggered rule avg)) [
        | inl e ↦
            inl (((λ empty. cc empty), (triggered-fires rule avg).0 e), (rw same (ap outcome e)))
        | inr e ↦ inr ((λ f. cc ((triggered-fires rule avg).1 f.1, e)), (rw same (ap outcome e)))
      ]

  -- The start of the window that ends now.
  abbrev pub window_start : AlertRule D I → I → I
  window_start rule now_ms = arithmetic.minus now_ms (arithmetic.in_ms rule.window_seconds)

module _ {D I : Type 0} (ops : NumberOps D I) (arithmetic : Arithmetic D I) (rounded : D → D)
    (reads : Reads ops rounded) where
  -- The pushed metrics that a rule is about.
  abbrev pub in_window : AlertRule D I → I → List (Event D I) → List (Metric D I)
  in_window rule now_ms events =
      matching (wanted ops rule.metric_name (window_start ops arithmetic rule now_ms) now_ms)
        (map (kept ops rounded reads) (pushed ops events))

  -- Once the storage thread has worked off what was pushed, a rule alerts exactly when some pushed
  -- metric of its name lies in its window and their average is on the side of the threshold that
  -- its condition names, and the alert carries that average and their number. The storage is as for
  -- `query-run`: names have no quotation mark and no line feed, numbers are read back from their
  -- texts, and the file can be opened.
  pub evaluate_rule-run :
      (events : List (Event D I)) (k : ℕ) (rule : AlertRule D I) (now_ms : I)
      → All (λ m. IsName m.name) (pushed ops events)
      → length (pushed ops events) ≤ k
      → (Fires ops arithmetic rule (in_window rule now_ms events)
          × (evaluate_rule ops arithmetic
                (run ops (started ops) (events ++ replicate k works)).file
                now_ms
                rule
              ≡ some (
                  some (record {
                    rule = rule;
                    avg = mean ops arithmetic (in_window rule now_ms events);
                    samples = length (in_window rule now_ms events);
                  }))))
        ⊎ ((Fires ops arithmetic rule (in_window rule now_ms events) → ⊥)
            × (evaluate_rule ops arithmetic
                  (run ops (started ops) (events ++ replicate k works)).file
                  now_ms
                  rule
                ≡ some none))
  unfolding evaluate_rule
  evaluate_rule-run events k rule now_ms names enough =
      let metrics = in_window rule now_ms events in
      let found =
        query-run ops rounded reads events k rule.metric_name
          (window_start ops arithmetic rule now_ms) now_ms names enough in
      let judged : evaluate_rule ops arithmetic
            (run ops (started ops) (events ++ replicate k works)).file now_ms rule
          ≡ some (judge ops arithmetic rule metrics) =
        rw (evaluate_rule, found) refl in
      elim (judge-Fires ops arithmetic rule metrics) [
        | inl (f, e) ↦ inl (f, judged ∙ ap some e)
        | inr (f, e) ↦ inr (f, judged ∙ ap some e)
      ]
