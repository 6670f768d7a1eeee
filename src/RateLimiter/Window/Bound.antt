-- ===== src/RateLimiter/Window/Bound.antt =====
-- RateLimiter: how many requests of one client are admitted in any second.
use systems_craft.Prelude.{
  ℕ, ◌+◌, ◌≤◌, Bool, ◌&&◌, List, [], ◌∷◌, arith, Bytes, beq, beq_iff, leb, ltb, if◌then◌else◌,
}
use systems_craft.RateLimiter.{second, rate_limiter}
use systems_craft.RateLimiter.Window.{
  count_recent, window_step, window_decisions, decisions, Monotone, decisions-eq-window_decisions,
}

-- The calls that were admitted.
pub admissions : List Bool → List (Bytes × ℕ) → List (Bytes × ℕ)
admissions [] calls = []
admissions (d ∷ ds) [] = []
admissions (d ∷ ds) (call ∷ calls) = if d then call ∷ admissions ds calls else admissions ds calls

-- The entries of a client in the second that ends with time `t`.
pub count_window : ℕ → Bytes → List (Bytes × ℕ) → ℕ
count_window t client [] = 0
count_window t client ((c, s) ∷ calls) =
    (if beq c client && (leb s t && ltb t (s + second)) then 1 else 0) + count_window t client calls

count_window-le :
    (now t : ℕ) (c : Bytes) (history : List (Bytes × ℕ))
    → now ≤ t
    → count_window t c history ≤ count_recent now c history
unfolding count_window count_recent
count_window-le now t c [] h = omega arith
count_window-le now t c ((k, s) ∷ history) h = ground (arith, count_window-le now t c history h)

abbrev Bounded : ℕ → List (Bytes × ℕ) → Type 0
Bounded max history = (t : ℕ) (c : Bytes) → count_window t c history ≤ max

window_step-Bounded :
    (max : ℕ) (history : List (Bytes × ℕ)) (client : Bytes) (now t : ℕ) (c : Bytes)
    → Bounded max history
    → count_window t c (window_step max history client now).0 ≤ max
unfolding window_step count_window
window_step-Bounded max history client now t c b =
    ground (arith, beq_iff client c, count_window-le now t c history, b t c)

-- Admitting what the specification admits keeps every window within the limit.
admissions-Bounded :
    (max : ℕ) (calls history : List (Bytes × ℕ)) (t : ℕ) (c : Bytes)
    → Bounded max history
    → count_window t c history
        + count_window t c (admissions (window_decisions max history calls) calls)
      ≤ max
unfolding admissions count_window window_decisions window_step
admissions-Bounded max [] history t c b = omega (arith, b t c)
admissions-Bounded max ((client, now) ∷ calls) history t c b = ground (
  arith,
  admissions-Bounded max calls (window_step max history client now).0 t c
      (λ t' c'. window_step-Bounded max history client now t' c' b),
)

-- For calls in the order of the clock, at most `max` requests of any client are admitted in any
-- second, wherever it begins.
pub admissions-le-max :
    (max : ℕ) (calls : List (Bytes × ℕ)) (t : ℕ) (c : Bytes)
    → Monotone 0 calls
    → count_window t c (admissions (decisions (rate_limiter max) calls) calls) ≤ max
unfolding count_window
admissions-le-max max calls t c m =
    rw (decisions-eq-window_decisions max calls m)
      (omega (arith, admissions-Bounded max calls [] t c (λ t' c'. omega arith)))
