-- ===== src/FileQueue/Delivery/System/Seen.antt =====
-- What the log, the committed and the processed messages of a partition have to do with each other,
-- and what a poll, a message sent and a kill change.
use mathlib.Core.Path.{subst}
use systems_craft.Prelude.{
  ℕ, zero, suc, ◌+◌, ◌≤◌, ◌≡◌, refl, sym, ap, ◌∙◌, inl, inr, true, List, [], ◌∷◌, ◌++◌, arith,
  Bytes, replicate, append-nil, append_assoc, ◌==◌, if◌then◌else◌, Bool-cases, Option-cases,
}
use systems_craft.FileQueue.Consumer.{read_next, consume_partition}
use systems_craft.FileQueue.Delivery.Round.{delivered_next}
use systems_craft.FileQueue.Delivery.System.{System, allowed}
use systems_craft.FileQueue.Delivery.System.Kills.{uncommitted, firsts, spread, extra, again}

again_zero : (rest : List Bytes) → again 0 rest ≡ []
again_zero [] = refl
again_zero (m ∷ rest) = refl

replicate-last : (j : ℕ) (m : Bytes) → replicate j m ++ m ∷ [] ≡ replicate (suc j) m
replicate-last zero m = refl
replicate-last (suc j) m = ap (λ l. m ∷ l) (replicate-last j m)

firsts-append :
    (times more : List (Bytes × ℕ)) → firsts (times ++ more) ≡ firsts times ++ firsts more
firsts-append [] more = refl
firsts-append (t ∷ times) more = ap (λ l. t.0 ∷ l) (firsts-append times more)

spread-append :
    (times more : List (Bytes × ℕ)) → spread (times ++ more) ≡ spread times ++ spread more
spread-append [] more = refl
spread-append ((m, k) ∷ times) more =
    ap (λ l. replicate (suc k) m ++ l) (spread-append times more)
    ∙ sym (append_assoc (replicate (suc k) m) (spread times) (spread more))

extra-append : (times more : List (Bytes × ℕ)) → extra (times ++ more) ≡ extra times + extra more
extra-append [] more = omega arith
extra-append ((m, k) ∷ times) more = omega (arith, extra-append times more)

-- What was processed of a partition is what was committed, with repetitions, and some times the
-- next message.
pub record Seen (log committed processed : List Bytes) (bound : ℕ) : Type 0 where
  pub times : List (Bytes × ℕ)
  pub j : ℕ
  pub rest : List Bytes
  pub order : log ≡ committed ++ rest
  pub once : committed ≡ firsts times
  pub seen : processed ≡ spread times ++ again j rest
  pub few : extra times + j ≤ bound

pub Seen-grow :
    (log committed processed more : List Bytes) (b : ℕ)
    → Seen log committed processed b
    → Seen (log ++ more) committed processed b
Seen-grow log committed processed more b s = by_rest s.rest s.order s.seen
  where
    by_rest :
        (rest : List Bytes)
        → log ≡ committed ++ rest
        → processed ≡ spread s.times ++ again s.j rest
        → Seen (log ++ more) committed processed b
    by_rest [] e k = record {
      times = s.times;
      j = 0;
      rest = more;
      order = ap (λ l. l ++ more) (e ∙ append-nil committed);
      once = s.once;
      seen = k ∙ ap (λ l. spread s.times ++ l) (sym (again_zero more));
      few = omega (arith, s.few);
    }
    by_rest (m ∷ rest) e k = record {
      times = s.times;
      j = s.j;
      rest = m ∷ (rest ++ more);
      order = ap (λ l. l ++ more) e ∙ append_assoc committed (m ∷ rest) more;
      once = s.once;
      seen = k;
      few = s.few;
    }

Seen-commit :
    (log committed processed times_rest : List Bytes) (m : Bytes) (b : ℕ)
    → (s : Seen log committed processed b) → s.rest ≡ m ∷ times_rest
    → Seen log (committed ++ m ∷ []) (processed ++ m ∷ []) b
Seen-commit log committed processed rest m b s e = record {
  times = s.times ++ (m, s.j) ∷ [];
  j = 0;
  rest = rest;
  order = s.order ∙ ap (λ l. committed ++ l) e ∙ sym (append_assoc committed (m ∷ []) rest);
  once = ap (λ l. l ++ m ∷ []) s.once ∙ sym (firsts-append s.times ((m, s.j) ∷ []));
  seen =
      ap (λ l. l ++ m ∷ []) (s.seen ∙ ap (λ l. spread s.times ++ again s.j l) e)
      ∙ append_assoc (spread s.times) (replicate s.j m) (m ∷ [])
      ∙ ap (λ l. spread s.times ++ l)
          (replicate-last s.j m ∙ sym (append-nil (replicate (suc s.j) m)))
      ∙ sym (spread-append s.times ((m, s.j) ∷ []))
      ∙ sym (append-nil _)
      ∙ ap (λ l. spread (s.times ++ (m, s.j) ∷ []) ++ l) (sym (again_zero rest));
  few = omega (arith, s.few, extra-append s.times ((m, s.j) ∷ []));
}

Seen-kill :
    (log committed processed times_rest : List Bytes) (m : Bytes) (b : ℕ)
    → (s : Seen log committed processed b) → s.rest ≡ m ∷ times_rest
    → Seen log committed (processed ++ m ∷ []) (suc b)
Seen-kill log committed processed rest m b s e = record {
  times = s.times;
  j = suc s.j;
  rest = m ∷ rest;
  order = s.order ∙ ap (λ l. committed ++ l) e;
  once = s.once;
  seen =
      ap (λ l. l ++ m ∷ []) (s.seen ∙ ap (λ l. spread s.times ++ again s.j l) e)
      ∙ append_assoc (spread s.times) (replicate s.j m) (m ∷ [])
      ∙ ap (λ l. spread s.times ++ l) (replicate-last s.j m);
  few = omega (arith, s.few);
}

pub Seen-later :
    (log committed processed : List Bytes) (b b' : ℕ)
    → b ≤ b'
    → Seen log committed processed b
    → Seen log committed processed b'
Seen-later log committed processed b b' le s = record {
  times = s.times;
  j = s.j;
  rest = s.rest;
  order = s.order;
  once = s.once;
  seen = s.seen;
  few = omega (arith, s.few);
}

-- The repetitions after a kill in partition `p`.
abbrev pub next_bound : (ℕ → ℕ) → ℕ → ℕ → ℕ
next_bound b p q = if p == q then suc (b q) else b q

pub Seen-polled :
    (log committed processed : ℕ → List Bytes) (b : ℕ → ℕ) (p : ℕ) (rest : List Bytes)
    → (seen : (q : ℕ) → Seen (log q) (committed q) (processed q) (b q)) → (seen p).rest ≡ rest
    → (q : ℕ)
    → Seen (log q) (delivered_next committed p rest q) (delivered_next processed p rest q) (b q)
Seen-polled log committed processed b p [] seen e q = seen q
Seen-polled log committed processed b p (m ∷ rest) seen e q = elim (Bool-cases (p == q)) [
  | inl t ↦
      let same : p ≡ q = ground (arith, t) in
      let here : (seen q).rest ≡ m ∷ rest = subst (λ i. (seen i).rest ≡ m ∷ rest) same e in
      rw t (Seen-commit (log q) (committed q) (processed q) rest m (b q) (seen q) here)
  | inr f ↦ rw f (seen q)
]

pub Seen-killed :
    (log committed processed : ℕ → List Bytes) (b : ℕ → ℕ) (p : ℕ) (rest : List Bytes)
    → (seen : (q : ℕ) → Seen (log q) (committed q) (processed q) (b q)) → (seen p).rest ≡ rest
    → (q : ℕ) → Seen (log q) (committed q) (delivered_next processed p rest q) (next_bound b p q)
Seen-killed log committed processed b p [] seen e q =
    Seen-later (log q) (committed q) (processed q) (b q) (next_bound b p q) (ground arith) (seen q)
Seen-killed log committed processed b p (m ∷ rest) seen e q = elim (Bool-cases (p == q)) [
  | inl t ↦
      let same : p ≡ q = ground (arith, t) in
      let here : (seen q).rest ≡ m ∷ rest = subst (λ i. (seen i).rest ≡ m ∷ rest) same e in
      rw t (Seen-kill (log q) (committed q) (processed q) rest m (b q) (seen q) here)
  | inr f ↦ rw f (seen q)
]

pub uncommitted-polled :
    (sys : System) (p : ℕ)
    → sys.consumer.running ≡ true
    → uncommitted sys p ≡ (consume_partition allowed sys.consumer sys.disk p).2
unfolding uncommitted consume_partition
uncommitted-polled sys p on = elim (Option-cases (read_next sys.consumer sys.disk p).1) [
  | inl e ↦ ground (arith, on, e)
  | inr (m, e) ↦ ground (arith, on, e)
]
