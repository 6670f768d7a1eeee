-- ===== src/Kafka/Producer/Calls.antt =====
-- Calls of a KafkaProducer by several threads: one sequence of events, in which a call may wait
-- between its two attempts.
use systems_craft.Prelude.{ℕ, zero, suc, ◌+◌, List, [], ◌∷◌, Option, none, some, Bytes, length}
use systems_craft.Kafka.Producer.{
  Client, KafkaProducer, ErrorCode, Attempt, returns, retries, produce, produce_again, poll_round,
  flush,
}

-- A call that begins, a waiting call that goes on, a round of a poll thread, and a flush.
pub data Event : Type 0 where
  calls : Bytes → Bytes → Event
  resumes polls flushes : ℕ → Event

-- The calls that wait for their second attempt, and the results of those that have returned, the
-- last one first.
pub record System {ℓ} (P : Type ℓ) : Type ℓ where
  pub producer : KafkaProducer P
  pub waiting : List (Bytes × Bytes)
  pub returned : List (Bytes × ErrorCode)

-- The calls among the events.
abbrev pub begun : List Event → ℕ
begun [] = 0
begun (calls key message ∷ events) = suc (begun events)
begun (resumes j ∷ events) = begun events
begun (polls i ∷ events) = begun events
begun (flushes timeout ∷ events) = begun events

unfoldable pub pick : {A : Type 0} → ℕ → List A → Option (A × List A)
pick j [] = none
pick zero (x ∷ xs) = some (x, xs)
pick (suc j) (x ∷ xs) = elim (pick j xs) [ none ↦ none | some (y, ys) ↦ some (y, x ∷ ys) ]

-- How a call goes on after its first attempt.
abbrev pub after_call {ℓ} :
    {P : Type ℓ} → System P → Bytes → Bytes → KafkaProducer P → Attempt → System P
after_call sys key message k (returns err) = record {
  producer = k;
  waiting = sys.waiting;
  returned = (key, err) ∷ sys.returned;
}
after_call sys key message k retries = record {
  producer = k;
  waiting = (key, message) ∷ sys.waiting;
  returned = sys.returned;
}

abbrev pub calls_of {ℓ} : {P : Type ℓ} → System P → ℕ
calls_of sys = length sys.returned + length sys.waiting

module _ {ℓ} {P : Type ℓ} (client : Client P) (hash : Bytes → ℕ) where
  unfoldable pub step : System P → Event → System P
  unfolding pick produce produce_again poll_round flush
  step sys (calls key message) =
      let (k, outcome) = produce client hash sys.producer key message in
      after_call sys key message k outcome
  step sys (resumes j) = elim (pick j sys.waiting) [
    | none ↦ sys
    | some ((key, message), rest) ↦
        let (k, err) = produce_again client hash sys.producer key message in
        record { producer = k; waiting = rest; returned = (key, err) ∷ sys.returned }
  ]
  step sys (polls i) = record sys { producer = poll_round client i sys.producer }
  step sys (flushes timeout) = record sys { producer = (flush client timeout sys.producer).0 }

  unfoldable pub run : System P → List Event → System P
  unfolding step
  run sys [] = sys
  run sys (e ∷ events) = run (step sys e) events
