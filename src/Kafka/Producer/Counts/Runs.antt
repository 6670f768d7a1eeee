-- ===== src/Kafka/Producer/Counts/Runs.antt =====
-- The counters in every interleaving of calls, second attempts, polls and flushes.
use systems_craft.Prelude.{
  ℕ, zero, suc, ◌+◌, ◌%◌, ◌^◌, ◌≡◌, refl, sym, ap, ◌∙◌, inl, inr, List, [], ◌∷◌, some, arith, Bytes,
  Option-cases, Bool-cases, get_elem?, get_or, length,
}
use systems_craft.Kafka.Producer.{
  Client, PartitionProducer, KafkaProducer, ErrorCode, no_error, err_state, err_queue_full,
  err_other, Attempt, returns, retries, is_ok, key_pointer, select_partition, increment, counted,
  retry_of, attempt, produce, produce_again, poll_partition, poll_round, flush_one, flush_all,
  flush,
}
use systems_craft.Kafka.Producer.Counts.{
  always, on_partition, counts, Counts, accepted_error, error-Counts, same_count-Counts, ok-Counts,
}
use systems_craft.Kafka.Producer.Calls.{
  Event, calls, resumes, polls, flushes, System, begun, pick, after_call, calls_of, step, run,
}

module _ {ℓ} {P : Type ℓ} (client : Client P) (hash : Bytes → ℕ) where
  module _ (n : ℕ) where
    -- A result that is no message may be left out.
    forget-Counts :
        {k : KafkaProducer P} (results : List (Bytes × ErrorCode)) (key : Bytes)
        → Counts hash n k ((key, err_queue_full) ∷ results)
        → Counts hash n k results
    forget-Counts results key d = record {
      width = d.width;
      partitions = d.partitions;
      total =
          d.total ∙ ap (λ a. a % 2 ^ 32) (accepted_error always key err_queue_full results refl);
      each = λ i inside.
          d.each i inside
          ∙ ap (λ a. a % 2 ^ 32)
              (accepted_error (on_partition hash n i) key err_queue_full results refl);
    }

    counted-Counts :
        (k : KafkaProducer P) (results : List (Bytes × ErrorCode)) (key : Bytes) (err : ErrorCode)
        (pp : PartitionProducer P) (p : P)
        → get_elem? k.partition_producers (hash key % n) ≡ some pp
        → Counts hash n k results
        → Counts hash n (counted (hash key % n) pp p err k) ((key, err) ∷ results)
    unfolding counted
    counted-Counts k results key err pp p there c = elim (Bool-cases (is_ok err)) [
      | inl ok ↦
          rw (counted, ok)
            (ok-Counts hash n k results key err pp
              (record pp { producer = some p; message_count = increment pp.message_count }) ok there
              refl c)
      | inr bad ↦
          rw (counted, bad)
            (error-Counts hash n _ results key err bad (
              same_count-Counts hash n k results (hash key % n) pp (record pp { producer = some p })
                there refl c))
    ]

    located-Counts :
        (k : KafkaProducer P) (results : List (Bytes × ErrorCode)) (key : Bytes) (err : ErrorCode)
        (pp : PartitionProducer P) (p : P) (i : ℕ)
        → i ≡ hash key % n
        → get_elem? k.partition_producers i ≡ some pp
        → Counts hash n k results
        → Counts hash n (counted i pp p err k) ((key, err) ∷ results)
    located-Counts k results key err pp p i same there c = rw same (
        counted-Counts k results key err pp p
          (ap (get_elem? k.partition_producers) (sym same) ∙ there) c)

    attempt-Counts :
        (k : KafkaProducer P) (results : List (Bytes × ErrorCode)) (key message : Bytes)
        → Counts hash n k results
        → Counts hash n
            (attempt client hash k key message).0
            ((key, (attempt client hash k key message).1) ∷ results)
    unfolding attempt select_partition
    attempt-Counts k results key message c =
        elim (Option-cases (get_elem? k.partition_producers (select_partition hash k key))) [
          | inl e ↦ rw (attempt, e) (error-Counts hash n k results key err_state refl c)
          | inr (pp, e) ↦ elim (Option-cases pp.producer) [
            | inl f ↦ rw (attempt, e, f) (error-Counts hash n k results key err_state refl c)
            | inr (p, f) ↦
                let done = client.produce p k.topic (key_pointer key) message in
                rw (attempt, e, f)
                  (located-Counts k results key done.1 pp done.0 (select_partition hash k key)
                    (ap (λ m. hash key % m) c.width) e c)
          ]
        ]

    poll_partition-count :
        (pp : PartitionProducer P) → (poll_partition client pp).message_count ≡ pp.message_count
    poll_partition-count pp = ground arith

    poll_round-Counts :
        (k : KafkaProducer P) (results : List (Bytes × ErrorCode)) (i : ℕ)
        → Counts hash n k results
        → Counts hash n (poll_round client i k) results
    unfolding poll_round
    poll_round-Counts k results i c = elim (Option-cases (get_elem? k.partition_producers i)) [
      | inl e ↦ rw (poll_round, e) c
      | inr (pp, e) ↦
          rw (poll_round, e)
            (same_count-Counts hash n k results i pp (poll_partition client pp) e
              (poll_partition-count pp) c)
    ]

    flush_all-counts :
        (timeout : ℕ) (pps : List (PartitionProducer P)) (err : ErrorCode)
        → counts (flush_all client timeout pps err).0 ≡ counts pps
    unfolding flush_all
    flush_all-counts timeout [] err = refl
    flush_all-counts timeout (pp ∷ pps) err =
        ap (λ l. pp.message_count ∷ l)
          (flush_all-counts timeout pps (flush_one client timeout pp.producer err).1)

    step-Counts :
        (e : Event) (sys : System P)
        → Counts hash n sys.producer sys.returned
        → Counts hash n (step client hash sys e).producer (step client hash sys e).returned
    unfolding step produce produce_again retry_of flush
    step-Counts (calls key message) sys c =
        called (attempt client hash sys.producer key message).1
          (attempt-Counts sys.producer sys.returned key message c)
      where
        called :
            (err : ErrorCode)
            → Counts hash n
                (attempt client hash sys.producer key message).0
                ((key, err) ∷ sys.returned)
            → Counts hash n
                (after_call sys key message
                  (attempt client hash sys.producer key message).0
                  (retry_of err)).producer
                (after_call sys key message
                  (attempt client hash sys.producer key message).0
                  (retry_of err)).returned
        called no_error d = d
        called err_state d = d
        called err_queue_full d = forget-Counts _ key d
        called (err_other e) d = d
    step-Counts (resumes j) sys c = elim (Option-cases (pick j sys.waiting)) [
      | inl e ↦ rw (step, e) c
      | inr (((key, message), rest), e) ↦
          rw (step, e) (attempt-Counts sys.producer sys.returned key message c)
    ]
    step-Counts (polls i) sys c = poll_round-Counts sys.producer sys.returned i c
    step-Counts (flushes timeout) sys c =
        let same = flush_all-counts timeout sys.producer.partition_producers no_error in
        record {
          width = c.width;
          partitions = ap length same ∙ c.partitions;
          total = c.total;
          each = λ i inside. ap (λ l. get_or l i 0) same ∙ c.each i inside;
        }

    pub run-Counts :
        (events : List Event) (sys : System P)
        → Counts hash n sys.producer sys.returned
        → Counts hash n (run client hash sys events).producer (run client hash sys events).returned
    unfolding run
    run-Counts [] sys c = c
    run-Counts (e ∷ events) sys c = run-Counts events (step client hash sys e) (step-Counts e sys c)

  length-pick :
      (j : ℕ) (waiting rest : List (Bytes × Bytes)) (x : Bytes × Bytes)
      → pick j waiting ≡ some (x, rest)
      → length waiting ≡ suc (length rest)
  unfolding pick
  length-pick j [] rest x h = cc h
  length-pick zero (y ∷ waiting) rest x h = ground (arith, h)
  length-pick (suc j) (y ∷ waiting) rest x h = elim (Option-cases (pick j waiting)) [
    | inl e ↦ ground (arith, h, e)
    | inr ((z, zs), e) ↦ ground (arith, h, e, length-pick j waiting zs z e)
  ]

  step_calls :
      (e : Event) (events : List Event) (sys : System P)
      → calls_of (step client hash sys e) + begun events ≡ calls_of sys + begun (e ∷ events)
  unfolding step
  step_calls (calls key message) events sys =
      called (produce client hash sys.producer key message).1
    where
      called :
          (outcome : Attempt)
          → calls_of (
                after_call sys key message (produce client hash sys.producer key message).0 outcome)
              + begun events
            ≡ calls_of sys + suc (begun events)
      called (returns err) = omega arith
      called retries = omega arith
  step_calls (resumes j) events sys = elim (Option-cases (pick j sys.waiting)) [
    | inl e ↦ rw (step, e) refl
    | inr (((key, message), rest), e) ↦
        rw (step, e) (omega (arith, length-pick j sys.waiting rest (key, message) e))
  ]
  step_calls (polls i) events sys = refl
  step_calls (flushes timeout) events sys = refl

  pub run_calls :
      (events : List Event) (sys : System P)
      → calls_of (run client hash sys events) ≡ calls_of sys + begun events
  unfolding run
  run_calls [] sys = omega arith
  run_calls (e ∷ events) sys = run_calls events (step client hash sys e) ∙ step_calls e events sys
