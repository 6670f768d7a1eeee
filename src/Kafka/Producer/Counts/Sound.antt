-- ===== src/Kafka/Producer/Counts/Sound.antt =====
-- The counters of a new producer, and after any run from there.
use systems_craft.Prelude.{
  ℕ, zero, suc, ◌%◌, ◌^◌, ◌<◌, ◌≡◌, refl, sym, ap, ◌∙◌, inl, inr, true, List, [], ◌∷◌, Option, none,
  some, arith, Bytes, Option-cases, get_or, length,
}
use systems_craft.Kafka.Producer.{
  Client, PartitionProducer, KafkaProducer, make_producers, kafka_producer,
}
use systems_craft.Kafka.Producer.Counts.{accepted, always, on_partition, counts, Counts}
use systems_craft.Kafka.Producer.Calls.{Event, System, begun, calls_of, run}
use systems_craft.Kafka.Producer.Counts.Runs.{run-Counts, run_calls}

get_or-zero : (l : List ℕ) (i : ℕ) → ((j : ℕ) → get_or l j 0 ≡ 0) → get_or (0 ∷ l) i 0 ≡ 0
get_or-zero l zero h = refl
get_or-zero l (suc i) h = h i

module _ {ℓ} {P : Type ℓ} where
  counts-make_producers :
      (created : List (Option P)) (pps : List (PartitionProducer P))
      → make_producers created ≡ some pps
      → (length (counts pps) ≡ length created) × ((i : ℕ) → get_or (counts pps) i 0 ≡ 0)
  unfolding make_producers
  counts-make_producers [] [] h = (refl, λ i. refl)
  counts-make_producers [] (pp ∷ pps) h = cc h
  counts-make_producers (none ∷ created) pps h = cc h
  counts-make_producers (some p ∷ created) pps h = elim (Option-cases (make_producers created)) [
    | inl e ↦ absurd (ground (arith, h, e))
    | inr (rest, e) ↦
        let ih = counts-make_producers created rest e in
        let made : record { producer = some p; poll_running = true; message_count = 0 } ∷ rest
            ≡ pps =
          ground (arith, h, e) in
        (
          ap (λ l. length (counts l)) (sym made) ∙ ap suc ih.0,
          λ i. ap (λ l. get_or (counts l) i 0) (sym made) ∙ get_or-zero (counts rest) i ih.1,
        )
  ]

  kafka_producer-Counts :
      (hash : Bytes → ℕ) (brokers topic : Bytes) (created : List (Option P)) (k : KafkaProducer P)
      → kafka_producer brokers topic created ≡ some k
      → Counts hash (length created) k []
  unfolding kafka_producer
  kafka_producer-Counts hash brokers topic created k h =
      elim (Option-cases (make_producers created)) [
        | inl e ↦ absurd (ground (arith, h, e))
        | inr (pps, e) ↦
            let made : record {
              brokers = brokers;
              topic = topic;
              partition_producers = pps;
              num_partitions = length created;
              total_message_count = 0;
            }
                ≡ k =
              ground (arith, h, e) in
            let zeros = counts-make_producers created pps e in
            rw (sym made) (record {
              width = refl;
              partitions = zeros.0;
              total = refl;
              each = λ i inside. zeros.1 i;
            })
      ]

  abbrev pub fresh_system : KafkaProducer P → System P
  fresh_system k = record { producer = k; waiting = []; returned = [] }

  -- After any interleaving of calls, second attempts, polls and flushes from the constructor on,
  -- the total is the number of calls that have returned without an error, modulo 2 ^ 32, the
  -- counter of each partition the number of those whose key belongs to it, and every call has
  -- returned once or still waits for its second attempt.
  pub run-kafka_producer :
      (client : Client P) (hash : Bytes → ℕ) (brokers topic : Bytes) (created : List (Option P))
      (k : KafkaProducer P) (events : List Event)
      → kafka_producer brokers topic created ≡ some k
      → ((run client hash (fresh_system k) events).producer.total_message_count
          ≡ accepted always (run client hash (fresh_system k) events).returned % 2 ^ 32)
        × ((i : ℕ)
            → i < length created
            → get_or
                (counts (run client hash (fresh_system k) events).producer.partition_producers)
                i
                0
              ≡ accepted
                  (on_partition hash (length created) i)
                  (run client hash (fresh_system k) events).returned
                % 2 ^ 32)
        × (calls_of (run client hash (fresh_system k) events) ≡ begun events)
  run-kafka_producer client hash brokers topic created k events h =
      let c =
        run-Counts client hash (length created) events (fresh_system k)
          (kafka_producer-Counts hash brokers topic created k h) in
      (c.total, c.each, run_calls client hash events (fresh_system k) ∙ omega arith)
