-- ===== src/Kafka/Producer.antt =====
-- The class KafkaProducer. `P` is a producer of librdkafka, `Client` what the class calls of it.
-- What a thread does under a partition's mutex, with the counters that follow, is one step, so
-- other calls may come between the two attempts of `produce`.
pub mod Calls
pub mod Counts
use systems_craft.Prelude.{
  ℕ, zero, suc, ◌+◌, ◌%◌, ◌^◌, Bool, true, false, List, [], ◌∷◌, ◌++◌, Option, none, some, Bytes,
  get_elem?, set, ltb, if◌then◌else◌, length,
}

pub data ErrorCode : Type 0 where
  no_error err_state err_queue_full : ErrorCode
  err_other : ℕ → ErrorCode

-- `produce` with topic, key and payload, `flush` and `poll` with a time, and `outq_len`. A key
-- that is a null pointer is `none`.
pub record Client {ℓ} (P : Type ℓ) : Type ℓ where
  pub produce : P → Bytes → Option Bytes → Bytes → P × ErrorCode
  pub flush : P → ℕ → P × ErrorCode
  pub poll : P → ℕ → P
  pub outq_len : P → ℕ

pub record PartitionProducer {ℓ} (P : Type ℓ) : Type ℓ where
  pub producer : Option P
  pub poll_running : Bool
  pub message_count : ℕ

pub record KafkaProducer {ℓ} (P : Type ℓ) : Type ℓ where
  pub brokers : Bytes
  pub topic : Bytes
  pub partition_producers : List (PartitionProducer P)
  pub num_partitions : ℕ
  pub total_message_count : ℕ

-- What `produce` does after an attempt: return, or wait and try once more.
pub data Attempt : Type 0 where
  returns : ErrorCode → Attempt
  retries : Attempt

-- The counters are of type `atomic<int>`.
pub increment : ℕ → ℕ
increment n = (n + 1) % 2 ^ 32

abbrev pub key_pointer : Bytes → Option Bytes
key_pointer [] = none
key_pointer (c ∷ key) = some (c ∷ key)

pub retry_of : ErrorCode → Attempt
retry_of no_error = returns no_error
retry_of err_state = returns err_state
retry_of err_queue_full = retries
retry_of (err_other e) = returns (err_other e)

abbrev pub is_ok : ErrorCode → Bool
is_ok no_error = true
is_ok err_state = false
is_ok err_queue_full = false
is_ok (err_other e) = false

module _ {ℓ} {P : Type ℓ} where
  -- One round of the constructor's loop makes a producer or throws.
  unfoldable pub make_producers : List (Option P) → Option (List (PartitionProducer P))
  make_producers [] = some []
  make_producers (none ∷ created) = none
  make_producers (some p ∷ created) = elim (make_producers created) [
    | none ↦ none
    | some rest ↦ some (record { producer = some p; poll_running = true; message_count = 0 } ∷ rest)
  ]

  -- `created` is what the rounds get: a producer, or an exception where the brokers cannot be set
  -- or Producer::create fails.
  unfoldable pub kafka_producer : Bytes → Bytes → List (Option P) → Option (KafkaProducer P)
  unfolding make_producers
  kafka_producer brokers topic created = elim (make_producers created) [
    | none ↦ none
    | some producers ↦ some (record {
      brokers = brokers;
      topic = topic;
      partition_producers = producers;
      num_partitions = length created;
      total_message_count = 0;
    })
  ]

  pub select_partition : (Bytes → ℕ) → KafkaProducer P → Bytes → ℕ
  select_partition hash k key = hash key % k.num_partitions

  -- The counters after the result of an attempt on the partition `i`.
  pub counted : ℕ → PartitionProducer P → P → ErrorCode → KafkaProducer P → KafkaProducer P
  unfolding increment
  counted i pp p err k =
      if is_ok err
      then record k {
        partition_producers =
            set k.partition_producers i
              (record pp { producer = some p; message_count = increment pp.message_count });
        total_message_count = increment k.total_message_count;
      }
      else record k {
        partition_producers = set k.partition_producers i (record pp { producer = some p });
      }

  abbrev pub stop_polling : List (PartitionProducer P) → List (PartitionProducer P)
  stop_polling [] = []
  stop_polling (pp ∷ pps) = record pp { poll_running = false } ∷ stop_polling pps

module _ {ℓ} {P : Type ℓ} (client : Client P) where
  -- A locked call of the library on the partition of the key. Out of range, which the vector's
  -- length rules out, it is as without a producer.
  pub attempt : (Bytes → ℕ) → KafkaProducer P → Bytes → Bytes → KafkaProducer P × ErrorCode
  unfolding select_partition counted
  attempt hash k key message =
      let i = select_partition hash k key in
      elim (get_elem? k.partition_producers i) [
        | none ↦ (k, err_state)
        | some pp ↦ elim pp.producer [
          | none ↦ (k, err_state)
          | some p ↦
              let (q, err) = client.produce p k.topic (key_pointer key) message in
              (counted i pp q err k, err)
        ]
      ]

  -- `produce` up to its pause, and from there on.
  unfoldable pub produce : (Bytes → ℕ) → KafkaProducer P → Bytes → Bytes → KafkaProducer P × Attempt
  unfolding attempt retry_of
  produce hash k key message = let (k', err) = attempt hash k key message in (k', retry_of err)

  pub produce_again : (Bytes → ℕ) → KafkaProducer P → Bytes → Bytes → KafkaProducer P × ErrorCode
  unfolding attempt
  produce_again hash k key message = attempt hash k key message

  -- A round of `poll_loop` on a partition.
  abbrev pub poll_partition : PartitionProducer P → PartitionProducer P
  poll_partition pp =
      if pp.poll_running
      then elim pp.producer [
        | none ↦ pp
        | some p ↦ record pp { producer = some (client.poll p 100) }
      ]
      else pp

  pub poll_round : ℕ → KafkaProducer P → KafkaProducer P
  poll_round i k = elim (get_elem? k.partition_producers i) [
    | none ↦ k
    | some pp ↦ record k { partition_producers = set k.partition_producers i (poll_partition pp) }
  ]

  -- A round of the loop of `flush`, with the last error so far.
  abbrev pub flush_one : ℕ → Option P → ErrorCode → Option P × ErrorCode
  flush_one timeout none final_err = (none, final_err)
  flush_one timeout (some p) final_err =
      let (q, err) = client.flush p timeout in (some q, if is_ok err then final_err else err)

  pub flush_all :
      ℕ → List (PartitionProducer P) → ErrorCode → List (PartitionProducer P) × ErrorCode
  flush_all timeout [] final_err = ([], final_err)
  flush_all timeout (pp ∷ pps) final_err =
      let (producer, err) = flush_one timeout pp.producer final_err in
      let (rest, last) = flush_all timeout pps err in
      (record pp { producer = producer } ∷ rest, last)

  pub flush : ℕ → KafkaProducer P → KafkaProducer P × ErrorCode
  unfolding flush_all
  flush timeout k =
      let (pps, err) = flush_all timeout k.partition_producers no_error in
      (record k { partition_producers = pps }, err)

  -- The last polls of the destructor, `n` of them at most.
  pub drain : ℕ → P → P
  drain zero p = p
  drain (suc n) p =
      let later = drain n (client.poll p 100) in if ltb 0 (client.outq_len p) then later else p

  pub drain_one : Option P → Option P
  unfolding drain
  drain_one none = none
  drain_one (some p) = some (drain 100 p)

  pub drain_all : List (PartitionProducer P) → List (PartitionProducer P)
  unfolding drain_one
  drain_all [] = []
  drain_all (pp ∷ pps) = record pp { producer = drain_one pp.producer } ∷ drain_all pps

  -- The destructor, once the poll threads have left their loops.
  unfoldable pub shut_down : KafkaProducer P → KafkaProducer P
  unfolding flush drain_all
  shut_down k =
      let stopped : KafkaProducer P = record k {
        partition_producers = stop_polling k.partition_producers;
      } in
      let flushed = (flush 10000 stopped).0 in
      record flushed { partition_producers = drain_all flushed.partition_producers }
