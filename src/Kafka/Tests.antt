-- ===== src/Kafka/Tests.antt =====
-- The producer over a queue of two messages, and the consumer on concrete messages.
use systems_craft.Prelude.{
  ℕ, ◌%◌, ◌^◌, ◌<◌, ◌≡◌, refl, true, false, List, [], ◌∷◌, ◌++◌, none, some, Bytes, codes, leb,
  get_or, drop, if◌then◌else◌, length,
}
use systems_craft.Kafka.Producer.{
  ErrorCode, no_error, err_queue_full, Client, KafkaProducer, kafka_producer, make_producers,
}
use systems_craft.Kafka.Producer.Counts.{accepted, always, on_partition, counts}
use systems_craft.Kafka.Producer.Calls.{Event, calls, resumes, polls, flushes, begun, run, calls_of}
use systems_craft.Kafka.Producer.Counts.Sound.{fresh_system, run-kafka_producer}
use systems_craft.Kafka.Consumer.{KafkaConsumer, Round, kafka_consumer, no_error, timed_out, start}
use systems_craft.Kafka.Consumer.Handled.{all_handed, until_stopped, start-handed}

abbrev queue : Client (List Bytes)
queue = record {
  produce = λ p topic key message.
      if leb 2 (length p) then (p, err_queue_full) else (p ++ message ∷ [], ErrorCode.no_error);
  flush = λ p timeout. (p, ErrorCode.no_error);
  poll = λ p timeout. drop 1 p;
  outq_len = λ p. length p;
}

abbrev two : KafkaProducer (List Bytes)
two = record {
  brokers = codes "localhost:9092";
  topic = codes "metrics";
  partition_producers =
      record { producer = some []; poll_running = true; message_count = 0 }
      ∷ record { producer = some []; poll_running = true; message_count = 0 }
      ∷ [];
  num_partitions = 2;
  total_message_count = 0;
}

two_made :
    kafka_producer (codes "localhost:9092") (codes "metrics") (some [] ∷ some [] ∷ []) ≡ some two
unfolding kafka_producer make_producers
two_made = refl

-- The third message finds its partition full, and is taken after a poll.
abbrev events : List Event
events =
    calls (codes "k") (codes "a")
    ∷ calls (codes "k") (codes "b")
    ∷ calls (codes "k") (codes "c")
    ∷ calls (codes "ab") (codes "d")
    ∷ polls 1
    ∷ resumes 0
    ∷ flushes 5000
    ∷ []

run-kafka_producer_example :
    ((run queue length (fresh_system two) events).producer.total_message_count
      ≡ accepted always (run queue length (fresh_system two) events).returned % 2 ^ 32)
    × ((i : ℕ)
        → i < 2
        → get_or
            (counts (run queue length (fresh_system two) events).producer.partition_producers)
            i
            0
          ≡ accepted (on_partition length 2 i) (run queue length (fresh_system two) events).returned
            % 2 ^ 32)
    × (calls_of (run queue length (fresh_system two) events) ≡ begun events)
run-kafka_producer_example =
    run-kafka_producer queue length (codes "localhost:9092") (codes "metrics")
      (some [] ∷ some [] ∷ []) two events two_made

abbrev rounds : List Round
rounds =
    record {
      message = record { err = no_error; key = some (codes "k"); payload = some (codes "v") };
      stopped = false;
    }
    ∷ record { message = record { err = timed_out; key = none; payload = none }; stopped = false }
    ∷ record {
      message = record { err = no_error; key = none; payload = some (codes "w") };
      stopped = true;
    }
    ∷ record { message = record { err = no_error; key = none; payload = none }; stopped = false }
    ∷ []

start-handed_example :
    (start false rounds kafka_consumer ≡ none)
    × ((c : KafkaConsumer) × (start true rounds kafka_consumer ≡ some c)
        × (c.handled ≡ all_handed (until_stopped rounds))
        × (c.message_count ≡ length (all_handed (until_stopped rounds)) % 2 ^ 32))
start-handed_example = start-handed rounds
