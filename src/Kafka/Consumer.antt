-- ===== src/Kafka/Consumer.antt =====
-- The class KafkaConsumer: its loop over what `consume` returns, and the messages that it hands to
-- the handler. The handler does not touch the consumer, so its calls are a list.
pub mod Handled
use systems_craft.Prelude.{
  ℕ, ◌+◌, ◌%◌, ◌^◌, Bool, true, false, List, [], ◌∷◌, ◌++◌, Option, none, some, Bytes,
  if◌then◌else◌,
}

pub data ConsumeError : Type 0 where
  no_error timed_out partition_eof other_error : ConsumeError

-- A message of librdkafka, which may have no key and no payload.
pub record Message : Type 0 where
  pub err : ConsumeError
  pub key : Option Bytes
  pub payload : Option Bytes

-- A call of `consume`: its message, and whether `stop` has been called by then.
pub record Round : Type 0 where
  pub message : Message
  pub stopped : Bool

pub record KafkaConsumer : Type 0 where
  pub running : Bool
  pub message_count : ℕ
  pub handled : List (Bytes × Bytes)

pub kafka_consumer : KafkaConsumer
kafka_consumer = record { running = false; message_count = 0; handled = [] }

abbrev pub text_of : Option Bytes → Bytes
text_of none = []
text_of (some text) = text

-- The switch over the message's error.
pub handle_message : Message → KafkaConsumer → KafkaConsumer
handle_message msg c = elim msg.err [
  | no_error ↦ record c {
    message_count = (c.message_count + 1) % 2 ^ 32;
    handled = c.handled ++ (text_of msg.key, text_of msg.payload) ∷ [];
  }
  | timed_out ↦ c
  | partition_eof ↦ c
  | other_error ↦ c
]

-- `stop` also closes the library's consumer.
unfoldable pub stop : KafkaConsumer → KafkaConsumer
stop c = record c { running = false }

pub consume_loop : List Round → KafkaConsumer → KafkaConsumer
unfolding handle_message stop
consume_loop [] c = c
consume_loop (r ∷ rounds) c =
    if c.running
    then consume_loop rounds (handle_message r.message (if r.stopped then stop c else c))
    else c

-- `none` is the exception where the subscription fails.
unfoldable pub start : Bool → List Round → KafkaConsumer → Option KafkaConsumer
unfolding consume_loop
start subscribed rounds c =
    let running : KafkaConsumer = record c { running = true } in
    if subscribed then some (consume_loop rounds running) else none
