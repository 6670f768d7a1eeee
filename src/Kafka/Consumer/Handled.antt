-- ===== src/Kafka/Consumer/Handled.antt =====
-- Which messages the handler of a KafkaConsumer gets.
use systems_craft.Prelude.{
  ◌%◌, ◌^◌, ◌≡◌, refl, sym, ap, ◌∙◌, inl, inr, true, false, List, [], ◌∷◌, ◌++◌, none, some, arith,
  Bytes, append_assoc, append-nil, Bool-cases, if◌then◌else◌, length, length-append,
}
use systems_craft.Kafka.Consumer.{
  ConsumeError, no_error, timed_out, partition_eof, other_error, Message, Round, KafkaConsumer,
  kafka_consumer, text_of, handle_message, stop, consume_loop, start,
}

-- The rounds up to the first one with a call of `stop`, that one included.
abbrev pub until_stopped : List Round → List Round
until_stopped [] = []
until_stopped (r ∷ rounds) = r ∷ (if r.stopped then [] else until_stopped rounds)

-- Key and payload, unless the message carries an error.
abbrev pub handed : Message → List (Bytes × Bytes)
handed msg = elim msg.err [
  | no_error ↦ (text_of msg.key, text_of msg.payload) ∷ []
  | timed_out ↦ []
  | partition_eof ↦ []
  | other_error ↦ []
]

abbrev pub all_handed : List Round → List (Bytes × Bytes)
all_handed [] = []
all_handed (r ∷ rounds) = handed r.message ++ all_handed rounds

-- What a consumer has handled, and its counter.
record Holds (c : KafkaConsumer) (texts : List (Bytes × Bytes)) : Type 0 where
  handled : c.handled ≡ texts
  counted : c.message_count ≡ length texts % 2 ^ 32

handle_message-Holds :
    (msg : Message) (c : KafkaConsumer) (texts : List (Bytes × Bytes))
    → Holds c texts
    → Holds (handle_message msg c) (texts ++ handed msg)
      × ((handle_message msg c).running ≡ c.running)
unfolding handle_message
handle_message-Holds msg c texts h = by_error msg.err refl
  where
    by_error :
        (e : ConsumeError)
        → msg.err ≡ e
        → Holds (handle_message msg c) (texts ++ handed msg)
          × ((handle_message msg c).running ≡ c.running)
    by_error no_error e =
        rw (handle_message, e)
          (
            record {
              handled = ap (λ t. t ++ (text_of msg.key, text_of msg.payload) ∷ []) h.handled;
              counted = omega (
                arith,
                h.counted,
                length-append texts ((text_of msg.key, text_of msg.payload) ∷ []),
              );
            },
            refl,
          )
    by_error timed_out e = rw (handle_message, e, append-nil texts) (h, refl)
    by_error partition_eof e = rw (handle_message, e, append-nil texts) (h, refl)
    by_error other_error e = rw (handle_message, e, append-nil texts) (h, refl)

loop_ended :
    (rounds : List Round) (c : KafkaConsumer) → c.running ≡ false → consume_loop rounds c ≡ c
unfolding consume_loop
loop_ended [] c down = refl
loop_ended (r ∷ rounds) c down = rw (consume_loop, down) refl

loop_round :
    (r : Round) (rounds : List Round) (c : KafkaConsumer)
    → c.running ≡ true
    → consume_loop (r ∷ rounds) c
      ≡ consume_loop rounds (handle_message r.message (if r.stopped then stop c else c))
unfolding consume_loop
loop_round r rounds c up =
    ap
      (λ b.
        if b
        then consume_loop rounds (handle_message r.message (if r.stopped then stop c else c))
        else c)
      up

loop-Holds :
    (rounds : List Round) (c : KafkaConsumer) (texts : List (Bytes × Bytes))
    → c.running ≡ true
    → Holds c texts
    → Holds (consume_loop rounds c) (texts ++ all_handed (until_stopped rounds))
unfolding consume_loop stop
loop-Holds [] c texts up h = rw (append-nil texts) h
loop-Holds (r ∷ rounds) c texts up h = elim (Bool-cases r.stopped) [
  | inl e ↦
      let done =
        handle_message-Holds r.message (stop c) texts
          (record { handled = h.handled; counted = h.counted }) in
      rw
        (
          loop_round r rounds c up,
          e,
          append-nil (handed r.message),
          loop_ended rounds (handle_message r.message (stop c)) done.1,
        )
        done.0
  | inr e ↦
      let now = handle_message-Holds r.message c texts h in
      rw
        (
          loop_round r rounds c up,
          e,
          sym (append_assoc texts (handed r.message) (all_handed (until_stopped rounds))),
        )
        (loop-Holds rounds (handle_message r.message c) (texts ++ handed r.message) (now.1 ∙ up)
          now.0)
]

-- A started consumer hands over the messages without an error, in their order and with an empty
-- text for a missing key or payload, up to the one that arrives while `stop` is called, that one
-- included, and counts them modulo 2 ^ 32; if the subscription fails, it throws.
pub start-handed :
    (rounds : List Round)
    → (start false rounds kafka_consumer ≡ none)
      × ((c : KafkaConsumer) × (start true rounds kafka_consumer ≡ some c)
          × (c.handled ≡ all_handed (until_stopped rounds))
          × (c.message_count ≡ length (all_handed (until_stopped rounds)) % 2 ^ 32))
unfolding start kafka_consumer
start-handed rounds =
    let running : KafkaConsumer = record kafka_consumer { running = true } in
    let all = loop-Holds rounds running [] refl (record { handled = refl; counted = refl }) in
    (refl, (consume_loop rounds running, refl, all.handled, all.counted))
