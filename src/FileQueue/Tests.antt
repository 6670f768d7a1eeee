-- ===== src/FileQueue/Tests.antt =====
-- Runs of the file queue on small inputs: two partitions, and a hash that takes the key's length.
use systems_craft.Prelude.{
  ℕ, ◌≡◌, ◌+◌, ◌≤◌, refl, Bool, List, [], ◌∷◌, ◌++◌, Option, none, arith, Bytes, codes, length,
  lookup, insert, beq, beq_refl, replicate, zero_padded, to_string,
}
use systems_craft.FileQueue.Disk.{Disk, message_path, offset_path, stored_offset}
use systems_craft.FileQueue.Producer.{
  PartitionedQueue, written, throws, partitioned_queue, get_partition, format_offset, produce,
}
use systems_craft.FileQueue.Consumer.{
  QueueConsumer, Message, commit_path, queue_consumer, start, stop, read_next, consume_partition,
}
use systems_craft.FileQueue.Producer
use systems_craft.FileQueue.Consumer
use systems_craft.FileQueue.Gap.{Call, produce_all, produce_failed-blocks}
use systems_craft.FileQueue.Delivery.System.{
  Event, send, poll, restart_producer, restart_consumer, allowed, step, run, fresh, sent,
}
use systems_craft.FileQueue.Torn.{open_message}
use systems_craft.FileQueue.Delivery.System.Kills
use systems_craft.FileQueue.Delivery.System.Kills.{
  Action, does, killed, Watched, watched, events_of, kills, firsts, spread, extra, again,
}
use systems_craft.FileQueue.Delivery.System.Repeats.{processed-spread}
use systems_craft.FileQueue.Delivery.System.Caught.{processed-all}

abbrev hash_length : Bytes → ℕ
hash_length = length

abbrev path : Bytes
path = codes "queue"

abbrev group : Bytes
group = codes "g"

abbrev queue : PartitionedQueue
queue = (fresh path group 2).queue

abbrev consumer : QueueConsumer
consumer = (fresh path group 2).consumer

abbrev nothing : ℕ → List Bytes
nothing p = []

abbrev events : List Event
events =
    send (codes "a") (codes "one")
    ∷ poll 1
    ∷ restart_producer
    ∷ send (codes "bb") (codes "two")
    ∷ send (codes "c") (codes "three")
    ∷ restart_consumer
    ∷ []

sent-events : sent hash_length 2 1 events ≡ codes "one" ∷ codes "three" ∷ []
unfolding sent
sent-events = refl

delivered-events : (run hash_length (fresh path group 2) events).delivered 1 ≡ codes "one" ∷ []
unfolding run step fresh produce consume_partition partitioned_queue queue_consumer start
    Producer.load_offsets Consumer.load_offsets stored_offset message_path offset_path commit_path
    lookup insert beq to_string get_partition zero_padded
delivered-events = refl

format_offset-12 : format_offset 12 ≡ codes "00000000000000000012"
unfolding format_offset zero_padded to_string
format_offset-12 = refl

-- A stopped consumer takes no message.
stopped :
    (consume_partition allowed
      (stop consumer)
      (produce allowed hash_length queue [] (codes "a") (codes "one")).1
      1).2
    ≡ none
unfolding consume_partition stop
stopped = refl

-- The consumer dies once between the processing of the first message and its commit.
abbrev actions : List Action
actions =
    does (send (codes "a") (codes "one"))
    ∷ killed 1
    ∷ does (poll 1)
    ∷ does (send (codes "a") (codes "two"))
    ∷ []

abbrev start_of_watch : Watched
start_of_watch = watched (fresh path group 2)

processed-spread_example :
    (times : List (Bytes × ℕ)) × (j : ℕ) × (rest : List Bytes) × (sent hash_length 2 1
        (events_of actions)
      ≡ firsts times ++ rest)
    × ((Kills.run hash_length start_of_watch actions).processed 1 ≡ spread times ++ again j rest)
    × (extra times + j ≤ kills 1 actions)
processed-spread_example =
    processed-spread hash_length path group 2 actions (omega arith) (omega arith)
      (omega arith, (omega arith, tt)) 1

processed-all_example :
    (times : List (Bytes × ℕ)) × (firsts times ≡ sent hash_length 2 1 (events_of actions))
    × ((Kills.run hash_length start_of_watch (actions ++ replicate 2 (does (poll 1)))).processed 1
        ≡ spread times)
    × (extra times ≤ kills 1 actions)
processed-all_example =
    processed-all hash_length path group 2 2 1 actions (omega arith) (omega arith)
      (omega arith, (omega arith, tt)) (omega arith) (unfold sent in omega arith)

-- The first message to partition 1 cannot be stored.
abbrev full : Bytes → Bool
full file = beq file (message_path path 1 1)

abbrev later : List Call
later =
    record { denied = allowed; key = codes "a"; message = codes "two" }
    ∷ record { denied = full; key = codes "bb"; message = codes "three" }
    ∷ []

produce_failed-blocks_example :
    read_next consumer
      (produce_all hash_length
        (produce full hash_length queue [] (codes "a") (codes "one")).0
        (produce full hash_length queue [] (codes "a") (codes "one")).1
        later)
      (get_partition hash_length queue (codes "a"))
    ≡ (consumer, none)
unfolding fresh partitioned_queue queue_consumer start get_partition lookup Producer.load_offsets
    Consumer.load_offsets stored_offset
produce_failed-blocks_example =
    produce_failed-blocks full hash_length queue [] (codes "a") (codes "one") later consumer
      (omega arith) (omega arith) (beq_refl (message_path path 1 1)) refl refl refl

-- The consumer's round falls between the creation of the file of the first message and its write.
abbrev torn : QueueConsumer × Disk × Option Message
torn = consume_partition allowed consumer (open_message hash_length queue [] (codes "a")).1 1

abbrev complete : Disk
complete = (produce allowed hash_length queue [] (codes "a") (codes "one")).1
