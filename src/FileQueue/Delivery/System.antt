-- ===== src/FileQueue/Delivery/System.antt =====
-- A producer and a consumer over one directory, with restarts of either between their calls. No
-- file operation fails here, and a file appears with its whole content.
pub mod Runs
pub mod Order
pub mod Kills
pub mod Seen
pub mod Repeats
pub mod Caught
use systems_craft.Prelude.{
  ℕ, ◌+◌, ◌^◌, ◌%◌, ◌<◌, ◌≡◌, refl, sym, ap, ◌∙◌, inl, inr, Bool, true, false, List, [], ◌∷◌, ◌++◌,
  Option, none, some, arith, Bytes, ◌==◌, if◌then◌else◌, Bool-cases, length, beq_ne, get_or, set,
  insert, to_string, zero, suc, replicate, get_elem?, lookup, append-nil, append_assoc,
}
use systems_craft.FileQueue.Disk.{
  Disk, message_path, offset_path, stored_offset, stored_offset-insert,
}
use systems_craft.FileQueue.Producer.{
  PartitionedQueue, partitioned_queue, get_partition, produce, write_message, update_offset_file,
}
use systems_craft.FileQueue.Consumer.{
  QueueConsumer, Message, commit_path, queue_consumer, start, consume_partition,
}
use systems_craft.FileQueue.Stores.{Stores, append_at, produce-Stores}
use systems_craft.FileQueue.Recovery.{partitioned_queue-Stores}
use systems_craft.FileQueue.Delivery.{
  Delivers, commit_path-ne-message_path, commit_path-ne-offset_path,
}
use systems_craft.FileQueue.Delivery.Round.{consume_partition-Delivers, handed_over, delivered_next}
use systems_craft.FileQueue.Delivery.Restart.{queue_consumer-Delivers}

-- `delivered p` records the payloads that the consumers have processed and committed of partition
-- `p`.
pub record System : Type 0 where
  pub queue : PartitionedQueue
  pub disk : Disk
  pub consumer : QueueConsumer
  pub delivered : ℕ → List Bytes

pub data Event : Type 0 where
  send : Bytes → Bytes → Event
  poll : ℕ → Event
  restart_producer restart_consumer : Event

abbrev pub allowed : Bytes → Bool
allowed path = false

abbrev pub deliver : (ℕ → List Bytes) → Option Message → ℕ → List Bytes
deliver delivered none = delivered
deliver delivered (some m) = append_at delivered m.partition m.payload

unfoldable pub step : (Bytes → ℕ) → System → Event → System
step hash sys (send key message) =
    let (q, d, outcome) = produce allowed hash sys.queue sys.disk key message in
    record sys { queue = q; disk = d }
step hash sys (poll p) =
    let (c, d, msg) = consume_partition allowed sys.consumer sys.disk p in
    record sys { consumer = c; disk = d; delivered = deliver sys.delivered msg }
step hash sys restart_producer = record sys {
  queue = partitioned_queue sys.disk sys.queue.base_path sys.queue.num_partitions;
}
step hash sys restart_consumer = record sys {
  consumer = start (
      queue_consumer sys.disk sys.consumer.queue_path sys.consumer.consumer_group
        sys.consumer.num_partitions);
}

unfoldable pub run : (Bytes → ℕ) → System → List Event → System
run hash sys [] = sys
run hash sys (e ∷ events) = run hash (step hash sys e) events

-- Both processes on an empty directory.
unfoldable pub fresh : Bytes → Bytes → ℕ → System
fresh path group partitions = record {
  queue = partitioned_queue [] path partitions;
  disk = [];
  consumer = start (queue_consumer [] path group partitions);
  delivered = λ p. [];
}

-- The messages that the events send to partition `p` of `n`.
unfoldable pub sent : (Bytes → ℕ) → ℕ → ℕ → List Event → List Bytes
sent hash n p [] = []
sent hash n p (send key message ∷ events) =
    if hash key % n == p then message ∷ sent hash n p events else sent hash n p events
sent hash n p (poll _ ∷ events) = sent hash n p events
sent hash n p (restart_producer ∷ events) = sent hash n p events
sent hash n p (restart_consumer ∷ events) = sent hash n p events

-- Only partitions that exist are polled.
abbrev pub PollsInside : ℕ → List Event → Type 0
PollsInside n [] = Unit
PollsInside n (poll p ∷ events) = (p < n) × PollsInside n events
PollsInside n (_ ∷ events) = PollsInside n events

pub record IsSound (n : ℕ) (sys : System) (log : ℕ → List Bytes) : Type 0 where
  pub stores : Stores sys.queue sys.disk log
  pub delivers : Delivers sys.consumer sys.disk log sys.delivered
  pub same_path : sys.consumer.queue_path ≡ sys.queue.base_path
  pub runs : sys.consumer.running ≡ true
  pub producer_width : sys.queue.num_partitions ≡ n
  pub consumer_width : sys.consumer.num_partitions ≡ n

message-committed :
    (base group text : Bytes) (i o p : ℕ) (disk : Disk)
    → stored_offset (insert (message_path base i o) text disk) (commit_path group p)
      ≡ stored_offset disk (commit_path group p)
message-committed base group text i o p disk =
    stored_offset-insert (message_path base i o) (commit_path group p) text disk
    ∙ rw (
        beq_ne (message_path base i o) (commit_path group p)
          (λ e. commit_path-ne-message_path group base p i o (sym e)))

offset-committed :
    (base group text : Bytes) (i p : ℕ) (disk : Disk)
    → stored_offset (insert (offset_path base i) text disk) (commit_path group p)
      ≡ stored_offset disk (commit_path group p)
offset-committed base group text i p disk =
    stored_offset-insert (offset_path base i) (commit_path group p) text disk
    ∙ rw (
        beq_ne (offset_path base i) (commit_path group p)
          (λ e. commit_path-ne-offset_path group base p i (sym e)))

write_message-committed :
    (denied : Bytes → Bool) (q : PartitionedQueue) (i o : ℕ) (message group : Bytes) (p : ℕ)
    (disk : Disk)
    → stored_offset (write_message denied q i o message disk).1 (commit_path group p)
      ≡ stored_offset disk (commit_path group p)
unfolding write_message update_offset_file
write_message-committed denied q i o message group p disk = ground (
  arith,
  message-committed q.base_path group message i o p disk,
  offset-committed q.base_path group (to_string o) i p
      (insert (message_path q.base_path i o) message disk),
)

-- Producing touches no committed offset, on any branch.
produce-committed :
    (denied : Bytes → Bool) (hash : Bytes → ℕ) (q : PartitionedQueue) (disk : Disk)
    (key message group : Bytes) (p : ℕ)
    → stored_offset (produce denied hash q disk key message).1 (commit_path group p)
      ≡ stored_offset disk (commit_path group p)
unfolding produce
produce-committed denied hash q disk key message group p =
    let i = get_partition hash q key in
    let o = (get_or q.offsets i 0 + 1) % 2 ^ 64 in
    let q' : PartitionedQueue = record q { offsets = set q.offsets i o } in
    elim (Bool-cases (denied (message_path q.base_path i o))) [
      | inl e ↦ rw e refl
      | inr e ↦ rw e (write_message-committed denied q' i o message group p disk)
    ]

pub produce-Delivers :
    (denied : Bytes → Bool) (hash : Bytes → ℕ) (q : PartitionedQueue) (disk : Disk)
    (key message : Bytes) (c : QueueConsumer) (log delivered : ℕ → List Bytes)
    → Delivers c disk log delivered
    → Delivers c
        (produce denied hash q disk key message).1
        (append_at log (get_partition hash q key) message)
        delivered
produce-Delivers denied hash q disk key message c log delivered d = record {
  width = d.width;
  counted = d.counted;
  front = λ j. elim (Bool-cases (get_partition hash q key == j)) [
    | inl t ↦ (
      (d.front j).0 ++ message ∷ [],
      rw t (
          ap (λ l. l ++ message ∷ []) (d.front j).1
          ∙ append_assoc (delivered j) (d.front j).0 (message ∷ [])),
    )
    | inr f ↦ ((d.front j).0, rw f ((d.front j).1))
  ];
  committed =
      λ p. produce-committed denied hash q disk key message c.consumer_group p ∙ d.committed p;
}
