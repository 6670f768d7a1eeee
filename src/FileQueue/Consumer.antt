-- ===== src/FileQueue/Consumer.antt =====
-- include/queue_consumer.h and src/queue_consumer.cpp: the class QueueConsumer. A round of the
-- loop in `consume_partition` is one step; the threads, one for each partition, share no state but
-- the flag `running`. `denied` says which files cannot be opened for writing in a round.
use systems_craft.Prelude.{
  ℕ, zero, suc, ◌+◌, ◌^◌, ◌%◌, Bool, true, false, List, ◌++◌, Option, none, some, Bytes, codes,
  lookup, insert, to_string, extract_u64, if◌then◌else◌, get_or, set, replicate,
}
use systems_craft.FileQueue.Disk.{Disk, message_path}

pub record Message : Type 0 where
  pub partition : ℕ
  pub offset : ℕ
  pub payload : Bytes

pub record QueueConsumer : Type 0 where
  pub queue_path : Bytes
  pub consumer_group : Bytes
  pub num_partitions : ℕ
  pub read_offsets : List ℕ
  pub running : Bool

unfoldable pub commit_path : Bytes → ℕ → Bytes
commit_path consumer_group partition =
    codes "consumer_offsets/"
    ++ (consumer_group ++ (codes "/partition-" ++ (to_string partition ++ codes ".offset")))

-- Without a file the offset stays as it is.
unfoldable pub load_one : Disk → Bytes → List ℕ → ℕ → List ℕ
load_one disk group offsets i = elim (lookup (commit_path group i) disk) [
  | none ↦ offsets
  | some text ↦ set offsets i (extract_u64 text)
]

unfoldable pub load_loop : Disk → Bytes → ℕ → ℕ → List ℕ → List ℕ
unfolding load_one
load_loop disk group zero i offsets = offsets
load_loop disk group (suc rounds) i offsets =
    load_loop disk group rounds (i + 1) (load_one disk group offsets i)

unfoldable pub load_offsets : Disk → QueueConsumer → QueueConsumer
unfolding load_loop
load_offsets disk c = record c {
  read_offsets = load_loop disk c.consumer_group c.num_partitions 0 c.read_offsets;
}

-- The constructor.
unfoldable pub queue_consumer : Disk → Bytes → Bytes → ℕ → QueueConsumer
queue_consumer disk queue_path consumer_group num_partitions = load_offsets disk (record {
  queue_path = queue_path;
  consumer_group = consumer_group;
  num_partitions = num_partitions;
  read_offsets = replicate num_partitions 0;
  running = false;
})

unfoldable pub start : QueueConsumer → QueueConsumer
start c = record c { running = true }

unfoldable pub stop : QueueConsumer → QueueConsumer
stop c = record c { running = false }

unfoldable pub read_next : QueueConsumer → Disk → ℕ → QueueConsumer × Option Message
read_next c disk partition =
    let next_offset = (get_or c.read_offsets partition 0 + 1) % 2 ^ 64 in
    elim (lookup (message_path c.queue_path partition next_offset) disk) [
      | none ↦ (c, none)
      | some content ↦ (
        record c { read_offsets = set c.read_offsets partition next_offset },
        some (record { partition = partition; offset = next_offset; payload = content }),
      )
    ]

-- A file that cannot be opened is reported on the error stream, and nothing else happens.
unfoldable pub commit_offset : (Bytes → Bool) → QueueConsumer → ℕ → ℕ → Disk → Disk
commit_offset denied c partition offset disk =
    let offset_file = commit_path c.consumer_group partition in
    if denied offset_file then disk else insert offset_file (to_string offset) disk

-- One round of the loop while `running`: the message that is processed, if any.
unfoldable pub consume_partition :
    (Bytes → Bool) → QueueConsumer → Disk → ℕ → QueueConsumer × Disk × Option Message
unfolding read_next commit_offset
consume_partition denied c disk partition =
    let (c', msg) = read_next c disk partition in
    if c.running
    then elim msg [
      | none ↦ (c', disk, none)
      | some m ↦ (c', commit_offset denied c' partition m.offset disk, some m)
    ]
    else (c, disk, none)
