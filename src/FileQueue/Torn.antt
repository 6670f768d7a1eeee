-- ===== src/FileQueue/Torn.antt =====
-- PartitionedQueue::produce creates the message file before it writes the message, and no lock
-- spans the two processes. What a consumer does that reads the file in between.
use systems_craft.Prelude.{
  ℕ, ◌+◌, ◌%◌, ◌^◌, [], Option, none, some, Bytes, lookup, insert, get_or, set,
}
use systems_craft.FileQueue.Disk.{Disk, message_path}
use systems_craft.FileQueue.Producer.{PartitionedQueue, get_partition}
use systems_craft.FileQueue.Consumer.{Message}

-- `produce` up to the opening of the message file, which is then empty.
pub open_message : (Bytes → ℕ) → PartitionedQueue → Disk → Bytes → PartitionedQueue × Disk
open_message hash q disk key =
    let partition = get_partition hash q key in
    let offset = (get_or q.offsets partition 0 + 1) % 2 ^ 64 in
    (
      record q { offsets = set q.offsets partition offset },
      insert (message_path q.base_path partition offset) [] disk,
    )

-- What a read of partition `p` finds under an offset.
abbrev pub found_at : Bytes → ℕ → ℕ → Disk → Option Message
found_at base p o disk = elim (lookup (message_path base p o) disk) [
  | none ↦ none
  | some content ↦ some (record { partition = p; offset = o; payload = content })
]
