-- ===== src/FileQueue/Producer.antt =====
-- include/partitioned_queue.h and src/partitioned_queue.cpp: the class PartitionedQueue.
-- Each `produce` is one atomic step, as the partition's mutex makes it. `std::hash` is the
-- parameter `hash`; `denied` says which files cannot be opened for writing in a call.
use systems_craft.Prelude.{
  ℕ, zero, suc, ◌+◌, ◌%◌, ◌^◌, Bool, List, ◌++◌, Bytes, codes, insert, to_string, zero_padded,
  if◌then◌else◌, get_or, set, replicate,
}
use systems_craft.FileQueue.Disk.{Disk, message_path, offset_path, stored_offset}

pub record PartitionedQueue : Type 0 where
  pub base_path : Bytes
  pub num_partitions : ℕ
  pub offsets : List ℕ

-- `return {partition, offset}`, or the exception with its text.
pub data Outcome : Type 0 where
  written : ℕ → ℕ → Outcome
  throws : Bytes → Outcome

-- The loop over the partitions, `rounds` of them from `i`.
unfoldable pub load_loop : Disk → Bytes → ℕ → ℕ → List ℕ → List ℕ
load_loop disk base zero i offsets = offsets
load_loop disk base (suc rounds) i offsets =
    load_loop disk base rounds (i + 1) (set offsets i (stored_offset disk (offset_path base i)))

unfoldable pub load_offsets : Disk → PartitionedQueue → PartitionedQueue
unfolding load_loop
load_offsets disk q = record q { offsets = load_loop disk q.base_path q.num_partitions 0 q.offsets }

-- The constructor.
unfoldable pub partitioned_queue : Disk → Bytes → ℕ → PartitionedQueue
partitioned_queue disk path num_partitions = load_offsets disk (record {
  base_path = path;
  num_partitions = num_partitions;
  offsets = replicate num_partitions 0;
})

unfoldable pub get_partition : (Bytes → ℕ) → PartitionedQueue → Bytes → ℕ
get_partition hash q key = hash key % q.num_partitions

unfoldable pub format_offset : ℕ → Bytes
format_offset offset = zero_padded 20 offset

-- The new contents of the files, or the exception's text.
pub data Update : Type 0 where
  updated : Disk → Update
  failed : Bytes → Update

unfoldable pub update_offset_file : (Bytes → Bool) → PartitionedQueue → ℕ → ℕ → Disk → Update
update_offset_file denied q partition offset disk =
    let offset_file = offset_path q.base_path partition in
    if denied offset_file
    then failed (codes "Failed to open offset file: " ++ offset_file)
    else updated (insert offset_file (to_string offset) disk)

-- `produce` from the point where the message file is open.
unfoldable pub write_message :
    (Bytes → Bool) → PartitionedQueue → ℕ → ℕ → Bytes → Disk → PartitionedQueue × Disk × Outcome
unfolding update_offset_file
write_message denied q partition offset message disk =
    let disk' = insert (message_path q.base_path partition offset) message disk in
    elim (update_offset_file denied q partition offset disk') [
      | failed text ↦ (q, disk', throws text)
      | updated disk'' ↦ (q, disk'', written partition offset)
    ]

unfoldable pub produce :
    (Bytes → Bool)
    → (Bytes → ℕ)
    → PartitionedQueue
    → Disk
    → Bytes
    → Bytes
    → PartitionedQueue × Disk × Outcome
unfolding write_message
produce denied hash q disk key message =
    let partition = get_partition hash q key in
    let offset = (get_or q.offsets partition 0 + 1) % 2 ^ 64 in
    let q' : PartitionedQueue = record q { offsets = set q.offsets partition offset } in
    let filename = message_path q.base_path partition offset in
    if denied filename
    then (q', disk, throws (codes "Failed to open file: " ++ filename))
    else write_message denied q' partition offset message disk
