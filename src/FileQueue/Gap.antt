-- ===== src/FileQueue/Gap.antt =====
-- PartitionedQueue::produce counts the offset before it opens the message file. What a failed open
-- does to the consumers.
use systems_craft.Prelude.{
  ℕ, ◌+◌, ◌%◌, ◌^◌, ◌≤◌, ◌<◌, ◌≡◌, refl, sym, ◌∙◌, inl, inr, Bool, true, false, ◌&&◌, List, [], ◌∷◌,
  none, arith, Bytes, ◌==◌, if◌then◌else◌, Bool-cases, lookup, insert, lookup-insert,
  lookup-insert_ne, length, length-set, get_or, set, get_or-set_self, get_or-set_ne, to_string,
}
use systems_craft.FileQueue.Disk.{Disk, message_path, offset_path, message_path-ne-offset_path}
use systems_craft.FileQueue.Producer.{
  PartitionedQueue, get_partition, produce, write_message, update_offset_file,
}
use systems_craft.FileQueue.Consumer.{QueueConsumer, read_next}
use systems_craft.FileQueue.Stores.{beq-message_path}

-- A call of `produce`, with the files that cannot be opened during it.
pub record Call : Type 0 where
  pub denied : Bytes → Bool
  pub key : Bytes
  pub message : Bytes

pub produce_all : (Bytes → ℕ) → PartitionedQueue → Disk → List Call → Disk
produce_all hash q disk [] = disk
produce_all hash q disk (call ∷ calls) =
    let (q', disk', outcome) = produce call.denied hash q disk call.key call.message in
    produce_all hash q' disk' calls

-- Offset `o` of partition `p` is behind the counter, and has no file.
record IsGap (q : PartitionedQueue) (disk : Disk) (p o : ℕ) : Type 0 where
  inside : p < length q.offsets
  passed : o ≤ get_or q.offsets p 0
  no_file : lookup (message_path q.base_path p o) disk ≡ none

write_message-no_file :
    (denied : Bytes → Bool) (q : PartitionedQueue) (disk : Disk) (i k p o : ℕ) (message : Bytes)
    → (i == p && k == o) ≡ false
    → lookup (message_path q.base_path p o) (write_message denied q i k message disk).1
      ≡ lookup (message_path q.base_path p o) disk
unfolding write_message update_offset_file
write_message-no_file denied q disk i k p o message ne =
    let path = message_path q.base_path p o in
    let first = lookup-insert (message_path q.base_path i k) path message disk in
    let other = beq-message_path q.base_path i p k o in
    ground (
      arith,
      first,
      other,
      ne,
      lookup-insert_ne (offset_path q.base_path i) path (to_string k)
          (insert (message_path q.base_path i k) message disk)
          (λ e. message_path-ne-offset_path q.base_path q.base_path p i o (sym e)),
    )

abbrev bumped : (Bytes → ℕ) → PartitionedQueue → Bytes → PartitionedQueue
bumped hash q key = record q {
  offsets =
      set q.offsets (get_partition hash q key)
        ((get_or q.offsets (get_partition hash q key) 0 + 1) % 2 ^ 64);
}

-- The counter is bumped on every branch.
produce-bumped :
    (denied : Bytes → Bool) (hash : Bytes → ℕ) (q : PartitionedQueue) (disk : Disk)
    (key message : Bytes)
    → (produce denied hash q disk key message).0 ≡ bumped hash q key
unfolding produce write_message update_offset_file
produce-bumped denied hash q disk key message = ground arith

produce-no_file :
    (denied : Bytes → Bool) (hash : Bytes → ℕ) (q : PartitionedQueue) (disk : Disk) (p o : ℕ)
    (key message : Bytes)
    → (get_partition hash q key == p
        && (get_or q.offsets (get_partition hash q key) 0 + 1) % 2 ^ 64 == o)
      ≡ false
    → lookup (message_path q.base_path p o) disk ≡ none
    → lookup (message_path q.base_path p o) (produce denied hash q disk key message).1 ≡ none
unfolding produce
produce-no_file denied hash q disk p o key message ne h =
    let i = get_partition hash q key in
    let k = (get_or q.offsets i 0 + 1) % 2 ^ 64 in
    elim (Bool-cases (denied (message_path q.base_path i k))) [
      | inl e ↦ rw e h
      | inr e ↦ rw e (write_message-no_file denied (bumped hash q key) disk i k p o message ne ∙ h)
    ]

bumped-counter :
    (hash : Bytes → ℕ) (q : PartitionedQueue) (key : Bytes) (p : ℕ)
    → p < length q.offsets
    → get_or q.offsets p 0 + 1 < 2 ^ 64
    → get_or (bumped hash q key).offsets p 0
      ≡ (if get_partition hash q key == p then get_or q.offsets p 0 + 1 else get_or q.offsets p 0)
bumped-counter hash q key p inside small = elim (Bool-cases (get_partition hash q key == p)) [
  | inl t ↦
      let same : get_partition hash q key ≡ p = ground (arith, t) in
      rw (t, same) (get_or-set_self q.offsets p _ 0 inside ∙ omega arith)
  | inr f ↦ rw f (get_or-set_ne q.offsets (get_partition hash q key) p _ 0 (ground (arith, f)))
]

-- A produce keeps a gap, whether it succeeds or not, while the counter does not wrap.
produce-IsGap :
    (denied : Bytes → Bool) (hash : Bytes → ℕ) (q : PartitionedQueue) (disk : Disk) (p o : ℕ)
    (key message : Bytes)
    → IsGap q disk p o
    → get_or q.offsets p 0 + 1 < 2 ^ 64
    → IsGap (bumped hash q key) (produce denied hash q disk key message).1 p o
produce-IsGap denied hash q disk p o key message g small = record {
  inside = omega (
    arith,
    g.inside,
    length-set q.offsets (get_partition hash q key)
        ((get_or q.offsets (get_partition hash q key) 0 + 1) % 2 ^ 64),
  );
  passed = ground (arith, bumped-counter hash q key p g.inside small, g.passed);
  no_file =
      produce-no_file denied hash q disk p o key message (elsewhere (get_partition hash q key) refl)
        g.no_file;
}
  where
    elsewhere :
        (i : ℕ)
        → get_partition hash q key ≡ i
        → (i == p && (get_or q.offsets i 0 + 1) % 2 ^ 64 == o) ≡ false
    elsewhere i e = elim (Bool-cases (i == p)) [
      | inl t ↦
          let same : i ≡ p = ground (arith, t) in
          let far : o < (get_or q.offsets p 0 + 1) % 2 ^ 64 = omega (arith, g.passed) in
          rw (t, same) (ground (arith, far))
      | inr f ↦ rw f
    ]

produce_all-no_file :
    (hash : Bytes → ℕ) (calls : List Call) (q : PartitionedQueue) (disk : Disk) (p o : ℕ)
    → IsGap q disk p o
    → get_or q.offsets p 0 + length calls < 2 ^ 64
    → lookup (message_path q.base_path p o) (produce_all hash q disk calls) ≡ none
unfolding produce_all
produce_all-no_file hash [] q disk p o g small = g.no_file
produce_all-no_file hash (call ∷ calls) q disk p o g small =
    rw (produce-bumped call.denied hash q disk call.key call.message) (
      produce_all-no_file hash calls (bumped hash q call.key)
        (produce call.denied hash q disk call.key call.message).1 p o
        (produce-IsGap call.denied hash q disk p o call.key call.message g (omega arith))
        (ground (arith, bumped-counter hash q call.key p g.inside (omega arith))))

-- Once opening a message's file has failed, where no file stood before, a consumer that has read
-- the messages before it finds nothing in that partition, whatever this queue object produces
-- afterwards, with or without errors; there are fewer than 2^64 offsets. A producer that is
-- restarted instead takes the offset again from its file.
pub produce_failed-blocks :
    (denied : Bytes → Bool) (hash : Bytes → ℕ) (q : PartitionedQueue) (disk : Disk)
    (key message : Bytes) (calls : List Call) (c : QueueConsumer)
    → get_partition hash q key < length q.offsets
    → get_or q.offsets (get_partition hash q key) 0 + length calls + 2 < 2 ^ 64
    → denied (
        message_path q.base_path
          (get_partition hash q key)
          (get_or q.offsets (get_partition hash q key) 0 + 1))
      ≡ true
    → lookup
        (message_path q.base_path
          (get_partition hash q key)
          (get_or q.offsets (get_partition hash q key) 0 + 1))
        disk
      ≡ none
    → c.queue_path ≡ q.base_path
    → get_or c.read_offsets (get_partition hash q key) 0
      ≡ get_or q.offsets (get_partition hash q key) 0
    → read_next c
        (produce_all hash
          (produce denied hash q disk key message).0
          (produce denied hash q disk key message).1
          calls)
        (get_partition hash q key)
      ≡ (c, none)
unfolding read_next
produce_failed-blocks denied hash q disk key message calls c inside small fails fresh path at =
    rw (next, produce-bumped denied hash q disk key message, stays, read_next) refl
  where
    p : ℕ
    p = get_partition hash q key

    o : ℕ
    o = get_or q.offsets p 0 + 1

    next : (get_or c.read_offsets p 0 + 1) % 2 ^ 64 ≡ o
    next = omega arith

    offset : (get_or q.offsets p 0 + 1) % 2 ^ 64 ≡ o
    offset = omega arith

    unwritten : (produce denied hash q disk key message).1 ≡ disk
    unwritten = unfold produce in rw offset (rw fails refl)

    counter : get_or (bumped hash q key).offsets p 0 ≡ o
    counter = get_or-set_self q.offsets p _ 0 inside ∙ offset

    gap : IsGap (bumped hash q key) (produce denied hash q disk key message).1 p o
    gap = record {
      inside = omega (arith, inside, length-set q.offsets p ((get_or q.offsets p 0 + 1) % 2 ^ 64));
      passed = omega (arith, counter);
      no_file = rw unwritten fresh;
    }

    stays :
        lookup
          (message_path c.queue_path p o)
          (produce_all hash (bumped hash q key) (produce denied hash q disk key message).1 calls)
        ≡ none
    stays =
        rw path
          (produce_all-no_file hash calls (bumped hash q key) _ p o gap (omega (arith, counter)))
