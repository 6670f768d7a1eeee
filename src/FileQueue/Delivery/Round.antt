-- ===== src/FileQueue/Delivery/Round.antt =====
-- One round of QueueConsumer::consume_partition.
use systems_craft.Prelude.{
  ℕ, suc, ◌+◌, ◌%◌, ◌^◌, ◌<◌, ◌≡◌, refl, ap, ◌∙◌, inl, inr, Bool, true, false, List, [], ◌∷◌, ◌++◌,
  append_assoc, Option, none, some, arith, Bytes, ◌==◌, Bool-cases, lookup, insert, length,
  length-append, get_elem?, get_or, set, length-set, get_or-set_self, get_or-set_ne, to_string,
  extract-to_string,
}
use systems_craft.FileQueue.Disk.{Disk, message_path, stored_offset-insert}
use systems_craft.FileQueue.Producer.{PartitionedQueue}
use systems_craft.FileQueue.Consumer.{
  QueueConsumer, Message, commit_path, read_next, commit_offset, consume_partition,
}
use systems_craft.FileQueue.Stores.{Stores, append_at}
use systems_craft.FileQueue.Delivery.{Delivers, Stores-commit, get_elem?-front, beq-commit_path}

module _ (q : PartitionedQueue) (c : QueueConsumer) (disk : Disk) (log delivered : ℕ → List Bytes)
    (s : Stores q disk log) (d : Delivers c disk log delivered)
    (same_path : c.queue_path ≡ q.base_path) (p : ℕ) (small : length (log p) + 1 < 2 ^ 64) where
  -- What the round finds in the file of the next offset.
  next_file :
      (rest : List Bytes)
      → log p ≡ delivered p ++ rest
      → lookup (message_path c.queue_path p (suc (length (delivered p)))) disk ≡ get_elem? rest 0
  next_file rest e = rw same_path (
      s.messages p (length (delivered p))
      ∙ ap (λ l. get_elem? l (length (delivered p))) e
      ∙ get_elem?-front (delivered p) rest)

  length-delivered :
      (rest : List Bytes)
      → log p ≡ delivered p ++ rest
      → length (delivered p) + length rest + 1 < 2 ^ 64
  length-delivered rest e = omega (arith, ap length e, length-append (delivered p) rest)

  abbrev next : ℕ
  next = suc (length (delivered p))

  abbrev disk_after : Disk
  disk_after = insert (commit_path c.consumer_group p) (to_string next) disk

  abbrev consumer_after : QueueConsumer
  consumer_after = record c { read_offsets = set c.read_offsets p next }

  delivered_front :
      (m : Bytes) (rest : List Bytes)
      → log p ≡ delivered p ++ m ∷ rest
      → (j : ℕ) → (rest' : List Bytes) × (log j ≡ append_at delivered p m j ++ rest')
  delivered_front m rest e j = elim (Bool-cases (p == j)) [
    | inl t ↦ let same : p ≡ j = ground (arith, t) in (rest, rw (t, ← same, append_assoc) e)
    | inr f ↦ ((d.front j).0, rw f ((d.front j).1))
  ]

  Delivers-after :
      (m : Bytes) (rest : List Bytes)
      → log p ≡ delivered p ++ m ∷ rest
      → p < c.num_partitions
      → Delivers consumer_after disk_after log (append_at delivered p m)
  Delivers-after m rest e inside = record {
    width = length-set c.read_offsets p next ∙ d.width;
    counted = λ j. elim (Bool-cases (p == j)) [
      | inl t ↦
          let same : p ≡ j = ground (arith, t) in
          rw (t, ← same)
            (get_or-set_self c.read_offsets p next 0 (omega (arith, d.width))
              ∙ omega (arith, length-append (delivered p) (m ∷ [])))
      | inr f ↦ rw f (get_or-set_ne c.read_offsets p j next 0 (ground (arith, f)) ∙ d.counted j)
    ];
    front = delivered_front m rest e;
    committed = λ j.
        stored_offset-insert (commit_path c.consumer_group p) (commit_path c.consumer_group j)
          (to_string next) disk
        ∙ rw (beq-commit_path c.consumer_group p j) (
            ground (
              arith,
              extract-to_string next (omega (arith, length-delivered (m ∷ rest) e)),
              length-append (delivered p) (m ∷ []),
              d.committed j,
            ));
  }

-- What a round hands over when `rest` is what the partition still holds.
abbrev pub handed_over : ℕ → ℕ → List Bytes → Option Message
handed_over p n [] = none
handed_over p n (m ∷ rest) = some (record { partition = p; offset = suc n; payload = m })

abbrev pub delivered_next : (ℕ → List Bytes) → ℕ → List Bytes → ℕ → List Bytes
delivered_next delivered p [] = delivered
delivered_next delivered p (m ∷ rest) = append_at delivered p m

-- A running consumer that may open its files hands over the oldest message that it has not
-- delivered of the partition, under its offset, and commits it; where there is none the round
-- changes nothing. The queue still stores the same log.
pub consume_partition-Delivers :
    (q : PartitionedQueue) (c : QueueConsumer) (disk : Disk) (log delivered : ℕ → List Bytes)
    (denied : Bytes → Bool) (p : ℕ) (rest : List Bytes)
    → Stores q disk log
    → Delivers c disk log delivered
    → c.queue_path ≡ q.base_path
    → c.running ≡ true
    → ((path : Bytes) → denied path ≡ false)
    → p < c.num_partitions
    → length (log p) + 1 < 2 ^ 64
    → log p ≡ delivered p ++ rest
    → ((consume_partition denied c disk p).2 ≡ handed_over p (length (delivered p)) rest)
      × Delivers
          (consume_partition denied c disk p).0
          (consume_partition denied c disk p).1
          log
          (delivered_next delivered p rest)
      × Stores q (consume_partition denied c disk p).1 log
consume_partition-Delivers q c disk log delivered denied p [] s d path run open_ok inside small e =
    rw found (refl, d, s)
  where
    offset : (get_or c.read_offsets p 0 + 1) % 2 ^ 64 ≡ suc (length (delivered p))
    offset =
        omega (arith, d.counted p, length-delivered q c disk log delivered s d path p small [] e)

    read : read_next c disk p ≡ (c, none)
    read =
        unfold read_next in
        rw (offset, next_file q c disk log delivered s d path p small [] e, read_next) refl

    found : consume_partition denied c disk p ≡ (c, disk, none)
    found = unfold consume_partition in ground (arith, run, read)
consume_partition-Delivers q c disk log delivered denied p (m ∷ rest) s d path run open_ok inside
      small e =
    rw found (
      refl,
      Delivers-after q c disk log delivered s d path p small m rest e inside,
      Stores-commit q disk log c.consumer_group (to_string (suc (length (delivered p)))) p s,
    )
  where
    offset : (get_or c.read_offsets p 0 + 1) % 2 ^ 64 ≡ suc (length (delivered p))
    offset =
        omega (
          arith,
          d.counted p,
          length-delivered q c disk log delivered s d path p small (m ∷ rest) e,
        )

    read : read_next c disk p ≡ (
      consumer_after q c disk log delivered s d path p small,
      handed_over p (length (delivered p)) (m ∷ rest),
    )
    read =
        unfold read_next in
        rw (offset, next_file q c disk log delivered s d path p small (m ∷ rest) e, read_next)
          (rw offset)

    found : consume_partition denied c disk p ≡ (
      consumer_after q c disk log delivered s d path p small,
      disk_after q c disk log delivered s d path p small,
      handed_over p (length (delivered p)) (m ∷ rest),
    )
    found =
        unfold consume_partition commit_offset in
        ground (arith, run, read, open_ok (commit_path c.consumer_group p))
