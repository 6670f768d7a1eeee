-- ===== src/FileQueue/Stores.antt =====
-- The queue's files against one list of messages for each partition: writing and recovery.
use native.Mathlib.Nat.{mod-lt}
use systems_craft.Prelude.{
  ℕ, zero, suc, ◌+◌, ◌%◌, ◌^◌, ◌<◌, ◌≡◌, refl, sym, ap, ◌∙◌, inl, inr, Bool, false, List, [], ◌∷◌,
  ◌++◌, some, arith, Bytes, ◌==◌, if◌then◌else◌, Bool-cases, beq, beq_iff, beq_refl, beq_ne, ◌&&◌,
  lookup, insert, lookup-insert, lookup-insert_ne, length, length-append, get_elem?, get_or, set,
  length-set, get_or-set_self, get_or-set_ne, to_string, extract-to_string,
}
use systems_craft.FileQueue.Disk.{
  Disk, message_path, offset_path, stored_offset, stored_offset-insert, message_path-injective,
  offset_path-injective, message_path-ne-offset_path,
}
use systems_craft.FileQueue.Producer.{
  PartitionedQueue, written, get_partition, produce, write_message, update_offset_file,
}

-- `log p` lists the messages of partition `p`, oldest first. The files hold it, the counters in
-- memory and on disk count it.
pub record Stores (q : PartitionedQueue) (disk : Disk) (log : ℕ → List Bytes) : Type 0 where
  pub width : length q.offsets ≡ q.num_partitions
  pub counted : (p : ℕ) → get_or q.offsets p 0 ≡ length (log p)
  pub messages : (p o : ℕ) → lookup (message_path q.base_path p (suc o)) disk ≡ get_elem? (log p) o
  pub tracked : (p : ℕ) → stored_offset disk (offset_path q.base_path p) ≡ length (log p)

-- The log with one more message in a partition.
abbrev pub append_at : (ℕ → List Bytes) → ℕ → Bytes → ℕ → List Bytes
append_at log partition message p = if partition == p then log p ++ message ∷ [] else log p

pub get_elem?-concat {ℓ} :
    {A : Type ℓ} (xs : List A) (v : A) (i : ℕ)
    → get_elem? (xs ++ v ∷ []) i ≡ (if length xs == i then some v else get_elem? xs i)
get_elem?-concat [] v zero = refl
get_elem?-concat [] v (suc i) = ground arith
get_elem?-concat (x ∷ xs) v zero = ground arith
get_elem?-concat (x ∷ xs) v (suc i) = ground (arith, get_elem?-concat xs v i)

-- The test of two message paths is the test of their numbers.
pub beq-message_path :
    (base : Bytes) (p p' o o' : ℕ)
    → beq (message_path base p o) (message_path base p' o') ≡ (p == p' && o == o')
beq-message_path base p p' o o' =
    elim (Bool-cases (beq (message_path base p o) (message_path base p' o'))) [
      | inl e ↦
          let same = message_path-injective base p p' o o' ((beq_iff _ _).0 e) in
          rw e (ground (arith, same))
      | inr e ↦ elim (Bool-cases (p == p' && o == o')) [
        | inl t ↦
            let l : p ≡ p' = ground (arith, t) in
            let r : o ≡ o' = ground (arith, t) in cc (beq_refl (message_path base p o), l, r)
        | inr f ↦ rw (e, f)
      ]
    ]

beq-offset_path :
    (base : Bytes) (p p' : ℕ) → beq (offset_path base p) (offset_path base p') ≡ (p == p')
beq-offset_path base p p' = elim (Bool-cases (beq (offset_path base p) (offset_path base p'))) [
  | inl e ↦
      let same = offset_path-injective base p p' ((beq_iff _ _).0 e) in rw e (ground (arith, same))
  | inr e ↦ elim (Bool-cases (p == p')) [
    | inl t ↦ let l : p ≡ p' = ground (arith, t) in cc (beq_refl (offset_path base p), l)
    | inr f ↦ rw (e, f)
  ]
]

module _ (q : PartitionedQueue) (disk : Disk) (log : ℕ → List Bytes) (s : Stores q disk log)
    (partition : ℕ) (message : Bytes) (inside : partition < q.num_partitions)
    (small : length (log partition) + 1 < 2 ^ 64) where
  abbrev next : ℕ
  next = suc (length (log partition))

  abbrev disk_after : Disk
  disk_after =
      insert (offset_path q.base_path partition) (to_string next)
        (insert (message_path q.base_path partition next) message disk)

  abbrev queue_after : PartitionedQueue
  queue_after = record q { offsets = set q.offsets partition next }

  counted_after :
      (p : ℕ) → get_or queue_after.offsets p 0 ≡ length (append_at log partition message p)
  counted_after p = elim (Bool-cases (partition == p)) [
    | inl e ↦
        let same : partition ≡ p = ground (arith, e) in
        rw (e, ← same)
          (get_or-set_self q.offsets partition next 0 (omega (arith, s.width))
            ∙ omega (arith, length-append (log partition) (message ∷ [])))
    | inr e ↦ rw e (get_or-set_ne q.offsets partition p next 0 (ground (arith, e)) ∙ s.counted p)
  ]

  messages_after :
      (p o : ℕ)
      → lookup (message_path q.base_path p (suc o)) disk_after
        ≡ get_elem? (append_at log partition message p) o
  messages_after p o =
      lookup-insert_ne (offset_path q.base_path partition) (message_path q.base_path p (suc o)) _ _
        (λ e. message_path-ne-offset_path q.base_path q.base_path p partition (suc o) (sym e))
      ∙ lookup-insert (message_path q.base_path partition next) (message_path q.base_path p (suc o))
          message disk
      ∙ rw (beq-message_path q.base_path partition p next (suc o))
          (ground (arith, s.messages p o, get_elem?-concat (log p) message o))

  tracked_after :
      (p : ℕ)
      → stored_offset disk_after (offset_path q.base_path p)
        ≡ length (append_at log partition message p)
  tracked_after p =
      stored_offset-insert (offset_path q.base_path partition) (offset_path q.base_path p)
        (to_string next) _
      ∙ rw (beq-offset_path q.base_path partition p) (
          ground (
            arith,
            extract-to_string next (omega arith),
            length-append (log partition) (message ∷ []),
            stored_offset-insert (message_path q.base_path partition next)
                (offset_path q.base_path p) message disk,
            beq_ne (message_path q.base_path partition next) (offset_path q.base_path p)
                (message_path-ne-offset_path q.base_path q.base_path partition p next),
            s.tracked p,
          ))

  Stores-after : Stores queue_after disk_after (append_at log partition message)
  Stores-after = record {
    width = length-set q.offsets partition next ∙ s.width;
    counted = counted_after;
    messages = messages_after;
    tracked = tracked_after;
  }

-- When no file is denied, `produce` returns the partition and the next offset, and appends the
-- message to that partition alone.
pub produce-Stores :
    (denied : Bytes → Bool) (hash : Bytes → ℕ) (q : PartitionedQueue) (disk : Disk)
    (log : ℕ → List Bytes) (key message : Bytes)
    → Stores q disk log
    → ((path : Bytes) → denied path ≡ false)
    → 0 < q.num_partitions
    → length (log (get_partition hash q key)) + 1 < 2 ^ 64
    → ((produce denied hash q disk key message).2
        ≡ written (get_partition hash q key) (length (log (get_partition hash q key)) + 1))
      × Stores
          (produce denied hash q disk key message).0
          (produce denied hash q disk key message).1
          (append_at log (get_partition hash q key) message)
unfolding get_partition
produce-Stores denied hash q disk log key message s open_ok some_partition small = rw produced (
  ap (written partition) (omega arith),
  Stores-after q disk log s partition message (mod-lt (hash key) some_partition) small,
)
  where
    partition : ℕ
    partition = get_partition hash q key

    produced : produce denied hash q disk key message ≡ (
      queue_after q disk log s partition message (mod-lt (hash key) some_partition) small,
      disk_after q disk log s partition message (mod-lt (hash key) some_partition) small,
      written partition (suc (length (log partition))),
    )
    produced =
        unfold produce write_message in
        let e : (get_or q.offsets partition 0 + 1) % 2 ^ 64 ≡ suc (length (log partition)) =
          omega (arith, s.counted partition) in
        rw (e, open_ok) (rw (open_ok, write_message, update_offset_file))
