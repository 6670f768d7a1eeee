-- ===== src/FileQueue/Recovery.antt =====
-- A restart of the producer: PartitionedQueue's constructor on the files that an earlier run left.
use systems_craft.Prelude.{
  ℕ, zero, suc, ◌+◌, ◌≤◌, ◌<◌, ◌≡◌, refl, sym, ◌∙◌, inl, inr, List, [], ◌∷◌, arith, Bytes, ◌==◌,
  Bool-cases, length, get_or, set, length-set, get_or-set_self, get_or-set_ne, replicate,
  length-replicate, ltb, ltb→lt, ltb→ge,
}
use systems_craft.FileQueue.Disk.{Disk, offset_path, stored_offset}
use systems_craft.FileQueue.Producer.{PartitionedQueue, load_loop, load_offsets, partitioned_queue}
use systems_craft.FileQueue.Stores.{Stores}

load_loop-below :
    (disk : Disk) (base : Bytes) (rounds i p : ℕ) (offsets : List ℕ)
    → p < i
    → get_or (load_loop disk base rounds i offsets) p 0 ≡ get_or offsets p 0
unfolding load_loop
load_loop-below disk base zero i p offsets h = refl
load_loop-below disk base (suc rounds) i p offsets h =
    load_loop-below disk base rounds (i + 1) p
      (set offsets i (stored_offset disk (offset_path base i))) (omega arith)
    ∙ get_or-set_ne offsets i p _ 0 (omega arith)

length-load_loop :
    (disk : Disk) (base : Bytes) (rounds i : ℕ) (offsets : List ℕ)
    → length (load_loop disk base rounds i offsets) ≡ length offsets
unfolding load_loop
length-load_loop disk base zero i offsets = refl
length-load_loop disk base (suc rounds) i offsets =
    length-load_loop disk base rounds (i + 1)
      (set offsets i (stored_offset disk (offset_path base i)))
    ∙ length-set offsets i _

-- The loop reads each partition's counter from its file.
load_loop-reads :
    (disk : Disk) (base : Bytes) (rounds i p : ℕ) (offsets : List ℕ)
    → i ≤ p
    → p < i + rounds
    → i + rounds ≤ length offsets
    → get_or (load_loop disk base rounds i offsets) p 0 ≡ stored_offset disk (offset_path base p)
unfolding load_loop
load_loop-reads disk base zero i p offsets lo hi fits = absurd (omega arith)
load_loop-reads disk base (suc rounds) i p offsets lo hi fits =
    let next = set offsets i (stored_offset disk (offset_path base i)) in
    elim (Bool-cases (i == p)) [
      | inl e ↦
          let same : i ≡ p = ground (arith, e) in
          load_loop-below disk base rounds (i + 1) p next (omega arith)
          ∙ rw (← same) (get_or-set_self offsets i _ 0 (omega arith))
      | inr e ↦
          load_loop-reads disk base rounds (i + 1) p next (ground (arith, e)) (omega arith)
            (omega (arith, length-set offsets i (stored_offset disk (offset_path base i))))
    ]

pub zeros-length : (n : ℕ) → length (replicate {A = ℕ} n 0) ≡ n
zeros-length n = length-replicate n 0

pub get_or-past : (xs : List ℕ) (i : ℕ) → length xs ≤ i → get_or xs i 0 ≡ 0
get_or-past [] i h = refl
get_or-past (x ∷ xs) zero h = absurd (omega arith)
get_or-past (x ∷ xs) (suc i) h = get_or-past xs i (omega arith)

-- After a restart on the same directory with as many partitions the queue goes on where it was:
-- the new process stores the same log, whatever was in the old one's memory.
pub partitioned_queue-Stores :
    (q : PartitionedQueue) (disk : Disk) (log : ℕ → List Bytes)
    → Stores q disk log
    → Stores (partitioned_queue disk q.base_path q.num_partitions) disk log
unfolding partitioned_queue load_offsets
partitioned_queue-Stores q disk log s = record {
  width =
      length-load_loop disk q.base_path q.num_partitions 0 (replicate q.num_partitions 0)
      ∙ zeros-length q.num_partitions;
  counted = λ p. elim (Bool-cases (ltb p q.num_partitions)) [
    | inl e ↦
        load_loop-reads disk q.base_path q.num_partitions 0 p (replicate q.num_partitions 0)
          (omega arith) (omega (arith, ltb→lt p q.num_partitions e))
          (omega (arith, zeros-length q.num_partitions))
        ∙ s.tracked p
    | inr e ↦
        get_or-past (load_loop disk q.base_path q.num_partitions 0 (replicate q.num_partitions 0)) p
          (omega (
            arith,
            length-load_loop disk q.base_path q.num_partitions 0 (replicate q.num_partitions 0),
            zeros-length q.num_partitions,
            ltb→ge p q.num_partitions e,
          ))
        ∙ sym (get_or-past q.offsets p (omega (arith, s.width, ltb→ge p q.num_partitions e)))
        ∙ s.counted p
  ];
  messages = s.messages;
  tracked = s.tracked;
}
