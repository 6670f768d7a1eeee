-- ===== src/FileQueue/Delivery/Restart.antt =====
-- A restart of the consumer: QueueConsumer's constructor on the offsets that it committed.
use systems_craft.Prelude.{
  ℕ, zero, suc, ◌+◌, ◌≤◌, ◌<◌, ◌≡◌, refl, sym, ◌∙◌, inl, inr, false, List, arith, Bytes, ◌==◌,
  Bool-cases, Option-cases, lookup, length, get_or, length-set, get_or-set_self, get_or-set_ne,
  replicate, ltb, ltb→lt, ltb→ge,
}
use systems_craft.FileQueue.Disk.{Disk, stored_offset}
use systems_craft.FileQueue.Consumer
use systems_craft.FileQueue.Consumer.{QueueConsumer, commit_path, load_one, queue_consumer}
use systems_craft.FileQueue.Recovery.{get_or-past, zeros-length}
use systems_craft.FileQueue.Delivery.{Delivers}

length-load_one :
    (disk : Disk) (group : Bytes) (offsets : List ℕ) (i : ℕ)
    → length (load_one disk group offsets i) ≡ length offsets
unfolding load_one
length-load_one disk group offsets i = elim (Option-cases (lookup (commit_path group i) disk)) [
  | inl e ↦ rw (e, load_one)
  | inr (text, e) ↦ rw (e, load_one) (length-set offsets i _)
]

load_one-ne :
    (disk : Disk) (group : Bytes) (offsets : List ℕ) (i p : ℕ)
    → (i == p) ≡ false
    → get_or (load_one disk group offsets i) p 0 ≡ get_or offsets p 0
unfolding load_one
load_one-ne disk group offsets i p h = elim (Option-cases (lookup (commit_path group i) disk)) [
  | inl e ↦ rw (e, load_one)
  | inr (text, e) ↦ rw (e, load_one) (get_or-set_ne offsets i p _ 0 (ground (arith, h)))
]

-- From an offset 0 the entry becomes what the file holds.
load_one_self :
    (disk : Disk) (group : Bytes) (offsets : List ℕ) (i : ℕ)
    → get_or offsets i 0 ≡ 0
    → i < length offsets
    → get_or (load_one disk group offsets i) i 0 ≡ stored_offset disk (commit_path group i)
unfolding load_one stored_offset
load_one_self disk group offsets i z h = elim (Option-cases (lookup (commit_path group i) disk)) [
  | inl e ↦ rw (e, load_one, stored_offset) z
  | inr (text, e) ↦ rw (e, load_one, stored_offset) (get_or-set_self offsets i _ 0 h)
]

load_loop-below :
    (disk : Disk) (group : Bytes) (rounds i p : ℕ) (offsets : List ℕ)
    → p < i
    → get_or (Consumer.load_loop disk group rounds i offsets) p 0 ≡ get_or offsets p 0
unfolding Consumer.load_loop
load_loop-below disk group zero i p offsets h = refl
load_loop-below disk group (suc rounds) i p offsets h =
    load_loop-below disk group rounds (i + 1) p (load_one disk group offsets i) (omega arith)
    ∙ load_one-ne disk group offsets i p (ground arith)

length-load_loop :
    (disk : Disk) (group : Bytes) (rounds i : ℕ) (offsets : List ℕ)
    → length (Consumer.load_loop disk group rounds i offsets) ≡ length offsets
unfolding Consumer.load_loop
length-load_loop disk group zero i offsets = refl
length-load_loop disk group (suc rounds) i offsets =
    length-load_loop disk group rounds (i + 1) (load_one disk group offsets i)
    ∙ length-load_one disk group offsets i

load_loop-reads :
    (disk : Disk) (group : Bytes) (rounds i p : ℕ) (offsets : List ℕ)
    → i ≤ p
    → p < i + rounds
    → i + rounds ≤ length offsets
    → get_or offsets p 0 ≡ 0
    → get_or (Consumer.load_loop disk group rounds i offsets) p 0
      ≡ stored_offset disk (commit_path group p)
unfolding Consumer.load_loop
load_loop-reads disk group zero i p offsets lo hi fits z = absurd (omega arith)
load_loop-reads disk group (suc rounds) i p offsets lo hi fits z =
    let next = load_one disk group offsets i in
    elim (Bool-cases (i == p)) [
      | inl e ↦
          let same : i ≡ p = ground (arith, e) in
          load_loop-below disk group rounds (i + 1) p next (omega arith)
          ∙ rw (← same) (load_one_self disk group offsets i (rw same z) (omega arith))
      | inr e ↦
          load_loop-reads disk group rounds (i + 1) p next (ground (arith, e)) (omega arith)
            (omega (arith, length-load_one disk group offsets i))
            (load_one-ne disk group offsets i p e ∙ z)
    ]

get_or-zeros : (n i : ℕ) → get_or {A = ℕ} (replicate n 0) i 0 ≡ 0
get_or-zeros zero i = refl
get_or-zeros (suc n) zero = refl
get_or-zeros (suc n) (suc i) = get_or-zeros n i

-- A consumer that is started again for the same group and as many partitions goes on behind the
-- last message that it has committed: it has delivered exactly what the one before it had.
pub queue_consumer-Delivers :
    (c : QueueConsumer) (disk : Disk) (log delivered : ℕ → List Bytes) (path : Bytes)
    → Delivers c disk log delivered
    → Delivers (queue_consumer disk path c.consumer_group c.num_partitions) disk log delivered
unfolding queue_consumer Consumer.load_offsets
queue_consumer-Delivers c disk log delivered path d = record {
  width =
      length-load_loop disk c.consumer_group c.num_partitions 0 (replicate c.num_partitions 0)
      ∙ zeros-length c.num_partitions;
  counted = λ p. elim (Bool-cases (ltb p c.num_partitions)) [
    | inl e ↦
        load_loop-reads disk c.consumer_group c.num_partitions 0 p (replicate c.num_partitions 0)
          (omega arith) (omega (arith, ltb→lt p c.num_partitions e))
          (omega (arith, zeros-length c.num_partitions)) (get_or-zeros c.num_partitions p)
        ∙ d.committed p
    | inr e ↦
        get_or-past
          (Consumer.load_loop disk c.consumer_group c.num_partitions 0
            (replicate c.num_partitions 0))
          p
          (omega (
            arith,
            length-load_loop disk c.consumer_group c.num_partitions 0
                (replicate c.num_partitions 0),
            zeros-length c.num_partitions,
            ltb→ge p c.num_partitions e,
          ))
        ∙ sym (get_or-past c.read_offsets p (omega (arith, d.width, ltb→ge p c.num_partitions e)))
        ∙ d.counted p
  ];
  front = d.front;
  committed = d.committed;
}
