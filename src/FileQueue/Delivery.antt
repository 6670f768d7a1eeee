-- ===== src/FileQueue/Delivery.antt =====
-- QueueConsumer against the log of the queue: each round takes the next message, commits it, and
-- disturbs neither the queue's files nor the other partitions.
pub mod Round
pub mod Restart
pub mod System
use mathlib.Core.List.{append_cancel_left}
use systems_craft.Prelude.{
  ℕ, zero, suc, ◌+◌, ◌%◌, ◌^◌, ◌≤◌, ◌<◌, ◌≡◌, ◌≢◌, refl, sym, ap, ◌∙◌, inl, inr, Bool, true, false,
  List, [], ◌∷◌, ◌++◌, append_assoc, append-nil, Option, none, some, arith, Bytes, codes, ◌==◌,
  if◌then◌else◌, Bool-cases, beq, beq_iff, beq_refl, beq_ne, lookup, insert, lookup-insert,
  lookup-insert_ne, length, length-append, get_elem?, get_or, set, length-set, get_or-set_self,
  get_or-set_ne, to_string, to_string-injective, extract_u64, extract-to_string, is_digit,
}
use systems_craft.FileQueue.Disk.{
  Disk, message_path, offset_path, stored_offset, stored_offset-insert, before_last,
  before_last-append, message_path-mark, offset_path-mark,
}
use systems_craft.FileQueue.Producer.{PartitionedQueue}
use systems_craft.FileQueue.Consumer.{
  QueueConsumer, Message, commit_path, read_next, commit_offset, consume_partition,
}
use systems_craft.FileQueue.Stores.{Stores, append_at}

commit_path-mark : (group : Bytes) (p : ℕ) → before_last (commit_path group p) ≡ b'e'
unfolding commit_path
commit_path-mark group p =
    ap before_last grouped
    ∙ before_last-append
        (codes "consumer_offsets/" ++ (group ++ (codes "/partition-" ++ to_string p))) b'.' b'o'
        (codes "ffset")
  where
    grouped :
        codes "consumer_offsets/"
          ++ (group ++ (codes "/partition-" ++ (to_string p ++ codes ".offset")))
        ≡ (codes "consumer_offsets/" ++ (group ++ (codes "/partition-" ++ to_string p)))
          ++ codes ".offset"
    grouped = simp append_assoc

pub commit_path-ne-message_path :
    (group base : Bytes) (i p o : ℕ) → commit_path group i ≢ message_path base p o
commit_path-ne-message_path group base i p o e =
    absurd (omega (arith, ap before_last e, commit_path-mark group i, message_path-mark base p o))

pub commit_path-ne-offset_path :
    (group base : Bytes) (i p : ℕ) → commit_path group i ≢ offset_path base p
commit_path-ne-offset_path group base i p e =
    absurd (omega (arith, ap before_last e, commit_path-mark group i, offset_path-mark base p))

commit_path-injective :
    (group : Bytes) (i j : ℕ) → commit_path group i ≡ commit_path group j → i ≡ j
unfolding commit_path is_digit
commit_path-injective group i j e =
    to_string-injective i j (codes ".offset") (codes ".offset") refl refl (
      append_cancel_left (codes "/partition-") _ _
        (append_cancel_left group _ _ (append_cancel_left (codes "consumer_offsets/") _ _ e)))

pub beq-commit_path :
    (group : Bytes) (i j : ℕ) → beq (commit_path group i) (commit_path group j) ≡ (i == j)
beq-commit_path group i j = elim (Bool-cases (beq (commit_path group i) (commit_path group j))) [
  | inl e ↦
      let same = commit_path-injective group i j ((beq_iff _ _).0 e) in rw e (ground (arith, same))
  | inr e ↦ elim (Bool-cases (i == j)) [
    | inl t ↦ let l : i ≡ j = ground (arith, t) in cc (beq_refl (commit_path group i), l)
    | inr f ↦ rw (e, f)
  ]
]

-- `delivered p` lists what the consumer has processed of partition `p`; the read offsets and the
-- committed offsets count it, and it is the front of the log.
pub record Delivers (c : QueueConsumer) (disk : Disk) (log delivered : ℕ → List Bytes)
    : Type 0 where
  pub width : length c.read_offsets ≡ c.num_partitions
  pub counted : (p : ℕ) → get_or c.read_offsets p 0 ≡ length (delivered p)
  pub front : (p : ℕ) → (rest : List Bytes) × (log p ≡ delivered p ++ rest)
  pub committed :
      (p : ℕ) → stored_offset disk (commit_path c.consumer_group p) ≡ length (delivered p)

-- Committing leaves the queue's own files alone.
pub Stores-commit :
    (q : PartitionedQueue) (disk : Disk) (log : ℕ → List Bytes) (group text : Bytes) (p : ℕ)
    → Stores q disk log
    → Stores q (insert (commit_path group p) text disk) log
Stores-commit q disk log group text p s = record {
  width = s.width;
  counted = s.counted;
  messages = λ p' o.
      lookup-insert_ne (commit_path group p) (message_path q.base_path p' (suc o)) text disk
        (commit_path-ne-message_path group q.base_path p p' (suc o))
      ∙ s.messages p' o;
  tracked = λ p'.
      stored_offset-insert (commit_path group p) (offset_path q.base_path p') text disk
      ∙ rw
          (beq_ne (commit_path group p) (offset_path q.base_path p')
            (commit_path-ne-offset_path group q.base_path p p'))
          (s.tracked p');
}

pub get_elem?-front : (xs rest : List Bytes) → get_elem? (xs ++ rest) (length xs) ≡ get_elem? rest 0
get_elem?-front [] rest = refl
get_elem?-front (x ∷ xs) rest = get_elem?-front xs rest
