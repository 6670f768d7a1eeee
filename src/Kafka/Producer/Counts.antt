-- ===== src/Kafka/Producer/Counts.antt =====
-- The message counters against a list of the results that calls have returned.
pub mod Runs
pub mod Sound
use systems_craft.Prelude.{
  ℕ, zero, suc, ◌+◌, ◌%◌, ◌^◌, ◌<◌, ◌≡◌, ◌≢◌, refl, sym, ap, ◌∙◌, inl, inr, Bool, true, false, ◌&&◌,
  List, [], ◌∷◌, Option, none, some, arith, Bytes, Option-cases, Bool-cases, ==_iff, get_elem?,
  get_or, set, get_or-set_self, get_or-set_ne, length-set, ◌==◌, if◌then◌else◌, length,
}
use systems_craft.Kafka.Producer.{
  Client, PartitionProducer, KafkaProducer, ErrorCode, no_error, err_state, err_queue_full,
  err_other, Attempt, returns, retries, is_ok, key_pointer, make_producers, kafka_producer,
  select_partition, increment, counted, retry_of, attempt, produce, produce_again, poll_partition,
  poll_round, flush_all, flush,
}

-- How many results are no error, of the keys that pass the test.
abbrev pub accepted : (Bytes → Bool) → List (Bytes × ErrorCode) → ℕ
accepted on [] = 0
accepted on ((key, err) ∷ results) =
    let rest = accepted on results in if on key && is_ok err then suc rest else rest

abbrev pub on_partition : (Bytes → ℕ) → ℕ → ℕ → Bytes → Bool
on_partition hash n i key = hash key % n == i

abbrev pub always : Bytes → Bool
always key = true

increment-mod : (a count : ℕ) → count ≡ a % 2 ^ 32 → increment count ≡ suc a % 2 ^ 32
unfolding increment
increment-mod a count h = omega (arith, h)

-- A result that is an error, or that is not counted here, changes no number.
pub accepted_error :
    (on : Bytes → Bool) (key : Bytes) (err : ErrorCode) (results : List (Bytes × ErrorCode))
    → is_ok err ≡ false
    → accepted on ((key, err) ∷ results) ≡ accepted on results
accepted_error on key err results h = ground (arith, h)

accepted_elsewhere :
    (on : Bytes → Bool) (key : Bytes) (err : ErrorCode) (results : List (Bytes × ErrorCode))
    → on key ≡ false
    → accepted on ((key, err) ∷ results) ≡ accepted on results
accepted_elsewhere on key err results h = rw h refl

accepted_one :
    (on : Bytes → Bool) (key : Bytes) (err : ErrorCode) (results : List (Bytes × ErrorCode))
    → on key ≡ true
    → is_ok err ≡ true
    → suc (accepted on results) ≡ accepted on ((key, err) ∷ results)
accepted_one on key err results h ok = rw (h, ok) refl

module _ {ℓ} {P : Type ℓ} where
  abbrev pub counts : List (PartitionProducer P) → List ℕ
  counts [] = []
  counts (pp ∷ pps) = pp.message_count ∷ counts pps

  counts-set :
      (pps : List (PartitionProducer P)) (i : ℕ) (pp : PartitionProducer P)
      → counts (set pps i pp) ≡ set (counts pps) i pp.message_count
  counts-set [] i pp = refl
  counts-set (q ∷ pps) zero pp = refl
  counts-set (q ∷ pps) (suc i) pp = ap (λ c. q.message_count ∷ c) (counts-set pps i pp)

  -- A partition that is there has its counter in the list.
  pub counts-get_elem :
      (pps : List (PartitionProducer P)) (i : ℕ) (pp : PartitionProducer P)
      → get_elem? pps i ≡ some pp
      → (i < length (counts pps))
        × (set (counts pps) i pp.message_count ≡ counts pps)
        × (get_or (counts pps) i 0 ≡ pp.message_count)
  counts-get_elem [] i pp h = cc h
  counts-get_elem (q ∷ pps) zero pp h =
      let same : q ≡ pp = cc h in
      let count : q.message_count ≡ pp.message_count =
        ap (λ (x : PartitionProducer P). x.message_count) same in
      (omega arith, ap (λ c. c ∷ counts pps) (sym count), count)
  counts-get_elem (q ∷ pps) (suc i) pp h =
      let ih = counts-get_elem pps i pp h in
      (omega (arith, ih.0), ap (λ c. q.message_count ∷ c) ih.1, ih.2)

  -- The counters agree with a list of results.
  pub record Counts (hash : Bytes → ℕ) (n : ℕ) (k : KafkaProducer P)
      (results : List (Bytes × ErrorCode)) : Type ℓ where
    pub width : k.num_partitions ≡ n
    pub partitions : length (counts k.partition_producers) ≡ n
    pub total : k.total_message_count ≡ accepted always results % 2 ^ 32
    pub each :
        (i : ℕ)
        → i < n
        → get_or (counts k.partition_producers) i 0
          ≡ accepted (on_partition hash n i) results % 2 ^ 32

  module _ (hash : Bytes → ℕ) (n : ℕ) where
    pub error-Counts :
        (k : KafkaProducer P) (results : List (Bytes × ErrorCode)) (key : Bytes) (err : ErrorCode)
        → is_ok err ≡ false
        → Counts hash n k results
        → Counts hash n k ((key, err) ∷ results)
    error-Counts k results key err h c = record {
      width = c.width;
      partitions = c.partitions;
      total = c.total ∙ ap (λ a. a % 2 ^ 32) (sym (accepted_error always key err results h));
      each = λ j inside.
          c.each j inside
          ∙ ap (λ a. a % 2 ^ 32) (sym (accepted_error (on_partition hash n j) key err results h));
    }

    -- A partition whose counter stays may change otherwise.
    pub same_count-Counts :
        (k : KafkaProducer P) (results : List (Bytes × ErrorCode)) (i : ℕ)
        (pp changed : PartitionProducer P)
        → get_elem? k.partition_producers i ≡ some pp
        → changed.message_count ≡ pp.message_count
        → Counts hash n k results
        → Counts hash n
            (record k { partition_producers = set k.partition_producers i changed })
            results
    same_count-Counts k results i pp changed there same c =
        let at = counts-get_elem k.partition_producers i pp there in
        let unchanged : counts (set k.partition_producers i changed)
            ≡ counts k.partition_producers =
          counts-set k.partition_producers i changed
          ∙ ap (set (counts k.partition_producers) i) same
          ∙ at.1 in
        record {
          width = c.width;
          partitions = ap length unchanged ∙ c.partitions;
          total = c.total;
          each = λ j inside. ap (λ l. get_or l j 0) unchanged ∙ c.each j inside;
        }

    pub ok-Counts :
        (k : KafkaProducer P) (results : List (Bytes × ErrorCode)) (key : Bytes) (err : ErrorCode)
        (pp changed : PartitionProducer P)
        → is_ok err ≡ true
        → get_elem? k.partition_producers (hash key % n) ≡ some pp
        → changed.message_count ≡ increment pp.message_count
        → Counts hash n k results
        → Counts hash n
            (record k {
              partition_producers = set k.partition_producers (hash key % n) changed;
              total_message_count = increment k.total_message_count;
            })
            ((key, err) ∷ results)
    ok-Counts k results key err pp changed ok there more c =
        let i = hash key % n in
        let at = counts-get_elem k.partition_producers i pp there in
        let now = counts-set k.partition_producers i changed in
        record {
          width = c.width;
          partitions =
              ap length now
              ∙ length-set (counts k.partition_producers) i changed.message_count
              ∙ c.partitions;
          total =
              increment-mod (accepted always results) k.total_message_count c.total
              ∙ ap (λ a. a % 2 ^ 32) (accepted_one always key err results refl ok);
          each = λ j inside. ap (λ l. get_or l j 0) now ∙ (elim (Bool-cases (i == j)) [
            | inl e ↦
                let same : i ≡ j = ground (arith, e) in
                let before =
                  sym at.2
                  ∙ ap (λ x. get_or (counts k.partition_producers) x 0) same
                  ∙ c.each j inside in
                ap (λ x. get_or (set (counts k.partition_producers) i changed.message_count) x 0)
                  (sym same)
                ∙ get_or-set_self (counts k.partition_producers) i changed.message_count 0 at.0
                ∙ more
                ∙ increment-mod (accepted (on_partition hash n j) results) pp.message_count before
                ∙ ap (λ a. a % 2 ^ 32) (accepted_one (on_partition hash n j) key err results e ok)
            | inr e ↦
                let apart : i ≢ j = λ same. ground (arith, e, same) in
                get_or-set_ne (counts k.partition_producers) i j changed.message_count 0 apart
                ∙ c.each j inside
                ∙ ap (λ a. a % 2 ^ 32)
                    (sym (accepted_elsewhere (on_partition hash n j) key err results e))
          ]);
        }
