-- ===== src/FileQueue/Delivery/System/Runs.antt =====
-- Every run of producer and consumer, whatever the order of calls, polls and restarts.
use systems_craft.Prelude.{
  ℕ, ◌+◌, ◌^◌, ◌%◌, ◌<◌, ◌≡◌, refl, sym, ap, ◌∙◌, inl, inr, Bool, List, [], ◌∷◌, ◌++◌, arith, Bytes,
  ◌==◌, Bool-cases, length, length-append, append-nil, append_assoc,
}
use systems_craft.FileQueue.Disk.{Disk}
use systems_craft.FileQueue.Producer.{
  PartitionedQueue, get_partition, produce, write_message, update_offset_file, partitioned_queue,
}
use systems_craft.FileQueue.Producer
use systems_craft.FileQueue.Consumer
use systems_craft.FileQueue.Consumer.{
  QueueConsumer, queue_consumer, start, read_next, consume_partition,
}
use systems_craft.FileQueue.Stores.{append_at, produce-Stores}
use systems_craft.FileQueue.Recovery.{partitioned_queue-Stores}
use systems_craft.FileQueue.Delivery.{Delivers}
use systems_craft.FileQueue.Delivery.Round.{consume_partition-Delivers, handed_over, delivered_next}
use systems_craft.FileQueue.Delivery.Restart.{queue_consumer-Delivers}
use systems_craft.FileQueue.Delivery.System.{
  System, deliver, Event, send, poll, restart_producer, restart_consumer, allowed, step, run, sent,
  PollsInside, IsSound, produce-Delivers,
}

-- A producer keeps its directory and its number of partitions.
pub produce-shape :
    (denied : Bytes → Bool) (hash : Bytes → ℕ) (q : PartitionedQueue) (disk : Disk)
    (key message : Bytes)
    → ((produce denied hash q disk key message).0.base_path ≡ q.base_path)
      × ((produce denied hash q disk key message).0.num_partitions ≡ q.num_partitions)
unfolding produce write_message update_offset_file
produce-shape denied hash q disk key message = ground arith

consume_partition-shape :
    (denied : Bytes → Bool) (c : QueueConsumer) (disk : Disk) (p : ℕ)
    → ((consume_partition denied c disk p).0.queue_path ≡ c.queue_path)
      × ((consume_partition denied c disk p).0.num_partitions ≡ c.num_partitions)
      × ((consume_partition denied c disk p).0.running ≡ c.running)
unfolding consume_partition read_next
consume_partition-shape denied c disk p = ground arith

pub deliver-handed_over :
    (delivered : ℕ → List Bytes) (p k : ℕ) (rest : List Bytes)
    → deliver delivered (handed_over p k rest) ≡ delivered_next delivered p rest
deliver-handed_over delivered p k [] = refl
deliver-handed_over delivered p k (m ∷ rest) = refl

pub start-Delivers :
    (c : QueueConsumer) (disk : Disk) (log delivered : ℕ → List Bytes)
    → Delivers c disk log delivered
    → Delivers (start c) disk log delivered
unfolding start
start-Delivers c disk log delivered d = record {
  width = d.width;
  counted = d.counted;
  front = d.front;
  committed = d.committed;
}

module _ (hash : Bytes → ℕ) (n : ℕ) (some_partition : 0 < n) where
  -- No partition can come near the largest offset in `k` more events.
  abbrev pub Room : (ℕ → List Bytes) → ℕ → Type 0
  Room log k = (p : ℕ) → length (log p) + k + 1 < 2 ^ 64

  step_send-IsSound :
      (sys : System) (log : ℕ → List Bytes) (key message : Bytes)
      → IsSound n sys log
      → Room log 1
      → IsSound n (step hash sys (send key message)) (append_at log (hash key % n) message)
  unfolding step
  step_send-IsSound sys log key message s room =
      let same : get_partition hash sys.queue key ≡ hash key % n =
        unfold get_partition in ap (λ k. hash key % k) s.producer_width in
      let width : 0 < sys.queue.num_partitions = omega (arith, s.producer_width) in
      let kept =
        produce-Stores allowed hash sys.queue sys.disk log key message s.stores (λ path. refl) width
          (omega (arith, room (get_partition hash sys.queue key))) in
      let shape = produce-shape allowed hash sys.queue sys.disk key message in
      record {
        stores = rw same at (kept.1);
        delivers = rw same at (
            produce-Delivers allowed hash sys.queue sys.disk key message sys.consumer log
              sys.delivered s.delivers);
        same_path = s.same_path ∙ sym shape.0;
        runs = s.runs;
        producer_width = shape.1 ∙ s.producer_width;
        consumer_width = s.consumer_width;
      }

  pub step_poll-lem :
      (sys : System) (log : ℕ → List Bytes) (p : ℕ) (rest : List Bytes)
      → IsSound n sys log
      → Room log 0
      → p < n
      → log p ≡ sys.delivered p ++ rest
      → IsSound n (step hash sys (poll p)) log
        × ((step hash sys (poll p)).delivered ≡ delivered_next sys.delivered p rest)
  unfolding step
  step_poll-lem sys log p rest s room inside e =
      let kept =
        consume_partition-Delivers sys.queue sys.consumer sys.disk log sys.delivered allowed p rest
          s.stores s.delivers s.same_path s.runs (λ path. refl) (omega (arith, s.consumer_width))
          (omega (arith, room p)) e in
      let shape = consume_partition-shape allowed sys.consumer sys.disk p in
      let now =
        ap (deliver sys.delivered) kept.0
        ∙ deliver-handed_over sys.delivered p (length (sys.delivered p)) rest in
      (
        record {
          stores = kept.2;
          delivers = rw now (kept.1);
          same_path = shape.0 ∙ s.same_path;
          runs = shape.2 ∙ s.runs;
          producer_width = s.producer_width;
          consumer_width = shape.1 ∙ s.consumer_width;
        },
        now,
      )

  pub polled-handed_over :
      (sys : System) (log : ℕ → List Bytes) (p : ℕ) (rest : List Bytes)
      → IsSound n sys log
      → Room log 0
      → p < n
      → log p ≡ sys.delivered p ++ rest
      → (consume_partition allowed sys.consumer sys.disk p).2
        ≡ handed_over p (length (sys.delivered p)) rest
  polled-handed_over sys log p rest s room inside e =
      (consume_partition-Delivers sys.queue sys.consumer sys.disk log sys.delivered allowed p rest
        s.stores s.delivers s.same_path s.runs (λ path. refl) (omega (arith, s.consumer_width))
        (omega (arith, room p)) e).0

  restart_producer-IsSound :
      (sys : System) (log : ℕ → List Bytes)
      → IsSound n sys log
      → IsSound n (step hash sys restart_producer) log
  unfolding step partitioned_queue Producer.load_offsets
  restart_producer-IsSound sys log s = record {
    stores = partitioned_queue-Stores sys.queue sys.disk log s.stores;
    delivers = s.delivers;
    same_path = s.same_path;
    runs = s.runs;
    producer_width = s.producer_width;
    consumer_width = s.consumer_width;
  }

  restart_consumer-IsSound :
      (sys : System) (log : ℕ → List Bytes)
      → IsSound n sys log
      → IsSound n (step hash sys restart_consumer) log
  unfolding step start queue_consumer Consumer.load_offsets
  restart_consumer-IsSound sys log s = record {
    stores = s.stores;
    delivers = start-Delivers _ sys.disk log sys.delivered (
        queue_consumer-Delivers sys.consumer sys.disk log sys.delivered sys.consumer.queue_path
          s.delivers);
    same_path = s.same_path;
    runs = refl;
    producer_width = s.producer_width;
    consumer_width = s.consumer_width;
  }

  -- The log at the end is the log at the start with what the events sent behind it.
  abbrev pub Grows : (ℕ → List Bytes) → List Event → (ℕ → List Bytes) → Type 0
  Grows log events log' = (p : ℕ) → log' p ≡ log p ++ sent hash n p events

  abbrev pub RunsTo : System → (ℕ → List Bytes) → List Event → Type 0
  RunsTo sys log events =
      (log' : ℕ → List Bytes) × IsSound n (run hash sys events) log' × Grows log events log'

  pub run-IsSound :
      (events : List Event) (sys : System) (log : ℕ → List Bytes)
      → IsSound n sys log
      → Room log (length events)
      → PollsInside n events
      → RunsTo sys log events
  unfolding run sent
  run-IsSound [] sys log s room inside = (log, s, λ p. sym (append-nil (log p)))
  run-IsSound (send key message ∷ events) sys log s room inside =
      let ih =
        run-IsSound events (step hash sys (send key message)) (append_at log (hash key % n) message)
          (step_send-IsSound sys log key message s (λ p. omega (arith, room p)))
          (λ p. ground (arith, room p, length-append (log p) (message ∷ []))) inside in
      (
        ih.0,
        ih.1,
        λ p. elim (Bool-cases (hash key % n == p)) [
          | inl t ↦ ih.2 p ∙ rw (t, append_assoc)
          | inr f ↦ ih.2 p ∙ rw f
        ],
      )
  run-IsSound (poll p ∷ events) sys log s room inside =
      let (kept, now) =
        step_poll-lem sys log p (s.delivers.front p).0 s (λ p'. omega (arith, room p')) inside.0
          (s.delivers.front p).1 in
      run-IsSound events (step hash sys (poll p)) log kept (λ p'. omega (arith, room p')) inside.1
  run-IsSound (restart_producer ∷ events) sys log s room inside =
      run-IsSound events (step hash sys restart_producer) log (restart_producer-IsSound sys log s)
        (λ p'. omega (arith, room p')) inside
  run-IsSound (restart_consumer ∷ events) sys log s room inside =
      run-IsSound events (step hash sys restart_consumer) log (restart_consumer-IsSound sys log s)
        (λ p'. omega (arith, room p')) inside
