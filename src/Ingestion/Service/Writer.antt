-- ===== src/Ingestion/Service/Writer.antt =====
-- The writer thread: what waits in the write queue reaches the file queue, unless the service shuts
-- down first.
use mathlib.Core.Path.{subst}
use systems_craft.Prelude.{
  ℕ, zero, suc, ◌+◌, ◌%◌, ◌^◌, ◌<◌, ◌≡◌, ◌⊎◌, refl, ap, ◌∙◌, inl, inr, true, false, List, [], ◌∷◌,
  ◌++◌, arith, Bytes, ◌==◌, length, Bool-cases, length-append,
}
use systems_craft.Metrics.{MetricBatch}
use systems_craft.Http.{HttpRequest}
use systems_craft.FileQueue.Producer.{produce, get_partition}
use systems_craft.FileQueue.Stores.{Stores, append_at, produce-Stores}
use systems_craft.FileQueue.Delivery.System.Runs.{produce-shape}
use systems_craft.Ingestion.Service.Accounting.{expected_status, handle_metrics_post-Accounts}
use systems_craft.Ingestion.Service.{
  parsed, client_of, file_based, Env, Service, serialize_metrics_batch_to_json,
  store_metrics_to_queue, handle_metrics_post, writer_round, shut_down_writer,
}

module _ {D K : Type 0} (env : Env D K) where
  pub rounds : ℕ → Service D K → Service D K
  rounds zero svc = svc
  rounds (suc k) svc = rounds k (writer_round env svc)

  -- The log of the file queue with `n` partitions after the batches are written.
  pub log_after : ℕ → (ℕ → List Bytes) → List (MetricBatch D × Bytes) → ℕ → List Bytes
  log_after n log [] = log
  log_after n log ((batch, client_id) ∷ items) =
      log_after n
        (append_at log (env.hash client_id % n) (serialize_metrics_batch_to_json env batch)) items

  -- A service in file mode whose writer is running, its file queue storing `log`, with room for
  -- what waits.
  pub record IsReady (svc : Service D K) (log : ℕ → List Bytes) : Type 0 where
    pub mode : svc.queue_mode ≡ file_based
    pub on : svc.writer_running ≡ true
    pub stores : Stores svc.file_queue svc.disk log
    pub some_partition : 0 < svc.file_queue.num_partitions
    pub room : (p : ℕ) → length (log p) + length svc.write_queue < 2 ^ 64

  abbrev message_of : MetricBatch D × Bytes → Bytes
  message_of item = serialize_metrics_batch_to_json env item.0

  abbrev key_partition : Service D K → Bytes → ℕ
  key_partition svc client_id = env.hash client_id % svc.file_queue.num_partitions

  writer_round-IsReady :
      (svc : Service D K) (log : ℕ → List Bytes) (item : MetricBatch D × Bytes)
      (rest : List (MetricBatch D × Bytes))
      → ((path : Bytes) → env.denied path ≡ false)
      → svc.write_queue ≡ item ∷ rest
      → IsReady svc log
      → IsReady (writer_round env svc) (append_at log (key_partition svc item.1) (message_of item))
        × ((writer_round env svc).write_queue ≡ rest)
        × ((writer_round env svc).file_queue.num_partitions ≡ svc.file_queue.num_partitions)
  unfolding writer_round store_metrics_to_queue get_partition
  writer_round-IsReady svc log item rest open_ok e h =
      rw (h.on, e, h.mode)
        (
          record {
            mode = h.mode;
            on = h.on;
            stores = produced;
            some_partition = omega (arith, shape, h.some_partition);
            room = λ p. room_left p (Bool-cases (key_partition svc item.1 == p));
          },
          refl,
          shape,
        )
    where
      shape :
          (produce env.denied env.hash svc.file_queue svc.disk item.1
            (message_of item)).0.num_partitions
          ≡ svc.file_queue.num_partitions
      shape = (produce-shape env.denied env.hash svc.file_queue svc.disk item.1 (message_of item)).1

      waiting : length svc.write_queue ≡ suc (length rest)
      waiting = ap length e

      produced :
          Stores
            (produce env.denied env.hash svc.file_queue svc.disk item.1 (message_of item)).0
            (produce env.denied env.hash svc.file_queue svc.disk item.1 (message_of item)).1
            (append_at log (get_partition env.hash svc.file_queue item.1) (message_of item))
      produced =
          (produce-Stores env.denied env.hash svc.file_queue svc.disk log item.1 (message_of item)
            h.stores open_ok h.some_partition
            (omega (arith, h.room (key_partition svc item.1), waiting))).1

      room_left :
          (p : ℕ)
          → ((key_partition svc item.1 == p) ≡ true) ⊎ ((key_partition svc item.1 == p) ≡ false)
          → length (append_at log (key_partition svc item.1) (message_of item) p) + length rest
            < 2 ^ 64
      room_left p (inl t) =
          rw t (omega (arith, h.room p, waiting, length-append (log p) (message_of item ∷ [])))
      room_left p (inr f) = rw f (omega (arith, h.room p, waiting))

  rounds_written :
      (svc : Service D K) (n : ℕ) (log : ℕ → List Bytes) (items : List (MetricBatch D × Bytes))
      → ((path : Bytes) → env.denied path ≡ false)
      → svc.write_queue ≡ items
      → svc.file_queue.num_partitions ≡ n
      → IsReady svc log
      → ((rounds (length items) svc).write_queue ≡ [])
        × Stores
            (rounds (length items) svc).file_queue
            (rounds (length items) svc).disk
            (log_after n log items)
  unfolding rounds log_after
  rounds_written svc n log [] open_ok e same h = (e, h.stores)
  rounds_written svc n log (item ∷ items) open_ok e same h =
      let (ready, left, kept) = writer_round-IsReady svc log item items open_ok e h in
      rounds_written (writer_round env svc) n
        (append_at log (env.hash item.1 % n) (message_of item)) items open_ok left (kept ∙ same)
        (subst
          (λ m.
            IsReady (writer_round env svc) (append_at log (env.hash item.1 % m) (message_of item)))
          same ready)

  -- While the writer runs and the files can be opened, as many rounds as batches wait write all of
  -- them into the file queue, in order, each into its client's partition, and empty the write
  -- queue.
  pub rounds-write_all :
      (svc : Service D K) (log : ℕ → List Bytes)
      → ((path : Bytes) → env.denied path ≡ false)
      → IsReady svc log
      → ((rounds (length svc.write_queue) svc).write_queue ≡ [])
        × Stores
            (rounds (length svc.write_queue) svc).file_queue
            (rounds (length svc.write_queue) svc).disk
            (log_after svc.file_queue.num_partitions log svc.write_queue)
  rounds-write_all svc log open_ok h =
      rounds_written svc svc.file_queue.num_partitions log svc.write_queue open_ok refl refl h

  rounds-off : (k : ℕ) (svc : Service D K) → svc.writer_running ≡ false → rounds k svc ≡ svc
  unfolding rounds
  rounds-off zero svc off = refl
  rounds-off (suc k) svc off =
      let same : writer_round env svc ≡ svc = stays svc off in
      ap (rounds k) same ∙ rounds-off k svc off
    where
      stays : (s : Service D K) → s.writer_running ≡ false → writer_round env s ≡ s
      stays s e = unfold writer_round in ground (arith, e)

  -- A batch that was accepted with status 200 and still waits when the service shuts down is never
  -- written: however often the writer's loop is entered after that, the files are as before the
  -- request, and the batch is the last one waiting.
  pub shut_down_writer-loses :
      (k : ℕ) (svc : Service D K) (request : HttpRequest) (now : ℕ)
      → svc.queue_mode ≡ file_based
      → svc.rate_limited + 1 < 2 ^ 64
      → svc.validation_errors + 1 < 2 ^ 64
      → svc.batches_processed + 1 < 2 ^ 64
      → svc.metrics_received + length (parsed env request.body) < 2 ^ 64
      → expected_status env svc request now ≡ 200
      → ((handle_metrics_post env svc request now).1.status_code ≡ 200)
        × ((rounds k (shut_down_writer env (handle_metrics_post env svc request now).0)).disk
            ≡ svc.disk)
        × ((rounds k (shut_down_writer env (handle_metrics_post env svc request now).0)).write_queue
            ≡ svc.write_queue ++ (parsed env request.body, client_of env request) ∷ [])
  unfolding shut_down_writer
  shut_down_writer-loses k svc request now mode a b c d ok =
      let h = handle_metrics_post-Accounts env svc request now mode a b c d in
      let same =
        rounds-off k (shut_down_writer env (handle_metrics_post env svc request now).0) refl in
      (
        h.answered ∙ ok,
        ap (λ (y : Service D K). y.disk) same ∙ h.disk_same,
        ap (λ (y : Service D K). y.write_queue) same ∙ h.queued ∙ rw ok refl,
      )
