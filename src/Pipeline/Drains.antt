-- ===== src/Pipeline/Drains.antt =====
-- The pipeline after the last request: the writer and the consumer work off what waits.
use mathlib.Core.Path.{subst}
use systems_craft.Prelude.{
  ℕ, zero, suc, ◌+◌, ◌^◌, ◌≤◌, ◌<◌, ◌≡◌, refl, sym, ap, ◌∙◌, List, [], ◌∷◌, ◌++◌, arith, Bytes,
  length, length-append, replicate, map, append-nil, append_assoc,
}
use systems_craft.RateLimiter.{RateLimiter}
use systems_craft.FileQueue.Delivery.System
use systems_craft.FileQueue.Delivery.System.{sent, poll}
use systems_craft.FileQueue.Delivery.System.Order.{delivered_all}
use systems_craft.Ingestion.Service.{Env}
use systems_craft.Pipeline.Posts.{IsFiling}
use systems_craft.Pipeline.Simulates.{step-IsFiling, writer_round-Waits, writer_round-idle}
use systems_craft.Pipeline.Accepted.{length-of_partition, Written-length, run-Files}
use systems_craft.Pipeline.Delivered.{
  ConsumesInside, trace-PollsInside, length-trace, delivered-trace, fresh-IsFiling,
}
use systems_craft.Pipeline.{
  Pipeline, Action, post, write, consume, restart, step, run, answered, accepted_batches, written,
  trace, Item, of_partition, Written, fresh,
}

ConsumesInside-writes :
    (n : ℕ) (actions : List Action) (times : List ℕ)
    → ConsumesInside n actions
    → ConsumesInside n (actions ++ map write times)
ConsumesInside-writes n [] [] h = tt
ConsumesInside-writes n [] (t ∷ times) h = ConsumesInside-writes n [] times tt
ConsumesInside-writes n (post request now ∷ actions) times h =
    ConsumesInside-writes n actions times h
ConsumesInside-writes n (write time ∷ actions) times h = ConsumesInside-writes n actions times h
ConsumesInside-writes n (consume p ∷ actions) times h =
    (h.0, ConsumesInside-writes n actions times h.1)
ConsumesInside-writes n (restart ∷ actions) times h = ConsumesInside-writes n actions times h

length-map : (times : List ℕ) → length (map write times) ≡ length times
length-map [] = refl
length-map (t ∷ times) = ap suc (length-map times)

module _ {D K : Type 0} (env : Env D K) where
  run-append :
      (pipe : Pipeline D K) (actions more : List Action)
      → run env pipe (actions ++ more) ≡ run env (run env pipe actions) more
  unfolding run
  run-append pipe [] more = refl
  run-append pipe (a ∷ actions) more = run-append (step env pipe a) actions more

  accepted_batches-append :
      (pipe : Pipeline D K) (actions more : List Action)
      → accepted_batches env pipe (actions ++ more)
        ≡ accepted_batches env pipe actions ++ accepted_batches env (run env pipe actions) more
  unfolding run accepted_batches
  accepted_batches-append pipe [] more = refl
  accepted_batches-append pipe (post request now ∷ actions) more =
      let next = step env pipe (post request now) in
      let items = answered env pipe.service request now in
      ap (λ l. items ++ l) (accepted_batches-append next actions more)
      ∙ sym (
          append_assoc items (accepted_batches env next actions)
            (accepted_batches env (run env next actions) more))
  accepted_batches-append pipe (write time ∷ actions) more =
      accepted_batches-append (step env pipe (write time)) actions more
  accepted_batches-append pipe (consume p ∷ actions) more =
      accepted_batches-append (step env pipe (consume p)) actions more
  accepted_batches-append pipe (restart ∷ actions) more =
      accepted_batches-append (step env pipe restart) actions more

  trace-append :
      (pipe : Pipeline D K) (actions more : List Action)
      → trace env pipe (actions ++ more)
        ≡ trace env pipe actions ++ trace env (run env pipe actions) more
  unfolding run trace
  trace-append pipe [] more = refl
  trace-append pipe (post request now ∷ actions) more =
      trace-append (step env pipe (post request now)) actions more
  trace-append pipe (write time ∷ actions) more =
      let next = step env pipe (write time) in
      let events = written env pipe.service time in
      ap (λ l. events ++ l) (trace-append next actions more)
      ∙ sym (append_assoc events (trace env next actions) (trace env (run env next actions) more))
  trace-append pipe (consume p ∷ actions) more =
      ap (λ l. poll p ∷ l) (trace-append (step env pipe (consume p)) actions more)
  trace-append pipe (restart ∷ actions) more =
      ap (λ l. System.restart_consumer ∷ l) (trace-append (step env pipe restart) actions more)

  accepted_batches-writes :
      (pipe : Pipeline D K) (times : List ℕ) → accepted_batches env pipe (map write times) ≡ []
  unfolding accepted_batches
  accepted_batches-writes pipe [] = refl
  accepted_batches-writes pipe (t ∷ times) = accepted_batches-writes (step env pipe (write t)) times

  trace-consumes :
      (pipe : Pipeline D K) (k p : ℕ)
      → trace env pipe (replicate k (consume p)) ≡ replicate k (poll p)
  unfolding trace
  trace-consumes pipe zero p = refl
  trace-consumes pipe (suc k) p =
      ap (λ l. poll p ∷ l) (trace-consumes (step env pipe (consume p)) k p)

  run-IsFiling :
      (pipe : Pipeline D K) (actions : List Action)
      → IsFiling env pipe.service
      → IsFiling env (run env pipe actions).service
  unfolding run
  run-IsFiling pipe [] h = h
  run-IsFiling pipe (a ∷ actions) h =
      run-IsFiling (step env pipe a) actions (step-IsFiling env pipe a h)

  -- As many rounds of the writer as batches wait leave none.
  run-writes :
      (pipe : Pipeline D K) (times : List ℕ) (items : List (Item D))
      → IsFiling env pipe.service
      → pipe.service.write_queue ≡ items
      → length items ≤ length times
      → (run env pipe (map write times)).service.write_queue ≡ []
  unfolding run step
  run-writes pipe [] [] h e le = e
  run-writes pipe [] (item ∷ items) h e le = absurd (omega arith)
  run-writes pipe (t ∷ times) [] h e le =
      let idle = writer_round-idle env pipe.service t h e in
      run-writes (step env pipe (write t)) times [] idle.filing idle.waiting (omega arith)
  run-writes pipe (t ∷ times) (item ∷ items) h e le =
      let taken = writer_round-Waits env pipe.service t item items h e in
      run-writes (step env pipe (write t)) times items taken.filing taken.waiting (omega arith)

  -- Once the writer has caught up, all that was accepted is written.
  writes-Written :
      (pipe : Pipeline D K) (n : ℕ) (actions : List Action) (times : List ℕ)
      → IsFiling env pipe.service
      → pipe.service.write_queue ≡ []
      → length (accepted_batches env pipe actions) ≤ length times
      → (p : ℕ)
      → Written env
          (of_partition env n p (accepted_batches env pipe actions))
          (sent env.hash n p (trace env pipe (actions ++ map write times)))
  writes-Written pipe n actions times h empty enough p =
      let served = run env pipe actions in
      let first = run-Files env n pipe actions h in
      let files = run-Files env n pipe (actions ++ map write times) h in
      let waits =
        ap length (sym (ap (λ q. q ++ accepted_batches env pipe actions) empty) ∙ first.order) in
      let short : length served.service.write_queue ≤ length times =
        omega (arith, waits, enough, length-append first.done served.service.write_queue) in
      let left : (run env pipe (actions ++ map write times)).service.write_queue ≡ [] =
        ap (λ (y : Pipeline D K). y.service.write_queue) (run-append pipe actions (map write times))
        ∙ run-writes served times served.service.write_queue (run-IsFiling pipe actions h) refl
            short in
      let all : accepted_batches env pipe actions ≡ files.done =
        sym (append-nil (accepted_batches env pipe actions))
        ∙ ap (λ l. accepted_batches env pipe actions ++ l)
            (sym (accepted_batches-writes served times))
        ∙ sym (accepted_batches-append pipe actions (map write times))
        ∙ ap (λ q. q ++ accepted_batches env pipe (actions ++ map write times)) (sym empty)
        ∙ files.order
        ∙ ap (λ l. files.done ++ l) left
        ∙ append-nil files.done in
      subst
        (λ l.
          Written env (of_partition env n p l)
            (sent env.hash n p (trace env pipe (actions ++ map write times))))
        (sym all) (files.messages p)

  -- In file mode, whatever was done before, as many further rounds of the writer, and then as many
  -- polls of a partition, as batches were answered with 200, deliver them: the messages that the
  -- consumer has then processed and committed of the partition are all of its batches that were
  -- answered with 200, in order and once each. A message that was processed when the process died
  -- before its commit is counted when it comes again. The service starts on an empty directory with
  -- at least one partition and is not restarted, there are fewer than 2^64 - 1 actions before the
  -- polls, only existing partitions are polled, the writer is not shut down, no file operation
  -- fails, and a file appears with its whole content.
  pub delivered-accepted_batches_all :
      (limiter : RateLimiter) (producer : K) (path group : Bytes) (n : ℕ) (actions : List Action)
      (times : List ℕ) (k p : ℕ)
      → 0 < n
      → length actions + length times + 1 < 2 ^ 64
      → ConsumesInside n actions
      → p < n
      → length (accepted_batches env (fresh env limiter producer path group n) actions)
        ≤ length times
      → length (accepted_batches env (fresh env limiter producer path group n) actions) ≤ k
      → Written env
          (of_partition env n p
            (accepted_batches env (fresh env limiter producer path group n) actions))
          ((run env
              (fresh env limiter producer path group n)
              (actions ++ (map write times ++ replicate k (consume p)))).delivered
            p)
  delivered-accepted_batches_all limiter producer path group n actions times k p some_partition
        small inside p_inside enough_writes enough_polls =
      subst (Written env (of_partition env n p (accepted_batches env start actions))) seen
        (writes-Written start n actions times filing refl enough_writes p)
    where
      start : Pipeline D K
      start = fresh env limiter producer path group n

      filing : IsFiling env start.service
      filing = fresh-IsFiling env limiter producer path group n

      before : List Action
      before = actions ++ map write times

      polls : List Action
      polls = replicate k (consume p)

      few : length (sent env.hash n p (trace env start before)) ≤ k
      few = omega (
        arith,
        Written-length env (writes-Written start n actions times filing refl enough_writes p),
        length-of_partition env n p (accepted_batches env start actions),
        enough_polls,
      )

      room : length (trace env start before) + 1 < 2 ^ 64
      room = omega (
        arith,
        length-trace env start before,
        length-append actions (map write times),
        length-map times,
        small,
      )

      seen :
          sent env.hash n p (trace env start before)
          ≡ (run env start (actions ++ (map write times ++ polls))).delivered p
      seen =
          sym (
            delivered_all env.hash path group n k p (trace env start before) some_partition room
              (trace-PollsInside env n start before (ConsumesInside-writes n actions times inside))
              p_inside few)
          ∙ ap (λ l. (System.run env.hash (System.fresh path group n) l).delivered p)
              (ap (λ l. trace env start before ++ l)
                  (sym (trace-consumes (run env start before) k p))
                ∙ sym (trace-append start before polls)
                ∙ ap (trace env start) (append_assoc actions (map write times) polls))
          ∙ ap (λ (f : ℕ → List Bytes). f p)
              (sym (
                delivered-trace env limiter producer path group n
                  (actions ++ (map write times ++ polls))))
