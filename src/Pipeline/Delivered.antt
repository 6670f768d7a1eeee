-- ===== src/Pipeline/Delivered.antt =====
-- From the HTTP handler to the consumer: what becomes of the batches that are answered with 200.
use mathlib.Core.Path.{subst}
use systems_craft.Prelude.{
  ℕ, ◌+◌, ◌^◌, ◌≤◌, ◌<◌, ◌≡◌, refl, sym, ap, ◌∙◌, inl, inr, List, [], ◌∷◌, ◌++◌, arith, Bytes,
  length, length-append, List-cases, Bool-cases, append_assoc,
}
use systems_craft.RateLimiter.{RateLimiter}
use systems_craft.FileQueue.Delivery.System
use systems_craft.FileQueue.Delivery.System.{Event, sent, poll, PollsInside}
use systems_craft.FileQueue.Delivery.System.Order.{delivered_front}
use systems_craft.Ingestion.Service.{Env, Service}
use systems_craft.Pipeline.Posts.{IsFiling}
use systems_craft.Pipeline.Simulates.{view, view-run}
use systems_craft.Pipeline.Accepted.{of_partition-append, Written-front, run-Files}
use systems_craft.Pipeline.{
  Pipeline, Action, post, write, consume, restart, step, run, accepted_batches, written, trace,
  Item, of_partition, Written, fresh,
}

-- The consumer has a thread for each partition that exists, and no others.
abbrev pub ConsumesInside : ℕ → List Action → Type 0
ConsumesInside n [] = Unit
ConsumesInside n (consume p ∷ actions) = (p < n) × ConsumesInside n actions
ConsumesInside n (_ ∷ actions) = ConsumesInside n actions

module _ {D K : Type 0} (env : Env D K) where
  written-PollsInside :
      (n time : ℕ) (svc : Service D K) (events : List Event)
      → PollsInside n events
      → PollsInside n (written env svc time ++ events)
  written-PollsInside n time svc events h = elim (Bool-cases svc.writer_running) [
    | inl on ↦ elim (List-cases svc.write_queue) [
      | inl e ↦ rw (on, e) h
      | inr (item, rest, e) ↦ rw (on, e) h
    ]
    | inr off ↦ rw off h
  ]

  pub trace-PollsInside :
      (n : ℕ) (pipe : Pipeline D K) (actions : List Action)
      → ConsumesInside n actions
      → PollsInside n (trace env pipe actions)
  unfolding trace
  trace-PollsInside n pipe [] h = tt
  trace-PollsInside n pipe (post request now ∷ actions) h =
      trace-PollsInside n (step env pipe (post request now)) actions h
  trace-PollsInside n pipe (write time ∷ actions) h =
      written-PollsInside n time pipe.service (trace env (step env pipe (write time)) actions)
        (trace-PollsInside n (step env pipe (write time)) actions h)
  trace-PollsInside n pipe (consume p ∷ actions) h =
      (h.0, trace-PollsInside n (step env pipe (consume p)) actions h.1)
  trace-PollsInside n pipe (restart ∷ actions) h =
      trace-PollsInside n (step env pipe restart) actions h

  length-written : (time : ℕ) (svc : Service D K) → length (written env svc time) ≤ 1
  length-written time svc = elim (Bool-cases svc.writer_running) [
    | inl on ↦ elim (List-cases svc.write_queue) [
      | inl e ↦ rw (on, e) (omega arith)
      | inr (item, rest, e) ↦ rw (on, e) (omega arith)
    ]
    | inr off ↦ rw off (omega arith)
  ]

  pub length-trace :
      (pipe : Pipeline D K) (actions : List Action)
      → length (trace env pipe actions) ≤ length actions
  unfolding trace
  length-trace pipe [] = omega arith
  length-trace pipe (post request now ∷ actions) =
      omega (arith, length-trace (step env pipe (post request now)) actions)
  length-trace pipe (write time ∷ actions) = omega (
    arith,
    length-trace (step env pipe (write time)) actions,
    length-written time pipe.service,
    length-append (written env pipe.service time) (trace env (step env pipe (write time)) actions),
  )
  length-trace pipe (consume p ∷ actions) =
      omega (arith, length-trace (step env pipe (consume p)) actions)
  length-trace pipe (restart ∷ actions) =
      omega (arith, length-trace (step env pipe restart) actions)

  fresh-view :
      (limiter : RateLimiter) (producer : K) (path group : Bytes) (n : ℕ)
      → view env (fresh env limiter producer path group n) ≡ System.fresh path group n
  unfolding System.fresh
  fresh-view limiter producer path group n = refl

  pub fresh-IsFiling :
      (limiter : RateLimiter) (producer : K) (path group : Bytes) (n : ℕ)
      → IsFiling env (fresh env limiter producer path group n).service
  fresh-IsFiling limiter producer path group n = record { mode = refl; on = refl }

  -- The consumer's part of a run is that of the file queue.
  pub delivered-trace :
      (limiter : RateLimiter) (producer : K) (path group : Bytes) (n : ℕ) (actions : List Action)
      → (run env (fresh env limiter producer path group n) actions).delivered
        ≡ (System.run env.hash
            (System.fresh path group n)
            (trace env (fresh env limiter producer path group n) actions)).delivered
  delivered-trace limiter producer path group n actions =
      let start = fresh env limiter producer path group n in
      ap (λ (s : System.System). s.delivered)
        (view-run env start actions (fresh-IsFiling limiter producer path group n)
          ∙ ap (λ s. System.run env.hash s (trace env start actions))
              (fresh-view limiter producer path group n))

  -- In file mode, whatever the order of requests, writer rounds, polls and restarts of the consumer:
  -- what the consumer has processed and committed of a partition is, in order and once each, the
  -- messages of the first of the batches for that partition that were answered with 200. A message
  -- that was processed when the process died before its commit is not counted; it comes again. The
  -- service starts on an empty directory with at least one partition and is not restarted, fewer
  -- than 2^64 - 1 actions are taken, only existing partitions are polled, the writer is not shut
  -- down, no file operation fails, and a file appears with its whole content.
  pub delivered-accepted_batches :
      (limiter : RateLimiter) (producer : K) (path group : Bytes) (n : ℕ) (actions : List Action)
      → 0 < n
      → length actions + 1 < 2 ^ 64
      → ConsumesInside n actions
      → (p : ℕ)
      → (front : List (Item D)) × (rest : List (Item D)) × (of_partition env n p
            (accepted_batches env (fresh env limiter producer path group n) actions)
          ≡ front ++ rest)
        × Written env front
            ((run env (fresh env limiter producer path group n) actions).delivered p)
  delivered-accepted_batches limiter producer path group n actions some_partition small inside p =
      let start = fresh env limiter producer path group n in
      let events = trace env start actions in
      let files = run-Files env n start actions (fresh-IsFiling limiter producer path group n) in
      let (behind, e) =
        delivered_front env.hash path group n events some_partition
          (omega (arith, length-trace start actions)) (trace-PollsInside n start actions inside)
          p in
      let seen = (run env start actions).delivered p in
      let same : sent env.hash n p events ≡ seen ++ behind =
        e
        ∙ ap (λ (f : ℕ → List Bytes). f p ++ behind)
            (sym (delivered-trace limiter producer path group n actions)) in
      let (front, more, g, w) =
        Written-front env seen behind
          (subst (Written env (of_partition env n p files.done)) same (files.messages p)) in
      let left = (run env start actions).service.write_queue in
      (
        front,
        more ++ of_partition env n p left,
        ap (of_partition env n p) files.order
            ∙ of_partition-append env n p files.done left
            ∙ ap (λ l. l ++ of_partition env n p left) g
            ∙ append_assoc front more (of_partition env n p left),
        w,
      )
