-- ===== src/Pipeline/Accepted.antt =====
-- What was accepted and what was written: in the order of the requests, and none between.
use mathlib.Core.Path.{subst}
use systems_craft.Prelude.{
  ℕ, suc, ◌%◌, ◌≤◌, ◌≡◌, refl, sym, ap, ◌∙◌, inl, inr, List, [], ◌∷◌, ◌++◌, arith, Bytes, ◌==◌,
  length, List-cases, Bool-cases, append_assoc, append-nil,
}
use systems_craft.FileQueue.Delivery.System.{send, sent, Event}
use systems_craft.Ingestion.Service.{Env, Service, serialize_metrics_batch_to_json, writer_round}
use systems_craft.Pipeline.Posts.{IsFiling, handle_metrics_post-Joins}
use systems_craft.Pipeline.Simulates.{writer_round-Waits, writer_round-idle, step-IsFiling}
use systems_craft.Pipeline.{
  Pipeline, Action, post, write, consume, restart, at, step, run, answered, accepted_batches,
  written, trace, Item, of_partition, Written, nil, cons,
}

module _ {D K : Type 0} (env : Env D K) where
  pub of_partition-append :
      (n p : ℕ) (items more : List (Item D))
      → of_partition env n p (items ++ more)
        ≡ of_partition env n p items ++ of_partition env n p more
  unfolding of_partition
  of_partition-append n p [] more = refl
  of_partition-append n p (item ∷ items) more = elim (Bool-cases (env.hash item.1 % n == p)) [
    | inl t ↦ rw t (ap (λ l. item ∷ l) (of_partition-append n p items more))
    | inr f ↦ rw f (of_partition-append n p items more)
  ]

  pub length-of_partition :
      (n p : ℕ) (items : List (Item D)) → length (of_partition env n p items) ≤ length items
  unfolding of_partition
  length-of_partition n p [] = omega arith
  length-of_partition n p (item ∷ items) = ground (arith, length-of_partition n p items)

  pub Written-length :
      {items : List (Item D)} {messages : List Bytes}
      → Written env items messages
      → length messages ≡ length items
  Written-length nil = refl
  Written-length (cons time w) = ap suc (Written-length w)

  -- The front of the messages is the front of the batches.
  pub Written-front :
      (a b : List Bytes) {items : List (Item D)}
      → Written env items (a ++ b)
      → (front : List (Item D)) × (rest : List (Item D)) × (items ≡ front ++ rest)
        × Written env front a
  Written-front [] b {items} w = ([], items, refl, nil)
  Written-front (m ∷ a) b (cons {batch} {client_id} time w) =
      let (front, rest, e, v) = Written-front a b w in
      ((batch, client_id) ∷ front, rest, ap (λ l. (batch, client_id) ∷ l) e, cons time v)

  -- The batches in `done` were written as the messages that `events` send, and `left` waits.
  pub record Files (n : ℕ) (incoming left : List (Item D)) (events : List Event) : Type 0 where
    pub done : List (Item D)
    pub order : incoming ≡ done ++ left
    pub messages : (p : ℕ) → Written env (of_partition env n p done) (sent env.hash n p events)

  Files-cons :
      (n time : ℕ) (item : Item D) {incoming left : List (Item D)} (events : List Event)
      → Files n incoming left events
      → Files n
          (item ∷ incoming)
          left
          (send item.1 (serialize_metrics_batch_to_json (at env time) item.0) ∷ events)
  unfolding of_partition sent
  Files-cons n time item events f = record {
    done = item ∷ f.done;
    order = ap (λ l. item ∷ l) f.order;
    messages = λ p. elim (Bool-cases (env.hash item.1 % n == p)) [
      | inl t ↦ rw t (cons time (f.messages p))
      | inr e ↦ rw e (f.messages p)
    ];
  }

  Files-write :
      (n time : ℕ) (svc : Service D K) (incoming left : List (Item D)) (events : List Event)
      → IsFiling env svc
      → Files n ((writer_round (at env time) svc).write_queue ++ incoming) left events
      → Files n (svc.write_queue ++ incoming) left (written env svc time ++ events)
  Files-write n time svc incoming left events h f = elim (List-cases svc.write_queue) [
    | inl e ↦
        rw (h.on, e)
          (subst (λ q. Files n (q ++ incoming) left events)
            (writer_round-idle env svc time h e).waiting f)
    | inr (item, rest, e) ↦
        rw (h.on, e)
          (Files-cons n time item events (
            subst (λ q. Files n (q ++ incoming) left events)
              (writer_round-Waits env svc time item rest h e).waiting f))
  ]

  pub run-Files :
      (n : ℕ) (pipe : Pipeline D K) (actions : List Action)
      → IsFiling env pipe.service
      → Files n
          (pipe.service.write_queue ++ accepted_batches env pipe actions)
          (run env pipe actions).service.write_queue
          (trace env pipe actions)
  unfolding run step accepted_batches trace sent of_partition
  run-Files n pipe [] h = record { done = []; order = append-nil _; messages = λ p. nil }
  run-Files n pipe (post request now ∷ actions) h =
      let next = step env pipe (post request now) in
      let ih = run-Files n next actions (step-IsFiling env pipe (post request now) h) in
      let joined : next.service.write_queue
          ≡ pipe.service.write_queue ++ answered env pipe.service request now =
        (handle_metrics_post-Joins env pipe.service request now h).waiting in
      record {
        done = ih.done;
        order =
            sym (
              append_assoc pipe.service.write_queue (answered env pipe.service request now)
                (accepted_batches env next actions))
            ∙ ap (λ q. q ++ accepted_batches env next actions) (sym joined)
            ∙ ih.order;
        messages = ih.messages;
      }
  run-Files n pipe (write time ∷ actions) h =
      let next = step env pipe (write time) in
      Files-write n time pipe.service (accepted_batches env next actions)
        (run env next actions).service.write_queue (trace env next actions) h
        (run-Files n next actions (step-IsFiling env pipe (write time) h))
  run-Files n pipe (consume p ∷ actions) h =
      let next = step env pipe (consume p) in
      let ih = run-Files n next actions (step-IsFiling env pipe (consume p) h) in
      record { done = ih.done; order = ih.order; messages = ih.messages }
  run-Files n pipe (restart ∷ actions) h =
      let next = step env pipe restart in
      let ih = run-Files n next actions (step-IsFiling env pipe restart h) in
      record { done = ih.done; order = ih.order; messages = ih.messages }
