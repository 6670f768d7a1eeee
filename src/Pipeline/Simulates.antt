-- ===== src/Pipeline/Simulates.antt =====
-- The pipeline seen from the file queue: each step is a step of producer and consumer, or none.
use systems_craft.Prelude.{ℕ, ◌≡◌, refl, sym, ap, ◌∙◌, inl, inr, List, [], ◌∷◌, List-cases}
use systems_craft.Http.{HttpRequest}
use systems_craft.FileQueue.Delivery.System
use systems_craft.FileQueue.Delivery.System.{
  System, Event, send, poll, restart_consumer, PollsInside, allowed,
}
use systems_craft.FileQueue.Delivery.System.Order.{run-append}
use systems_craft.Ingestion.Service.{Env, Service, store_metrics_to_queue, writer_round}
use systems_craft.Pipeline.Posts.{IsFiling, handle_metrics_post-Joins}
use systems_craft.Pipeline.{
  Pipeline, Action, post, write, consume, restart, at, step, run, written, trace, Item,
}

module _ {D K : Type 0} (env : Env D K) where
  abbrev pub view : Pipeline D K → System
  view pipe = record {
    queue = pipe.service.file_queue;
    disk = pipe.service.disk;
    consumer = pipe.consumer;
    delivered = pipe.delivered;
  }

  -- The service still files what it accepts, and this is what waits.
  pub record Waits (svc : Service D K) (items : List (Item D)) : Type 0 where
    pub filing : IsFiling env svc
    pub waiting : svc.write_queue ≡ items

  -- A round of the writer takes the oldest batch that waits.
  pub writer_round-Waits :
      (svc : Service D K) (time : ℕ) (item : Item D) (rest : List (Item D))
      → IsFiling env svc
      → svc.write_queue ≡ item ∷ rest
      → Waits (writer_round (at env time) svc) rest
  unfolding writer_round store_metrics_to_queue
  writer_round-Waits svc time item rest h e =
      rw (h.on, e, h.mode) (record { filing = record { mode = h.mode; on = h.on }; waiting = refl })

  pub writer_round-idle :
      (svc : Service D K) (time : ℕ)
      → IsFiling env svc
      → svc.write_queue ≡ []
      → Waits (writer_round (at env time) svc) []
  unfolding writer_round
  writer_round-idle svc time h e = rw (h.on, e) (record { filing = h; waiting = e })

  view-write :
      (pipe : Pipeline D K) (time : ℕ)
      → IsFiling env pipe.service
      → view (step env pipe (write time))
        ≡ System.run env.hash (view pipe) (written env pipe.service time)
  unfolding step writer_round store_metrics_to_queue System.run System.step
  view-write pipe time h = elim (List-cases pipe.service.write_queue) [
    | inl e ↦ rw (h.on, e) refl
    | inr (item, rest, e) ↦ rw (h.on, e, h.mode) refl
  ]

  view-post :
      (pipe : Pipeline D K) (request : HttpRequest) (now : ℕ)
      → IsFiling env pipe.service
      → view (step env pipe (post request now)) ≡ view pipe
  unfolding step
  view-post pipe request now h =
      let j = handle_metrics_post-Joins env pipe.service request now h in rw (j.queue, j.disk) refl

  view-consume :
      (pipe : Pipeline D K) (p : ℕ)
      → view (step env pipe (consume p)) ≡ System.step env.hash (view pipe) (poll p)
  unfolding step System.step
  view-consume pipe p = refl

  view-restart :
      (pipe : Pipeline D K)
      → view (step env pipe restart) ≡ System.step env.hash (view pipe) restart_consumer
  unfolding step System.step
  view-restart pipe = refl

  pub step-IsFiling :
      (pipe : Pipeline D K) (a : Action)
      → IsFiling env pipe.service
      → IsFiling env (step env pipe a).service
  unfolding step
  step-IsFiling pipe (post request now) h =
      (handle_metrics_post-Joins env pipe.service request now h).filing
  step-IsFiling pipe (write time) h = elim (List-cases pipe.service.write_queue) [
    | inl e ↦ (writer_round-idle pipe.service time h e).filing
    | inr (item, rest, e) ↦ (writer_round-Waits pipe.service time item rest h e).filing
  ]
  step-IsFiling pipe (consume p) h = record { mode = h.mode; on = h.on }
  step-IsFiling pipe restart h = h

  -- At the file queue the pipeline runs as producer and consumer do.
  pub view-run :
      (pipe : Pipeline D K) (actions : List Action)
      → IsFiling env pipe.service
      → view (run env pipe actions) ≡ System.run env.hash (view pipe) (trace env pipe actions)
  unfolding run trace System.run
  view-run pipe [] h = refl
  view-run pipe (post request now ∷ actions) h =
      view-run (step env pipe (post request now)) actions (step-IsFiling pipe (post request now) h)
      ∙ ap (λ s. System.run env.hash s (trace env (step env pipe (post request now)) actions))
          (view-post pipe request now h)
  view-run pipe (write time ∷ actions) h =
      view-run (step env pipe (write time)) actions (step-IsFiling pipe (write time) h)
      ∙ ap (λ s. System.run env.hash s (trace env (step env pipe (write time)) actions))
          (view-write pipe time h)
      ∙ sym (
          run-append env.hash (written env pipe.service time)
            (trace env (step env pipe (write time)) actions) (view pipe))
  view-run pipe (consume p ∷ actions) h =
      view-run (step env pipe (consume p)) actions (step-IsFiling pipe (consume p) h)
      ∙ ap (λ s. System.run env.hash s (trace env (step env pipe (consume p)) actions))
          (view-consume pipe p)
  view-run pipe (restart ∷ actions) h =
      view-run (step env pipe restart) actions (step-IsFiling pipe restart h)
      ∙ ap (λ s. System.run env.hash s (trace env (step env pipe restart) actions))
          (view-restart pipe)
