-- ===== src/Pipeline/Posts.antt =====
-- What a request does to the service in file mode.
use systems_craft.Prelude.{ℕ, ◌≡◌, refl, sym, inl, inr, true, ◌++◌, append-nil, Bool-cases}
use systems_craft.Metrics.{validate_batch}
use systems_craft.RateLimiter.{allow_request}
use systems_craft.Http.{HttpRequest}
use systems_craft.Ingestion.Service.{
  file_based, Env, Service, queue_metrics_for_async_write, client_of, parsed, handle_metrics_post,
  accept_batch,
}
use systems_craft.Pipeline.{at, answered}

module _ {D K : Type 0} (env : Env D K) where
  -- The service takes batches to the file queue, and its writer runs.
  pub record IsFiling (svc : Service D K) : Type 0 where
    pub mode : svc.queue_mode ≡ file_based
    pub on : svc.writer_running ≡ true

  -- A request leaves the files alone, and its batch joins those that wait if it is accepted.
  pub record Joins (svc after : Service D K) (request : HttpRequest) (now : ℕ) : Type 0 where
    pub filing : IsFiling after
    pub queue : after.file_queue ≡ svc.file_queue
    pub disk : after.disk ≡ svc.disk
    pub waiting : after.write_queue ≡ svc.write_queue ++ answered env svc request now

  pub handle_metrics_post-Joins :
      (svc : Service D K) (request : HttpRequest) (now : ℕ)
      → IsFiling svc
      → Joins svc (handle_metrics_post (at env 0) svc request now).0 request now
  unfolding handle_metrics_post accept_batch queue_metrics_for_async_write
  handle_metrics_post-Joins svc request now h =
      elim (Bool-cases (allow_request svc.rate_limiter (client_of (at env 0) request) now).1) [
        | inl t ↦
            elim (Bool-cases (validate_batch env.ops (parsed (at env 0) request.body)).valid) [
              | inl v ↦
                  simp (t, v, h.mode)
                    (record {
                      filing = record { mode = refl; on = h.on };
                      queue = refl;
                      disk = refl;
                      waiting = rw (t, v) refl;
                    })
              | inr v ↦
                  rw (t, v)
                    (record {
                      filing = record { mode = h.mode; on = h.on };
                      queue = refl;
                      disk = refl;
                      waiting = rw (t, v) (sym (append-nil svc.write_queue));
                    })
            ]
        | inr f ↦ rw f (record {
          filing = record { mode = h.mode; on = h.on };
          queue = refl;
          disk = refl;
          waiting = rw f (sym (append-nil svc.write_queue));
        })
      ]
