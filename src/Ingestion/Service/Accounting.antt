-- ===== src/Ingestion/Service/Accounting.antt =====
-- IngestionService::handle_metrics_post: every request is answered and counted in exactly one way.
use systems_craft.Prelude.{
  ℕ, ◌+◌, ◌^◌, ◌<◌, ◌≡◌, refl, inl, inr, Bool, [], ◌∷◌, ◌++◌, arith, Bool-cases, ◌==◌,
  if◌then◌else◌, length,
}
use systems_craft.Metrics.{validate_batch}
use systems_craft.RateLimiter.{allow_request}
use systems_craft.Http.{HttpRequest, HttpResponse}
use systems_craft.Ingestion.Service.{
  file_based, Env, Service, queue_metrics_for_async_write, client_of, parsed, accept_batch,
  handle_metrics_post,
}

module _ {D K : Type 0} (env : Env D K) where
  -- What the answer should be.
  abbrev pub expected_status : Service D K → HttpRequest → ℕ → ℕ
  expected_status svc request now =
      if (allow_request svc.rate_limiter (client_of env request) now).1
      then (if (validate_batch env.ops (parsed env request.body)).valid then 200 else 400)
      else 429

  -- `n` for an answer with this status, else 0.
  abbrev pub when : ℕ → ℕ → ℕ → ℕ
  when status s n = if status == s then n else 0

  -- The request is answered with `status` and leaves the service `after`: the counter of that
  -- status goes up by one, the others stay; the metrics of an accepted batch are counted, and the
  -- batch joins the write queue behind what waits there. The rate limiter has recorded the request.
  -- Files are not touched.
  pub record Accounts (svc : Service D K) (request : HttpRequest) (now : ℕ) (after : Service D K)
      (answer : HttpResponse) (status : ℕ) : Type 0 where
    pub answered : answer.status_code ≡ status
    pub limited : after.rate_limited ≡ svc.rate_limited + when status 429 1
    pub refused : after.validation_errors ≡ svc.validation_errors + when status 400 1
    pub processed : after.batches_processed ≡ svc.batches_processed + when status 200 1
    pub received :
        after.metrics_received
        ≡ svc.metrics_received + when status 200 (length (parsed env request.body))
    pub queued : after.write_queue ≡ (
        if status == 200
        then svc.write_queue ++ (parsed env request.body, client_of env request) ∷ []
        else svc.write_queue)
    pub limiter :
        after.rate_limiter ≡ (allow_request svc.rate_limiter (client_of env request) now).0
    pub disk_same : after.disk ≡ svc.disk

  -- In file mode the status is 429 for a client over its limit, 400 for a batch that does not pass
  -- validation, and else 200, and the request is accounted for under it, while the counters have
  -- room.
  pub handle_metrics_post-Accounts :
      (svc : Service D K) (request : HttpRequest) (now : ℕ)
      → svc.queue_mode ≡ file_based
      → svc.rate_limited + 1 < 2 ^ 64
      → svc.validation_errors + 1 < 2 ^ 64
      → svc.batches_processed + 1 < 2 ^ 64
      → svc.metrics_received + length (parsed env request.body) < 2 ^ 64
      → Accounts svc request now
          (handle_metrics_post env svc request now).0
          (handle_metrics_post env svc request now).1
          (expected_status svc request now)
  unfolding handle_metrics_post accept_batch queue_metrics_for_async_write
  handle_metrics_post-Accounts svc request now mode a b c d = elim (Bool-cases admitted) [
    | inl t ↦ rw t (elim (Bool-cases valid) [
      | inl v ↦
          rw (v, mode)
            (record {
              answered = refl;
              limited = omega arith;
              refused = omega arith;
              processed = omega arith;
              received = omega arith;
              queued = refl;
              limiter = refl;
              disk_same = refl;
            })
      | inr v ↦ rw v (record {
        answered = refl;
        limited = omega arith;
        refused = omega arith;
        processed = omega arith;
        received = omega arith;
        queued = refl;
        limiter = refl;
        disk_same = refl;
      })
    ])
    | inr f ↦ rw f (record {
      answered = refl;
      limited = omega arith;
      refused = omega arith;
      processed = omega arith;
      received = omega arith;
      queued = refl;
      limiter = refl;
      disk_same = refl;
    })
  ]
    where
      admitted : Bool
      admitted = (allow_request svc.rate_limiter (client_of env request) now).1

      valid : Bool
      valid = (validate_batch env.ops (parsed env request.body)).valid
