-- ===== src/Clients/Counted.antt =====
-- The statistics of both load testers: every request is counted once, sent or not.
use systems_craft.Prelude.{
  ℕ, suc, ◌+◌, ◌%◌, ◌^◌, ◌<◌, ◌≡◌, refl, ap, ◌∙◌, inl, inr, Bool, true, false, ◌&&◌, List, [], ◌∷◌,
  ◌++◌, arith, Bytes, codes, ltb, length, to_string, Bool-cases, if◌then◌else◌, map,
}
use systems_craft.Clients.Load.{Attempt, send_metric_request, client_loop, client_worker}
use systems_craft.Clients.Load
use systems_craft.Clients.{Stats, record_request, Draw}

-- `n` more requests fit into the counters.
pub record Room (stats : Stats) (n : ℕ) : Type 0 where
  pub total : stats.total_requests + n < 2 ^ 32
  pub successful : stats.successful_requests + n < 2 ^ 32
  pub failed : stats.failed_requests + n < 2 ^ 32

-- From `before` to `after`, `ok` requests succeeded and `bad` failed, and took `latency` together.
pub record Adds (before after : Stats) (ok bad latency : ℕ) : Type 0 where
  pub total : after.total_requests ≡ before.total_requests + (ok + bad)
  pub successful : after.successful_requests ≡ before.successful_requests + ok
  pub failed : after.failed_requests ≡ before.failed_requests + bad
  pub elapsed : after.total_latency ≡ (before.total_latency + latency) % 2 ^ 64

pub Room-record_request :
    (stats : Stats) (success : Bool) (latency n : ℕ)
    → Room stats (suc n)
    → Room (record_request stats success latency) n
unfolding record_request
Room-record_request stats true latency n r = record {
  total = omega (arith, r.total);
  successful = omega (arith, r.successful);
  failed = omega (arith, r.failed);
}
Room-record_request stats false latency n r = record {
  total = omega (arith, r.total);
  successful = omega (arith, r.successful);
  failed = omega (arith, r.failed);
}

-- The atomic sum of the latencies stays below 2^64.
pub bounded :
    (stats : Stats) (success : Bool) (latency : ℕ)
    → (record_request stats success latency).total_latency < 2 ^ 64
unfolding record_request
bounded stats success latency = omega arith

pub success-Adds :
    (stats : Stats) (latency n ok bad more : ℕ) (after : Stats)
    → Room stats (suc n)
    → Adds (record_request stats true latency) after ok bad more
    → Adds stats after (suc ok) bad (latency + more)
unfolding record_request
success-Adds stats latency n ok bad more after r rest = record {
  total = omega (arith, r.total, rest.total);
  successful = omega (arith, r.successful, rest.successful);
  failed = rest.failed;
  elapsed = omega (arith, rest.elapsed);
}

pub failure-Adds :
    (stats : Stats) (latency n ok bad more : ℕ) (after : Stats)
    → Room stats (suc n)
    → Adds (record_request stats false latency) after ok bad more
    → Adds stats after ok (suc bad) (latency + more)
unfolding record_request
failure-Adds stats latency n ok bad more after r rest = record {
  total = omega (arith, r.total, rest.total);
  successful = rest.successful;
  failed = omega (arith, r.failed, rest.failed);
  elapsed = omega (arith, rest.elapsed);
}

pub nothing-Adds : (stats : Stats) → stats.total_latency < 2 ^ 64 → Adds stats stats 0 0 0
nothing-Adds stats h = record {
  total = omega arith;
  successful = omega arith;
  failed = omega arith;
  elapsed = omega (arith, h);
}

counted-Adds :
    (stats : Stats) (success : Bool) (latency n ok bad more : ℕ) (after : Stats)
    → Room stats (suc n)
    → Adds (record_request stats success latency) after ok bad more
    → Adds stats after
        (if success then suc ok else ok)
        (if success then bad else suc bad)
        (latency + more)
counted-Adds stats true latency n ok bad more after r rest =
    success-Adds stats latency n ok bad more after r rest
counted-Adds stats false latency n ok bad more after r rest =
    failure-Adds stats latency n ok bad more after r rest

-- The request went out and an answer came back.
abbrev pub got : Attempt → Bool
got a = a.opens && (a.connects && (a.sends && ltb 0 a.received))

module _ {D : Type 0} (print : D → Bytes) where
  pub succeeded : List (Draw D × Attempt) → ℕ
  succeeded [] = 0
  succeeded ((draw, a) ∷ rounds) = if got a then suc (succeeded rounds) else succeeded rounds

  pub failures : List (Draw D × Attempt) → ℕ
  failures [] = 0
  failures ((draw, a) ∷ rounds) = if got a then failures rounds else suc (failures rounds)

  pub measured : List (Draw D × Attempt) → ℕ
  measured [] = 0
  measured ((draw, a) ∷ rounds) = a.latency + measured rounds

  send_metric_request-got :
      (a : Attempt) (stats : Stats)
      → send_metric_request a stats ≡ (got a, record_request stats (got a) a.latency)
  unfolding send_metric_request
  send_metric_request-got a stats = elim (Bool-cases a.opens) [
    | inl o ↦ elim (Bool-cases a.connects) [
      | inl c ↦ elim (Bool-cases a.sends) [ inl d ↦ rw (o, c, d) refl | inr d ↦ rw (o, c, d) refl ]
      | inr c ↦ rw (o, c) refl
    ]
    | inr o ↦ rw o refl
  ]

  client_loop-Adds :
      (client_name : Bytes) (rounds : List (Draw D × Attempt)) (stats : Stats)
      → Room stats (length rounds)
      → stats.total_latency < 2 ^ 64
      → ((client_loop print client_name rounds stats).0
          ≡ map (λ r. Load.generate_metrics print client_name r.0) rounds)
        × Adds stats
            (client_loop print client_name rounds stats).1
            (succeeded rounds)
            (failures rounds)
            (measured rounds)
  unfolding client_loop succeeded failures measured
  client_loop-Adds client_name [] stats r h = (refl, nothing-Adds stats h)
  client_loop-Adds client_name ((draw, a) ∷ rounds) stats r h =
      let next = record_request stats (got a) a.latency in
      let (same, rest) =
        client_loop-Adds client_name rounds next
          (Room-record_request stats (got a) a.latency (length rounds) r)
          (bounded stats (got a) a.latency) in
      rw (send_metric_request-got a stats) (
        ap (λ l. Load.generate_metrics print client_name draw ∷ l) same,
        counted-Adds stats (got a) a.latency (length rounds) (succeeded rounds) (failures rounds)
            (measured rounds) (client_loop print client_name rounds next).1 r rest,
      )

  -- A client of load_test.cpp generates one request for each of its rounds and counts each of them
  -- once: as successful exactly when the connection was made, the request sent and an answer
  -- received, else as failed, and its latency is added. The counters have room for them.
  pub client_worker-Adds :
      (client_id : ℕ) (rounds : List (Draw D × Attempt)) (stats : Stats)
      → Room stats (length rounds)
      → stats.total_latency < 2 ^ 64
      → (length (client_worker print client_id rounds stats).0 ≡ length rounds)
        × Adds stats
            (client_worker print client_id rounds stats).1
            (succeeded rounds)
            (failures rounds)
            (measured rounds)
  unfolding client_worker
  client_worker-Adds client_id rounds stats r h =
      let (same, adds) =
        client_loop-Adds (codes "load_client_" ++ to_string client_id) rounds stats r h in
      (ap length same ∙ length-map rounds, adds)
    where
      length-map :
          (l : List (Draw D × Attempt))
          → length (
              map
                (λ x. Load.generate_metrics print (codes "load_client_" ++ to_string client_id) x.0)
                l)
            ≡ length l
      length-map [] = refl
      length-map (x ∷ l) = ap suc (length-map l)
