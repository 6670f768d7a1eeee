-- ===== src/Clients/Lost.antt =====
-- load_test_persistent.cpp: what is counted when the connection fails on the way.
use systems_craft.Prelude.{
  ℕ, zero, suc, ◌+◌, ◌^◌, ◌<◌, ◌≡◌, refl, inl, inr, Bool, true, false, ◌&&◌, List, [], ◌∷◌, ◌++◌,
  arith, Bytes, codes, ltb, length, to_string, Bool-cases, if◌then◌else◌,
}
use systems_craft.Clients.Persistent.{
  Exchange, record_failures, request_loop, persistent_client_worker,
}
use systems_craft.Clients.Counted.{
  Room, Adds, Room-record_request, bounded, success-Adds, failure-Adds, nothing-Adds,
}
use systems_craft.Clients.{Stats, record_request, Draw}

record_failures-Adds :
    (n : ℕ) (stats : Stats)
    → Room stats n
    → stats.total_latency < 2 ^ 64
    → Adds stats (record_failures n stats) 0 n 0
unfolding record_failures
record_failures-Adds zero stats r h = nothing-Adds stats h
record_failures-Adds (suc n) stats r h =
    failure-Adds stats 0 n 0 n 0 (record_failures n (record_request stats false 0)) r (
      record_failures-Adds n (record_request stats false 0) (Room-record_request stats false 0 n r)
        (bounded stats false 0))

abbrev pub answered : Exchange → Bool
answered x = x.sends && ltb 0 x.received

module _ {D : Type 0} (print : D → Bytes) where
  -- The requests before the first that fails, and the others.
  pub leading : List (Draw D × Exchange) → ℕ
  leading [] = 0
  leading ((draw, x) ∷ rounds) = if answered x then suc (leading rounds) else 0

  unfoldable pub lost : List (Draw D × Exchange) → ℕ
  lost [] = 0
  lost ((draw, x) ∷ rounds) = if answered x then lost rounds else suc (length rounds)

  -- The latencies up to the first that fails.
  pub waited : List (Draw D × Exchange) → ℕ
  waited [] = 0
  waited ((draw, x) ∷ rounds) = x.latency + (if answered x then waited rounds else 0)

  request_loop-Adds :
      (client_name : Bytes) (rounds : List (Draw D × Exchange)) (stats : Stats)
      → Room stats (length rounds)
      → stats.total_latency < 2 ^ 64
      → Adds stats
          (request_loop print client_name rounds stats).1
          (leading rounds)
          (lost rounds)
          (waited rounds)
  unfolding request_loop leading lost waited
  request_loop-Adds client_name [] stats r h = nothing-Adds stats h
  request_loop-Adds client_name ((draw, x) ∷ rounds) stats r h =
      let ih =
        request_loop-Adds client_name rounds (record_request stats true x.latency)
          (Room-record_request stats true x.latency (length rounds) r)
          (bounded stats true x.latency) in
      let failed = failure-Adds stats x.latency (length rounds) 0 (length rounds) 0 _ r (
        record_failures-Adds (length rounds) (record_request stats false x.latency)
          (Room-record_request stats false x.latency (length rounds) r)
          (bounded stats false x.latency)) in
      elim (Bool-cases x.sends) [
        | inl a ↦ elim (Bool-cases (ltb 0 x.received)) [
          | inl b ↦ rw (a, b) (success-Adds stats x.latency (length rounds) _ _ _ _ r ih)
          | inr b ↦ rw (a, b) failed
        ]
        | inr a ↦ rw a failed
      ]

  leading-lost : (rounds : List (Draw D × Exchange)) → leading rounds + lost rounds ≡ length rounds
  unfolding leading lost
  leading-lost [] = refl
  leading-lost ((draw, x) ∷ rounds) = elim (Bool-cases (answered x)) [
    | inl t ↦ rw t (omega (arith, leading-lost rounds))
    | inr f ↦ rw f (omega arith)
  ]

  -- A client of load_test_persistent.cpp counts as many requests as it was to make, whatever fails:
  -- those before the first failure as successful, that one and all behind it as failed, and all of
  -- them as failed when there is no connection. The latencies up to the first failure are added.
  -- The counters have room for the requests.
  pub persistent_client_worker-Adds :
      (opens connects : Bool) (client_id : ℕ) (rounds : List (Draw D × Exchange)) (stats : Stats)
      → Room stats (length rounds)
      → stats.total_latency < 2 ^ 64
      → (leading rounds + lost rounds ≡ length rounds)
        × Adds stats
            (persistent_client_worker print opens connects client_id rounds stats).1
            (if opens && connects then leading rounds else 0)
            (if opens && connects then lost rounds else length rounds)
            (if opens && connects then waited rounds else 0)
  unfolding persistent_client_worker
  persistent_client_worker-Adds true true client_id rounds stats r h = (
    leading-lost rounds,
    request_loop-Adds (codes "persistent_client_" ++ to_string client_id) rounds stats r h,
  )
  persistent_client_worker-Adds true false client_id rounds stats r h =
      (leading-lost rounds, record_failures-Adds (length rounds) stats r h)
  persistent_client_worker-Adds false connects client_id rounds stats r h =
      (leading-lost rounds, record_failures-Adds (length rounds) stats r h)
