-- ===== src/RateLimiter/Flush.antt =====
-- RateLimiter::flush_metrics over the whole map of clients, and what allow_request records for it.
use systems_craft.Prelude.{
  ℕ, ◌+◌, ◌<◌, ◌^◌, ◌≡◌, ◌≢◌, refl, inl, inr, List, [], ◌∷◌, ◌++◌, map, none, some, arith, Bytes,
  beq, beq_iff, beq_ne, beq_refl, lookup, insert, lookup-insert, if◌then◌else◌, length, All,
  Option-cases, Bool-cases,
}
use systems_craft.RateLimiter.{
  RateLimiter, MetricEvent, ClientMetrics, Sent, buffer_size, metrics_of, allow_request,
  flush_client, send_to_monitoring, flush_ids, flush_metrics,
}
use systems_craft.RateLimiter.Ring.{Holds, write_event-Holds, flush_client-Holds, fresh-Holds}

abbrev Distinct : List Bytes → Type 0
Distinct [] = Unit
Distinct (c ∷ ids) = All (λ j. c ≢ j) ids × Distinct ids

abbrev pub ids_of {ℓ} : {V : Type ℓ} → List (Bytes × V) → List Bytes
ids_of m = map (λ e. e.0) m

-- The map of clients has the unreported events `pending` of every client in its buffer.
pub record Tracks (clients : List (Bytes × ClientMetrics)) (pending : Bytes → List MetricEvent)
    : Type 0 where
  pub distinct : Distinct (ids_of clients)
  pub holds : (c : Bytes) (m : ClientMetrics) → lookup c clients ≡ some m → Holds m (pending c)
  pub unseen : (c : Bytes) → lookup c clients ≡ none → pending c ≡ []

-- `pending` with the events of one client replaced.
abbrev pub replace :
    Bytes → List MetricEvent → (Bytes → List MetricEvent) → Bytes → List MetricEvent
replace client events pending c = if beq client c then events else pending c

All-ne-insert :
    (c k : Bytes) (v : ClientMetrics) (m : List (Bytes × ClientMetrics))
    → c ≢ k
    → All (λ j. c ≢ j) (ids_of m)
    → All (λ j. c ≢ j) (ids_of (insert k v m))
unfolding insert
All-ne-insert c k v [] ne h = (ne, tt)
All-ne-insert c k v ((j, w) ∷ m) ne h = elim (Bool-cases (beq j k)) [
  | inl e ↦ rw e h
  | inr e ↦ rw e (h.0, All-ne-insert c k v m ne h.1)
]

insert-Distinct :
    (k : Bytes) (v : ClientMetrics) (m : List (Bytes × ClientMetrics))
    → Distinct (ids_of m)
    → Distinct (ids_of (insert k v m))
unfolding insert
insert-Distinct k v [] h = (tt, tt)
insert-Distinct k v ((j, w) ∷ m) h = elim (Bool-cases (beq j k)) [
  | inl e ↦ rw e h
  | inr e ↦
      rw e (
        All-ne-insert j k v m (λ same. cc (e, (beq_iff j k).1 same)) h.0,
        insert-Distinct k v m h.1,
      )
]

insert-Tracks :
    (clients : List (Bytes × ClientMetrics)) (pending : Bytes → List MetricEvent) (k : Bytes)
    (v : ClientMetrics) (events : List MetricEvent)
    → Tracks clients pending
    → Holds v events
    → Tracks (insert k v clients) (replace k events pending)
insert-Tracks clients pending k v events t h = record {
  distinct = insert-Distinct k v clients t.distinct;
  holds = λ c m found. elim (Bool-cases (beq k c)) [
    | inl e ↦ let same : v ≡ m = cc (found, lookup-insert k c v clients, e) in rw (e, ← same) h
    | inr e ↦ rw e (t.holds c m (cc (found, lookup-insert k c v clients, e)))
  ];
  unseen = λ c missing. elim (Bool-cases (beq k c)) [
    | inl e ↦ cc (missing, lookup-insert k c v clients, e)
    | inr e ↦ rw e (t.unseen c (cc (missing, lookup-insert k c v clients, e)))
  ];
}

metrics_of-Holds :
    (r : RateLimiter) (pending : Bytes → List MetricEvent) (c : Bytes)
    → Tracks r.client_metrics pending
    → Holds (metrics_of r c) (pending c)
unfolding metrics_of
metrics_of-Holds r pending c t = elim (Option-cases (lookup c r.client_metrics)) [
  | inl e ↦ rw (e, metrics_of, t.unseen c e) fresh-Holds
  | inr (m, e) ↦ rw (e, metrics_of) (t.holds c m e)
]

-- A request adds its decision to the unreported events of its client, and changes those of no
-- other client, while the client has fewer than 1000 of them.
pub allow_request-Tracks :
    (r : RateLimiter) (pending : Bytes → List MetricEvent) (client : Bytes) (now : ℕ)
    → Tracks r.client_metrics pending
    → length (pending client) < buffer_size
    → (metrics_of r client).write_index + 1 < 2 ^ 64
    → Tracks (allow_request r client now).0.client_metrics (
        replace client
          (pending client
            ++ record { timestamp = now; allowed = (allow_request r client now).1 } ∷ [])
          pending)
unfolding allow_request
allow_request-Tracks r pending client now t room small =
    insert-Tracks r.client_metrics pending client _ _ t (
      write_event-Holds (metrics_of r client) (pending client) _
        (metrics_of-Holds r pending client t) room small)

-- What a flush of the clients `ids` should send.
pub sent_of : (Bytes → List MetricEvent) → List Bytes → List Sent
sent_of pending [] = []
sent_of pending (c ∷ ids) = map (send_to_monitoring c) (pending c) ++ sent_of pending ids

sent_of-replace :
    (pending : Bytes → List MetricEvent) (c : Bytes) (events : List MetricEvent) (ids : List Bytes)
    → All (λ j. c ≢ j) ids
    → sent_of (replace c events pending) ids ≡ sent_of pending ids
unfolding sent_of
sent_of-replace pending c events [] h = refl
sent_of-replace pending c events (j ∷ ids) h =
    rw (beq_ne c j h.0, sent_of-replace pending c events ids h.1)

abbrev clear : List Bytes → (Bytes → List MetricEvent) → Bytes → List MetricEvent
clear [] pending = pending
clear (c ∷ ids) pending = clear ids (replace c [] pending)

abbrev Present : List (Bytes × ClientMetrics) → Bytes → Type 0
Present clients c = (m : ClientMetrics) × (lookup c clients ≡ some m)

Present-insert :
    (clients : List (Bytes × ClientMetrics)) (c : Bytes) (v : ClientMetrics) (ids : List Bytes)
    → All (Present clients) ids
    → All (Present (insert c v clients)) ids
Present-insert clients c v [] h = tt
Present-insert clients c v (j ∷ ids) h = (
  elim (Bool-cases (beq c j)) [
    | inl e ↦ (v, cc (lookup-insert c j v clients, e))
    | inr e ↦ (h.0.0, cc (lookup-insert c j v clients, e, h.0.1))
  ],
  Present-insert clients c v ids h.1,
)

flush_ids-Tracks :
    (ids : List Bytes) (r : RateLimiter) (pending : Bytes → List MetricEvent)
    → Tracks r.client_metrics pending
    → Distinct ids
    → All (Present r.client_metrics) ids
    → ((flush_ids ids r).1 ≡ sent_of pending ids)
      × Tracks (flush_ids ids r).0.client_metrics (clear ids pending)
unfolding flush_ids sent_of
flush_ids-Tracks [] r pending t d p = (refl, t)
flush_ids-Tracks (c ∷ ids) r pending t (ne, d) ((m, e), p) =
    let (kept, same) = flush_client-Holds m (pending c) (t.holds c m e) in
    let r' : RateLimiter = record r {
      client_metrics = insert c (flush_client m).0 r.client_metrics;
    } in
    let ih =
      flush_ids-Tracks ids r' (replace c [] pending)
        (insert-Tracks r.client_metrics pending c (flush_client m).0 [] t kept) d
        (Present-insert r.client_metrics c (flush_client m).0 ids p) in
    rw (e, flush_ids) (cc (same, ih.0, sent_of-replace pending c [] ids ne), ih.1)

All-Present-keys :
    (clients : List (Bytes × ClientMetrics))
    → Distinct (ids_of clients)
    → All (Present clients) (ids_of clients)
All-Present-keys clients d = go clients d
  where
    weaken :
        (ids : List Bytes) (j : Bytes) (v : ClientMetrics) (rest : List (Bytes × ClientMetrics))
        → All (λ i. j ≢ i) ids
        → All (Present rest) ids
        → All (Present ((j, v) ∷ rest)) ids
    weaken [] j v rest ne p = tt
    weaken (i ∷ ids) j v rest ne p =
        ((p.0.0, unfold lookup in rw (beq_ne j i ne.0) p.0.1), weaken ids j v rest ne.1 p.1)

    go :
        (rest : List (Bytes × ClientMetrics))
        → Distinct (ids_of rest)
        → All (Present rest) (ids_of rest)
    go [] d = tt
    go ((j, v) ∷ rest) d =
        ((v, unfold lookup in rw (beq_refl j)), weaken (ids_of rest) j v rest d.0 (go rest d.1))

-- Clearing clears: what was empty stays so, and a listed client ends empty.
clear-empty :
    (ids : List Bytes) (pending : Bytes → List MetricEvent) (c : Bytes)
    → pending c ≡ []
    → clear ids pending c ≡ []
clear-empty [] pending c h = h
clear-empty (i ∷ ids) pending c h = clear-empty ids (replace i [] pending) c (ground (arith, h))

clear-listed :
    (clients : List (Bytes × ClientMetrics)) (pending : Bytes → List MetricEvent) (c : Bytes)
    → (lookup c clients ≡ none → pending c ≡ [])
    → clear (ids_of clients) pending c ≡ []
unfolding lookup
clear-listed [] pending c h = h refl
clear-listed ((j, v) ∷ rest) pending c h = elim (Bool-cases (beq j c)) [
  | inl e ↦ clear-empty (ids_of rest) (replace j [] pending) c (rw e)
  | inr e ↦ clear-listed rest (replace j [] pending) c (λ missing. rw e (h (rw e missing)))
]

-- If each client has at most 1000 unreported events, which its buffer still holds, a flush sends,
-- client by client, exactly these, oldest first, and leaves no client with an unreported event.
pub flush_metrics-sends :
    (r : RateLimiter) (pending : Bytes → List MetricEvent)
    → Tracks r.client_metrics pending
    → ((flush_metrics r).1 ≡ sent_of pending (ids_of r.client_metrics))
      × Tracks (flush_metrics r).0.client_metrics (λ c. [])
unfolding flush_metrics
flush_metrics-sends r pending t =
    let done =
      flush_ids-Tracks (ids_of r.client_metrics) r pending t t.distinct
        (All-Present-keys r.client_metrics t.distinct) in
    let empty : (c : Bytes) → clear (ids_of r.client_metrics) pending c ≡ [] =
      λ c. clear-listed r.client_metrics pending c (t.unseen c) in
    (
      done.0,
      record {
        distinct = done.1.distinct;
        holds = λ c m found. rw (empty c) at (done.1.holds c m found);
        unseen = λ c missing. refl;
      },
    )
