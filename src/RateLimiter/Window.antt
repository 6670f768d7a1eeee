-- ===== src/RateLimiter/Window.antt =====
-- RateLimiter::allow_request against a sliding window over the whole history of admissions.
pub mod Bound
use systems_craft.Prelude.{
  ℕ, ◌+◌, ◌≤◌, ◌≡◌, refl, Bool, ◌&&◌, List, [], ◌∷◌, ◌++◌, arith, Bytes, beq, beq_iff, lookup,
  lookup-insert, ltb, if◌then◌else◌, length,
}
use systems_craft.RateLimiter.{
  RateLimiter, second, rate_limiter, client_queue, remove_old, decide_queue, allow_request,
}

-- Admissions of one client in a history that lie less than a second before `now`.
pub count_recent : ℕ → Bytes → List (Bytes × ℕ) → ℕ
count_recent now client [] = 0
count_recent now client ((c, t) ∷ history) =
    (if beq c client && ltb now (t + second) then 1 else 0) + count_recent now client history

-- The specification: admit while fewer than `max` admissions lie in the last second.
pub window_step : ℕ → List (Bytes × ℕ) → Bytes → ℕ → List (Bytes × ℕ) × Bool
window_step max history client now =
    let fits = ltb (count_recent now client history) max in
    (if fits then (client, now) ∷ history else history, fits)

pub window_decisions : ℕ → List (Bytes × ℕ) → List (Bytes × ℕ) → List Bool
window_decisions max history [] = []
window_decisions max history ((client, now) ∷ calls) =
    let next = window_step max history client now in next.1 ∷ window_decisions max next.0 calls

-- The decisions of the code for a sequence of calls.
unfoldable pub decisions : RateLimiter → List (Bytes × ℕ) → List Bool
decisions r [] = []
decisions r ((client, now) ∷ calls) =
    let next = allow_request r client now in next.1 ∷ decisions next.0 calls

-- The calls' times do not go back, and start at `last` or later.
abbrev pub Monotone : ℕ → List (Bytes × ℕ) → Type 0
Monotone last [] = Unit
Monotone last ((client, now) ∷ calls) = (last ≤ now) × Monotone now calls

-- A queue that rises from `lo` and ends at `hi` at the latest.
abbrev Rises : ℕ → ℕ → List ℕ → Type 0
Rises lo hi [] = lo ≤ hi
Rises lo hi (x ∷ xs) = (lo ≤ x) × Rises x hi xs

abbrev count_queue : ℕ → List ℕ → ℕ
count_queue now [] = 0
count_queue now (t ∷ queue) = (if ltb now (t + second) then 1 else 0) + count_queue now queue

Rises-le : (lo hi : ℕ) (xs : List ℕ) → Rises lo hi xs → lo ≤ hi
Rises-le lo hi [] h = h
Rises-le lo hi (x ∷ xs) h = omega (arith, Rises-le x hi xs h.1)

Rises-weaken :
    (lo lo' hi hi' : ℕ) (xs : List ℕ) → lo' ≤ lo → hi ≤ hi' → Rises lo hi xs → Rises lo' hi' xs
Rises-weaken lo lo' hi hi' [] a b h = omega arith
Rises-weaken lo lo' hi hi' (x ∷ xs) a b h =
    (omega arith, Rises-weaken x x hi hi' xs (omega arith) b h.1)

Rises-push : (lo hi : ℕ) (xs : List ℕ) → Rises lo hi xs → Rises lo hi (xs ++ hi ∷ [])
Rises-push lo hi [] h = (h, omega arith)
Rises-push lo hi (x ∷ xs) h = (h.0, Rises-push x hi xs h.1)

count_queue-push :
    (now t : ℕ) (xs : List ℕ)
    → count_queue now (xs ++ t ∷ []) ≡ (if ltb now (t + second) then 1 else 0) + count_queue now xs
count_queue-push now t [] = refl
count_queue-push now t (x ∷ xs) = omega (arith, count_queue-push now t xs)

-- Nothing that is dropped counts, now or later.
remove_old-count_queue :
    (now later : ℕ) (xs : List ℕ)
    → now ≤ later
    → count_queue later (remove_old now xs) ≡ count_queue later xs
unfolding remove_old
remove_old-count_queue now later [] h = refl
remove_old-count_queue now later (x ∷ xs) h = ground (arith, remove_old-count_queue now later xs h)

remove_old-Rises : (now lo hi : ℕ) (xs : List ℕ) → Rises lo hi xs → Rises lo hi (remove_old now xs)
unfolding remove_old
remove_old-Rises now lo hi [] h = h
remove_old-Rises now lo hi (x ∷ xs) h =
    ground (arith, remove_old-Rises now lo hi xs (Rises-weaken x lo hi hi xs h.0 (omega arith) h.1))

-- A rising queue of recent timestamps counts whole.
count_queue-young :
    (now x hi : ℕ) (xs : List ℕ)
    → now + 1 ≤ x + second
    → Rises x hi xs
    → count_queue now xs ≡ length xs
count_queue-young now x hi [] y h = refl
count_queue-young now x hi (z ∷ xs) y h = ground (arith, count_queue-young now z hi xs)

remove_old-length :
    (now lo hi : ℕ) (xs : List ℕ) → Rises lo hi xs → length (remove_old now xs) ≡ count_queue now xs
unfolding remove_old
remove_old-length now lo hi [] h = refl
remove_old-length now lo hi (x ∷ xs) h =
    ground (arith, remove_old-length now x hi xs h.1, count_queue-young now x hi xs)

-- The queue of every client after a call.
client_queue-allow_request :
    (r : RateLimiter) (client j : Bytes) (now : ℕ)
    → client_queue (allow_request r client now).0 j ≡ (
        if beq client j
        then (decide_queue r.max_requests (remove_old now (client_queue r client)) now).0
        else client_queue r j)
unfolding client_queue allow_request
client_queue-allow_request r client j now = ground (
  arith,
  lookup-insert client j
      (decide_queue r.max_requests (remove_old now (client_queue r client)) now).0
      r.client_requests,
)

-- The limiter `r` stands for the history of admissions up to time `last`.
record Represents (max : ℕ) (r : RateLimiter) (history : List (Bytes × ℕ)) (last : ℕ) : Type 0 where
  limit : r.max_requests ≡ max
  rises : (c : Bytes) → Rises 0 last (client_queue r c)
  counts :
      (c : Bytes) (now : ℕ)
      → last ≤ now
      → count_recent now c history ≡ count_queue now (client_queue r c)

module _ (max : ℕ) (r : RateLimiter) (history : List (Bytes × ℕ)) (last : ℕ)
    (inv : Represents max r history last) (client : Bytes) (now : ℕ) (later : last ≤ now) where
  decision_same : (allow_request r client now).1 ≡ (window_step max history client now).1
  unfolding allow_request window_step decide_queue
  decision_same = ground (
    arith,
    inv.limit,
    inv.counts client now later,
    remove_old-length now 0 last (client_queue r client) (inv.rises client),
  )

  abbrev cleaned : List ℕ
  cleaned = remove_old now (client_queue r client)

  cleaned-Rises : Rises 0 now cleaned
  cleaned-Rises =
      remove_old-Rises now 0 now (client_queue r client)
        (Rises-weaken 0 0 last now (client_queue r client) (omega arith) later (inv.rises client))

  allow_request-Rises : (c : Bytes) → Rises 0 now (client_queue (allow_request r client now).0 c)
  unfolding decide_queue
  allow_request-Rises c = rw (client_queue-allow_request r client c now) (
      ground (
        arith,
        cleaned-Rises,
        Rises-push 0 now cleaned cleaned-Rises,
        Rises-weaken 0 0 last now (client_queue r c) (omega arith) later (inv.rises c),
      ))

  allow_request-counts :
      (c : Bytes) (t : ℕ)
      → now ≤ t
      → count_recent t c (window_step max history client now).0
        ≡ count_queue t (client_queue (allow_request r client now).0 c)
  unfolding decide_queue window_step count_recent
  allow_request-counts c t h = rw (client_queue-allow_request r client c now) (
      ground (
        arith,
        beq_iff client c,
        inv.limit,
        inv.counts c t (omega arith),
        inv.counts client now later,
        remove_old-length now 0 last (client_queue r client) (inv.rises client),
        remove_old-count_queue now t (client_queue r client) h,
        count_queue-push t now cleaned,
      ))

  allow_request-limit : (allow_request r client now).0.max_requests ≡ max
  unfolding allow_request
  allow_request-limit = inv.limit

  step-Represents :
      Represents max (allow_request r client now).0 (window_step max history client now).0 now
  step-Represents = record {
    limit = allow_request-limit;
    rises = allow_request-Rises;
    counts = allow_request-counts;
  }

decisions_same :
    (max : ℕ) (r : RateLimiter) (history : List (Bytes × ℕ)) (last : ℕ) (calls : List (Bytes × ℕ))
    → Represents max r history last
    → Monotone last calls
    → decisions r calls ≡ window_decisions max history calls
unfolding decisions window_decisions
decisions_same max r history last [] inv m = refl
decisions_same max r history last ((client, now) ∷ calls) inv m = cc (
  decision_same max r history last inv client now m.0,
  decisions_same max (allow_request r client now).0 (window_step max history client now).0 now calls
      (step-Represents max r history last inv client now m.0) m.1,
)

fresh-Represents : (max : ℕ) → Represents max (rate_limiter max) [] 0
unfolding rate_limiter client_queue lookup count_recent
fresh-Represents max = record { limit = refl; rises = λ c. omega arith; counts = λ c now h. refl }

-- For calls in the order of the clock, a new limiter decides every call as the sliding window
-- does: a request is admitted exactly when fewer than `max` requests of its client were admitted
-- less than a second before it.
pub decisions-eq-window_decisions :
    (max : ℕ) (calls : List (Bytes × ℕ))
    → Monotone 0 calls
    → decisions (rate_limiter max) calls ≡ window_decisions max [] calls
decisions-eq-window_decisions max calls =
    decisions_same max (rate_limiter max) [] 0 calls (fresh-Represents max)
