-- ===== src/Phase0/Runs.antt =====
-- The queue, the storage thread and a query, whatever the order of pushes and rounds.
use systems_craft.Prelude.{
  ℕ, zero, suc, ◌+◌, ◌-◌, ◌≤◌, ◌≡◌, refl, sym, ap, ◌∙◌, inl, inr, Bool, true, ◌&&◌, beq, List, [],
  ◌∷◌, ◌++◌, map, append_assoc, Option, none, some, arith, Bytes, lines, lines-append, All,
  if◌then◌else◌, length, append-nil, replicate, length-append, List-cases,
}
use systems_craft.Phase0.{
  NumberOps, Metric, to_json, in_query, query_lines, query, StorageConsumer, push, try_pop,
  contents, worker_round,
}
use systems_craft.Phase0.Storage.{Reads, IsName, kept, to_json-Lacks, parse_metric-to_json}

pub data Event (D I : Type 0) : Type 0 where
  pushes : Metric D I → Event D I
  works : Event D I

abbrev pub matching {ℓ} : {A : Type ℓ} → (A → Bool) → List A → List A
matching keep [] = []
matching keep (x ∷ xs) = if keep x then x ∷ matching keep xs else matching keep xs

module _ {D I : Type 0} (ops : NumberOps D I) where
  -- A metric that a query for this name and this range of time is to find.
  abbrev pub wanted : Bytes → I → I → Metric D I → Bool
  wanted name earliest latest m =
      beq m.name name && (ops.time_le earliest m.timestamp && ops.time_le m.timestamp latest)

  -- The file can be opened in every round.
  unfoldable pub step : StorageConsumer ops → Event D I → StorageConsumer ops
  step s (pushes m) = push ops m s
  step s works = worker_round ops true s

  unfoldable pub run : StorageConsumer ops → List (Event D I) → StorageConsumer ops
  run s [] = s
  run s (e ∷ events) = run (step s e) events

  -- Nothing queued, no file yet, and the thread running.
  abbrev pub started : StorageConsumer ops
  started = record { queue = []; file = none; running = true }

  abbrev pub pushed : List (Event D I) → List (Metric D I)
  pushed [] = []
  pushed (pushes m ∷ events) = m ∷ pushed events
  pushed (works ∷ events) = pushed events

  -- The lines for the metrics.
  abbrev written : List (Metric D I) → Bytes
  written [] = []
  written (m ∷ ms) = to_json ops m ++ b'\n' ∷ written ms

  written-append : (xs ys : List (Metric D I)) → written (xs ++ ys) ≡ written xs ++ written ys
  written-append [] ys = refl
  written-append (m ∷ xs) ys =
      rw (written-append xs ys)
        (sym (append_assoc (to_json ops m) (b'\n' ∷ written xs) (written ys)))

  -- What is in the file and the queue together.
  abbrev all_of : StorageConsumer ops → Bytes
  all_of s = contents ops s.file ++ written s.queue

  record Moves (s s' : StorageConsumer ops) (more : Bytes) : Type 0 where
    balance : all_of s' ≡ all_of s ++ more
    still : s'.running ≡ true

  push-Moves :
      (s : StorageConsumer ops) (m : Metric D I)
      → s.running ≡ true
      → Moves s (step s (pushes m)) (written (m ∷ []))
  unfolding step push
  push-Moves s m r = record {
    balance =
        ap (λ t. contents ops s.file ++ t) (written-append s.queue (m ∷ []))
        ∙ sym (append_assoc (contents ops s.file) (written s.queue) (written (m ∷ [])));
    still = r;
  }

  -- The storage while the thread is running.
  abbrev running_with : List (Metric D I) → Option Bytes → StorageConsumer ops
  running_with queue file = record { queue = queue; file = file; running = true }

  work-Moves_at :
      (queue : List (Metric D I)) (file : Option Bytes)
      → Moves (running_with queue file) (step (running_with queue file) works) []
  unfolding step worker_round try_pop
  work-Moves_at [] file = record { balance = sym (append-nil _); still = refl }
  work-Moves_at (m ∷ rest) file = record {
    balance =
        append_assoc (contents ops file) (to_json ops m ++ b'\n' ∷ []) (written rest)
        ∙ ap (λ t. contents ops file ++ t)
            (append_assoc (to_json ops m) (b'\n' ∷ []) (written rest))
        ∙ sym (append-nil _);
    still = refl;
  }

  work-Moves : (s : StorageConsumer ops) → s.running ≡ true → Moves s (step s works) []
  work-Moves s r = rw r (work-Moves_at s.queue s.file)

  run-Moves :
      (events : List (Event D I)) (s : StorageConsumer ops)
      → s.running ≡ true
      → Moves s (run s events) (written (pushed events))
  unfolding run
  run-Moves [] s r = record { balance = sym (append-nil _); still = r }
  run-Moves (pushes m ∷ events) s r =
      let one = push-Moves s m r in
      let more = run-Moves events (step s (pushes m)) one.still in
      record {
        balance =
            more.balance
            ∙ ap (λ t. t ++ written (pushed events)) one.balance
            ∙ append_assoc (all_of s) (written (m ∷ [])) (written (pushed events))
            ∙ ap (λ t. all_of s ++ t)
                (append_assoc (to_json ops m) (b'\n' ∷ []) (written (pushed events)));
        still = more.still;
      }
  run-Moves (works ∷ events) s r =
      let one = work-Moves s r in
      let more = run-Moves events (step s works) one.still in
      record {
        balance =
            more.balance
            ∙ ap (λ t. t ++ written (pushed events)) (one.balance ∙ append-nil (all_of s));
        still = more.still;
      }

  pushed-append :
      (events more : List (Event D I)) → pushed (events ++ more) ≡ pushed events ++ pushed more
  pushed-append [] more = refl
  pushed-append (pushes m ∷ events) more = ap (◌∷◌ m) (pushed-append events more)
  pushed-append (works ∷ events) more = pushed-append events more

  pushed-works : (k : ℕ) → pushed (replicate k works) ≡ []
  pushed-works zero = refl
  pushed-works (suc k) = pushed-works k

  run-append :
      (events more : List (Event D I)) (s : StorageConsumer ops)
      → run s (events ++ more) ≡ run (run s events) more
  unfolding run
  run-append [] more s = refl
  run-append (e ∷ events) more s = run-append events more (step s e)

  queue-works_at :
      (queue : List (Metric D I)) (file : Option Bytes)
      → length (step (running_with queue file) works).queue ≡ length queue - 1
  unfolding step worker_round try_pop
  queue-works_at [] file = refl
  queue-works_at (m ∷ rest) file = omega arith

  queue-works :
      (s : StorageConsumer ops)
      → s.running ≡ true
      → length (step s works).queue ≡ length s.queue - 1
  queue-works s r = rw r (queue-works_at s.queue s.file)

  -- A queue of at most `k` metrics is empty after `k` rounds.
  drain :
      (k : ℕ) (s : StorageConsumer ops)
      → s.running ≡ true
      → length s.queue ≤ k
      → (run s (replicate k works)).queue ≡ []
  unfolding run
  drain zero s r h = elim (List-cases s.queue) [
    | inl e ↦ e
    | inr (m, rest, e) ↦ absurd (omega (arith, ap length e))
  ]
  drain (suc k) s r h =
      drain k (step s works) (work-Moves s r).still (ground (arith, queue-works s r))

  queue-run :
      (events : List (Event D I)) (s : StorageConsumer ops)
      → s.running ≡ true
      → length (run s events).queue ≤ length s.queue + length (pushed events)
  unfolding run step push
  queue-run [] s r = omega arith
  queue-run (pushes m ∷ events) s r =
      omega (arith, queue-run events (step s (pushes m)) r, length-append s.queue (m ∷ []))
  queue-run (works ∷ events) s r =
      ground (arith, queue-run events (step s works) (work-Moves s r).still, queue-works s r)

module _ {D I : Type 0} (ops : NumberOps D I) (rounded : D → D) (reads : Reads ops rounded) where
  query_lines-written :
      (keep : Metric D I → Bool) (ms : List (Metric D I))
      → All (λ m. IsName m.name) ms
      → query_lines ops keep (lines (written ops ms))
        ≡ some (matching keep (map (kept ops rounded reads) ms))
  unfolding query_lines lines
  query_lines-written keep [] h = refl
  query_lines-written keep (m ∷ ms) (n, h) =
      rw
        (
          lines-append (to_json ops m) (written ops ms) (to_json-Lacks ops rounded reads m n),
          query_lines,
          parse_metric-to_json ops rounded reads m n,
          query_lines-written keep ms h,
        )
        refl

  query-contents :
      (file : Option Bytes) (name : Bytes) (start_ts end_ts : I)
      → query ops file name start_ts end_ts
        ≡ query_lines ops (in_query ops name start_ts end_ts) (lines (contents ops file))
  unfolding query query_lines lines
  query-contents none name start_ts end_ts = refl
  query-contents (some text) name start_ts end_ts = refl

  -- Whatever the order of pushes and rounds, after as many further rounds as metrics were pushed a
  -- query finds exactly the pushed metrics of that name in that range of time, in their order, with
  -- values as printing rounds them. Names have no quotation mark and no line feed, numbers are read
  -- back from their texts, and the file can be opened in every round.
  pub query-run :
      (events : List (Event D I)) (k : ℕ) (name : Bytes) (start_ts end_ts : I)
      → All (λ m. IsName m.name) (pushed ops events)
      → length (pushed ops events) ≤ k
      → query ops (run ops (started ops) (events ++ replicate k works)).file name start_ts end_ts
        ≡ some (
            matching
              (wanted ops name start_ts end_ts)
              (map (kept ops rounded reads) (pushed ops events)))
  query-run events k name start_ts end_ts names enough =
      query-contents (run ops (started ops) all).file name start_ts end_ts
      ∙ rw stored
          (query_lines-written (in_query ops name start_ts end_ts) (pushed ops events) names)
    where
      all : List (Event D I)
      all = events ++ replicate k works

      empty : (run ops (started ops) all).queue ≡ []
      empty =
          ap (λ (y : StorageConsumer ops). y.queue)
            (run-append ops events (replicate k works) (started ops))
          ∙ drain ops k (run ops (started ops) events)
              (run-Moves ops events (started ops) refl).still
              (omega (arith, queue-run ops events (started ops) refl))

      stored : contents ops (run ops (started ops) all).file ≡ written ops (pushed ops events)
      stored =
          sym (append-nil _)
          ∙ ap (λ q. contents ops (run ops (started ops) all).file ++ written ops q) (sym empty)
          ∙ (run-Moves ops all (started ops) refl).balance
          ∙ ap (written ops) (
              pushed-append ops events (replicate k works)
              ∙ ap (λ q. pushed ops events ++ q) (pushed-works ops k)
              ∙ append-nil (pushed ops events))
