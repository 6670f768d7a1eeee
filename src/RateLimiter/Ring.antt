-- ===== src/RateLimiter/Ring.antt =====
-- The ring buffer of ClientMetrics against a plain queue of the events not yet reported.
use native.Mathlib.Nat.{add-zero}
use systems_craft.Prelude.{
  ℕ, zero, suc, ◌+◌, ◌-◌, ◌%◌, ◌^◌, ◌≤◌, ◌<◌, ◌≡◌, ◌≢◌, refl, sym, ap, ◌∙◌, List, [], ◌∷◌, ◌++◌,
  arith, length, length-append, get_or, set, length-set, length-replicate, get_or-set_self,
  get_or-set_ne,
}
use systems_craft.RateLimiter.{
  MetricEvent, ClientMetrics, buffer_size, default_event, fresh_metrics, write_event, read_events,
  flush_client,
}

-- The buffer holds exactly the events `pending`, oldest at the read index, none overwritten.
pub record Holds (m : ClientMetrics) (pending : List MetricEvent) : Type 0 where
  pub size : length m.ring_buffer ≡ buffer_size
  pub ends : m.write_index ≡ m.read_index + length pending
  pub fits : length pending ≤ buffer_size
  pub content : read_events m.ring_buffer (length pending) m.read_index ≡ pending

length-read_events : (ring : List MetricEvent) (n i : ℕ) → length (read_events ring n i) ≡ n
unfolding read_events
length-read_events ring zero i = refl
length-read_events ring (suc n) i = ap suc (length-read_events ring n (i + 1))

-- Less than a full turn apart, two indices use different slots.
slots_differ : (i w : ℕ) → i < w → w < i + buffer_size → w % buffer_size ≢ i % buffer_size
slots_differ i w h k = omega arith

read_events-set :
    (ring : List MetricEvent) (e : MetricEvent) (n i w : ℕ)
    → i + n ≤ w
    → w < i + buffer_size
    → read_events (set ring (w % buffer_size) e) n i ≡ read_events ring n i
unfolding read_events
read_events-set ring e zero i w h k = refl
read_events-set ring e (suc n) i w h k = cc (
  get_or-set_ne ring (w % buffer_size) (i % buffer_size) e default_event
      (slots_differ i w (omega arith) k),
  read_events-set ring e n (i + 1) w (omega arith) (omega arith),
)

read_events-suc :
    (ring : List MetricEvent) (n i w : ℕ)
    → w ≡ i + n
    → read_events ring (suc n) i
      ≡ read_events ring n i ++ get_or ring (w % buffer_size) default_event ∷ []
unfolding read_events
read_events-suc ring zero i w e = let same : w ≡ i = omega arith in rw same refl
read_events-suc ring (suc n) i w e =
    ap (◌∷◌ (get_or ring (i % buffer_size) default_event))
      (read_events-suc ring n (i + 1) w (omega arith))

-- A write appends the event, while the buffer is not full.
pub write_event-Holds :
    (m : ClientMetrics) (pending : List MetricEvent) (e : MetricEvent)
    → Holds m pending
    → length pending < buffer_size
    → m.write_index + 1 < 2 ^ 64
    → Holds (write_event m e) (pending ++ e ∷ [])
unfolding write_event
write_event-Holds m pending e h room small = record {
  size = length-set m.ring_buffer (m.write_index % buffer_size) e ∙ h.size;
  ends = omega (arith, length-append pending (e ∷ []));
  fits = omega (arith, length-append pending (e ∷ []));
  content = rw length-grows grown;
}
  where
    ring : List MetricEvent
    ring = set m.ring_buffer (m.write_index % buffer_size) e

    length-grows : length (pending ++ e ∷ []) ≡ suc (length pending)
    length-grows = omega (arith, length-append pending (e ∷ []))

    last : get_or ring (m.write_index % buffer_size) default_event ≡ e
    last = get_or-set_self m.ring_buffer (m.write_index % buffer_size) e default_event (omega arith)

    before : read_events ring (length pending) m.read_index ≡ pending
    before =
        read_events-set m.ring_buffer e (length pending) m.read_index m.write_index (omega arith)
          (omega arith)
        ∙ h.content

    grown : read_events ring (suc (length pending)) m.read_index ≡ pending ++ e ∷ []
    grown =
        read_events-suc ring (length pending) m.read_index m.write_index h.ends ∙ rw (before, last)

-- A flush reports the pending events in order, and leaves none.
pub flush_client-Holds :
    (m : ClientMetrics) (pending : List MetricEvent)
    → Holds m pending
    → Holds (flush_client m).0 [] × ((flush_client m).1 ≡ pending)
unfolding flush_client read_events
flush_client-Holds m pending h = (
  record {
    size = ground (arith, h.size);
    ends =
        ground
          (arith, length-read_events m.ring_buffer (m.write_index - m.read_index) m.read_index);
    fits = omega arith;
    content = refl;
  },
  all_read,
)
  where
    all_read : read_events m.ring_buffer (m.write_index - m.read_index) m.read_index ≡ pending
    all_read = let e : m.write_index - m.read_index ≡ length pending = omega arith in rw e h.content

-- What happens to one client's buffer over time.
pub data Action : Type 0 where
  record_event : MetricEvent → Action
  report : Action

-- The code's reports for a sequence of actions.
pub reports : ClientMetrics → List Action → List (List MetricEvent)
reports m [] = []
reports m (record_event e ∷ actions) = reports (write_event m e) actions
reports m (report ∷ actions) = let next = flush_client m in next.1 ∷ reports next.0 actions

-- The specification: a report is what was recorded since the last one.
unfoldable pub queue_reports : List MetricEvent → List Action → List (List MetricEvent)
queue_reports pending [] = []
queue_reports pending (record_event e ∷ actions) = queue_reports (pending ++ e ∷ []) actions
queue_reports pending (report ∷ actions) = pending ∷ queue_reports [] actions

-- No more than a buffer's worth of events is recorded between two reports.
abbrev pub KeepsUp : ℕ → List Action → Type 0
KeepsUp waiting [] = Unit
KeepsUp waiting (record_event e ∷ actions) = (waiting < buffer_size) × KeepsUp (suc waiting) actions
KeepsUp waiting (report ∷ actions) = KeepsUp 0 actions

flush_client-write_index : (m : ClientMetrics) → (flush_client m).0.write_index ≡ m.write_index
unfolding flush_client
flush_client-write_index m = ground arith

write_event-write_index :
    (m : ClientMetrics) (e : MetricEvent)
    → m.write_index + 1 < 2 ^ 64
    → (write_event m e).write_index ≡ m.write_index + 1
unfolding write_event
write_event-write_index m e h = omega arith

reports_same :
    (m : ClientMetrics) (pending : List MetricEvent) (actions : List Action)
    → Holds m pending
    → KeepsUp (length pending) actions
    → m.write_index + length actions < 2 ^ 64
    → reports m actions ≡ queue_reports pending actions
unfolding reports queue_reports
reports_same m pending [] h k small = refl
reports_same m pending (record_event e ∷ actions) h (room, k) small =
    reports_same (write_event m e) (pending ++ e ∷ []) actions
      (write_event-Holds m pending e h room (omega arith)) (rw length-grows k)
      (omega (arith, write_event-write_index m e))
  where
    length-grows : length (pending ++ e ∷ []) ≡ suc (length pending)
    length-grows = omega (arith, length-append pending (e ∷ []))
reports_same m pending (report ∷ actions) h k small =
    let (kept, same) = flush_client-Holds m pending h in
    cc (
      same,
      reports_same (flush_client m).0 [] actions kept k (omega (arith, flush_client-write_index m)),
    )

pub fresh-Holds : Holds fresh_metrics []
unfolding fresh_metrics read_events
fresh-Holds = record {
  size = length-replicate buffer_size default_event;
  ends = omega arith;
  fits = omega arith;
  content = refl;
}

-- From a new client on, and for fewer than 2^64 actions, every report is exactly what was
-- recorded since the report before it, in order, provided that at most 1000 events are recorded
-- between two reports.
pub reports-eq-queue_reports :
    (actions : List Action)
    → KeepsUp 0 actions
    → length actions < 2 ^ 64
    → reports fresh_metrics actions ≡ queue_reports [] actions
unfolding fresh_metrics
reports-eq-queue_reports actions k small =
    reports_same fresh_metrics [] actions fresh-Holds k (omega arith)

get_read_events :
    (ring : List MetricEvent) (n i k : ℕ)
    → k < n
    → get_or (read_events ring n i) k default_event
      ≡ get_or ring ((i + k) % buffer_size) default_event
unfolding read_events
get_read_events ring zero i k h = elim h [ ]
get_read_events ring (suc n) i zero h = rw (add-zero i)
get_read_events ring (suc n) i (suc k) h =
    let e : i + 1 + k ≡ i + suc k = omega arith in
    get_read_events ring n (i + 1) k (omega arith) ∙ rw e

-- A flush that comes more than 1000 events late reports the slots that it has already reported:
-- the entries `k` and `k + 1000` of the report are one event, whatever was recorded.
pub flush_client_late :
    (m : ClientMetrics) (k : ℕ)
    → m.read_index + k + buffer_size < m.write_index
    → get_or (flush_client m).1 k default_event
      ≡ get_or (flush_client m).1 (k + buffer_size) default_event
unfolding flush_client
flush_client_late m k h =
    get_read_events m.ring_buffer (m.write_index - m.read_index) m.read_index k (omega arith)
    ∙ ap (λ i. get_or m.ring_buffer i default_event) turn
    ∙ sym (
        get_read_events m.ring_buffer (m.write_index - m.read_index) m.read_index (k + buffer_size)
          (omega arith))
  where
    turn : (m.read_index + k) % buffer_size ≡ (m.read_index + (k + buffer_size)) % buffer_size
    turn = omega arith
