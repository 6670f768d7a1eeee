-- ===== src/RateLimiter/Race.antt =====
-- Two calls of RateLimiter::allow_request for one client that record their events at the same
-- time: the ring buffer is written outside the client's lock.
pub mod Schedules
use systems_craft.Prelude.{
  ℕ, zero, suc, ◌+◌, ◌%◌, ◌^◌, ◌≡◌, refl, ap, ◌⊎◌, inl, inr, Bool, true, false, ◌||◌, List, [], ◌∷◌,
  ◌++◌, Option, none, some, set, if◌then◌else◌,
}
use systems_craft.RateLimiter.{MetricEvent, ClientMetrics, buffer_size, write_event}

-- How far a call is: it loads the index, writes the slot, stores the index, and returns.
pub data Writer : Type 0 where
  loads : Writer
  writes stores : ℕ → Writer
  returned : Writer

-- The next step of a call, each of them one access of the shared memory.
unfoldable pub advance : MetricEvent → Writer → ClientMetrics → Writer × ClientMetrics
advance event loads m = (writes m.write_index, m)
advance event (writes i) m =
    (stores i, record m { ring_buffer = set m.ring_buffer (i % buffer_size) event })
advance event (stores i) m = (returned, record m { write_index = (i + 1) % 2 ^ 64 })
advance event returned m = (returned, m)

pub record Race : Type 0 where
  pub metrics : ClientMetrics
  pub first : Writer
  pub second : Writer

-- A step of the first call where the turn is `true`, and of the second one otherwise.
unfoldable pub turn : MetricEvent → MetricEvent → Bool → Race → Race
unfolding advance
turn e1 e2 true s = let (w, m) = advance e1 s.first s.metrics in record s { metrics = m; first = w }
turn e1 e2 false s =
    let (w, m) = advance e2 s.second s.metrics in record s { metrics = m; second = w }

unfoldable pub take_turns : MetricEvent → MetricEvent → List Bool → Race → Race
unfolding turn
take_turns e1 e2 [] s = s
take_turns e1 e2 (b ∷ turns) s = take_turns e1 e2 turns (turn e1 e2 b s)

-- Whether a call has loaded the index and not yet stored it.
abbrev pub is_between : Writer → Bool
is_between loads = false
is_between (writes i) = true
is_between (stores i) = true
is_between returned = false

set_twice : (l : List MetricEvent) (i : ℕ) (a b : MetricEvent) → set (set l i a) i b ≡ set l i b
set_twice [] i a b = refl
set_twice (x ∷ l) zero a b = refl
set_twice (x ∷ l) (suc i) a b = ap (λ t. x ∷ t) (set_twice l i a b)

-- What a call that has loaded the index has still to do.
pub data Phase : Type 0 where
  writing storing done : Phase

module _ (m : ClientMetrics) (e1 e2 : MetricEvent) where
  pub writer_of : Phase → Writer
  writer_of writing = writes m.write_index
  writer_of storing = stores m.write_index
  writer_of done = returned

  pub is_done : Phase → Bool
  is_done writing = false
  is_done storing = false
  is_done done = true

  -- The ring buffer, by the call that wrote its slot last.
  pub ring_of : Option MetricEvent → List MetricEvent
  ring_of none = m.ring_buffer
  ring_of (some e) = set m.ring_buffer (m.write_index % buffer_size) e

  pub race_of : Phase → Phase → Option MetricEvent → Race
  unfolding writer_of is_done ring_of
  race_of p q last = record {
    metrics = record m {
      ring_buffer = ring_of last;
      write_index = if is_done p || is_done q then (m.write_index + 1) % 2 ^ 64 else m.write_index;
    };
    first = writer_of p;
    second = writer_of q;
  }

  set-ring_of :
      (last : Option MetricEvent) (e : MetricEvent)
      → set (ring_of last) (m.write_index % buffer_size) e ≡ ring_of (some e)
  unfolding ring_of
  set-ring_of none e = refl
  set-ring_of (some d) e = set_twice m.ring_buffer (m.write_index % buffer_size) d e

  -- The slot was written by one of the two, unless both have still to write it.
  pub Wrote : Phase → Phase → Option MetricEvent → Type 0
  Wrote p q none = (p ≡ writing) × (q ≡ writing)
  Wrote p q (some e) = (e ≡ e1) ⊎ (e ≡ e2)

  pub IsLost : Race → Type 0
  IsLost s =
      s.first ≡ returned
      → s.second ≡ returned
      → (s.metrics ≡ write_event m e1) ⊎ (s.metrics ≡ write_event m e2)

  -- The race whose slot holds `ring`.
  race_with : Phase → Phase → List MetricEvent → Race
  unfolding writer_of is_done
  race_with p q ring = record {
    metrics = record m {
      ring_buffer = ring;
      write_index = if is_done p || is_done q then (m.write_index + 1) % 2 ^ 64 else m.write_index;
    };
    first = writer_of p;
    second = writer_of q;
  }

  next : Phase → Phase
  next writing = storing
  next storing = done
  next done = done

  last_of : Phase → MetricEvent → Option MetricEvent → Option MetricEvent
  last_of writing e last = some e
  last_of storing e last = last
  last_of done e last = last

  turn_first :
      (p q : Phase) (last : Option MetricEvent)
      → turn e1 e2 true (race_of p q last) ≡ race_of (next p) q (last_of p e1 last)
  unfolding turn advance race_of race_with writer_of is_done next last_of
  turn_first writing q last = ap (race_with storing q) (set-ring_of last e1)
  turn_first storing writing last = refl
  turn_first storing storing last = refl
  turn_first storing done last = refl
  turn_first done q last = refl

  turn_second :
      (p q : Phase) (last : Option MetricEvent)
      → turn e1 e2 false (race_of p q last) ≡ race_of p (next q) (last_of q e2 last)
  unfolding turn advance race_of race_with writer_of is_done next last_of
  turn_second writing writing last = ap (race_with writing storing) (set-ring_of last e2)
  turn_second storing writing last = ap (race_with storing storing) (set-ring_of last e2)
  turn_second done writing last = ap (race_with done storing) (set-ring_of last e2)
  turn_second writing storing last = refl
  turn_second storing storing last = refl
  turn_second done storing last = refl
  turn_second p done last = refl

  first-Wrote :
      (p q : Phase) (last : Option MetricEvent)
      → Wrote p q last
      → Wrote (next p) q (last_of p e1 last)
  unfolding Wrote next last_of
  first-Wrote writing q last w = inl refl
  first-Wrote storing q none w = absurd (cc w.0)
  first-Wrote storing q (some e) w = w
  first-Wrote done q none w = absurd (cc w.0)
  first-Wrote done q (some e) w = w

  second-Wrote :
      (p q : Phase) (last : Option MetricEvent)
      → Wrote p q last
      → Wrote p (next q) (last_of q e2 last)
  unfolding Wrote next last_of
  second-Wrote p writing last w = inr refl
  second-Wrote p storing none w = absurd (cc w.1)
  second-Wrote p storing (some e) w = w
  second-Wrote p done none w = absurd (cc w.1)
  second-Wrote p done (some e) w = w

  ended-IsLost :
      (p q : Phase) (last : Option MetricEvent) → Wrote p q last → IsLost (race_of p q last)
  unfolding race_of writer_of is_done ring_of Wrote IsLost write_event
  ended-IsLost writing q last w h k = cc h
  ended-IsLost storing q last w h k = cc h
  ended-IsLost done writing last w h k = cc k
  ended-IsLost done storing last w h k = cc k
  ended-IsLost done done none w h k = cc w.0
  ended-IsLost done done (some e) w h k = elim w [
    | inl same ↦ inl (rw same refl)
    | inr same ↦ inr (rw same refl)
  ]

  pub overlapping :
      (turns : List Bool) (p q : Phase) (last : Option MetricEvent)
      → Wrote p q last
      → IsLost (take_turns e1 e2 turns (race_of p q last))
  unfolding take_turns
  overlapping [] p q last w = ended-IsLost p q last w
  overlapping (true ∷ turns) p q last w =
      rw (turn_first p q last)
        (overlapping turns (next p) q (last_of p e1 last) (first-Wrote p q last w))
  overlapping (false ∷ turns) p q last w =
      rw (turn_second p q last)
        (overlapping turns p (next q) (last_of q e2 last) (second-Wrote p q last w))
