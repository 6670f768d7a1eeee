-- ===== src/RateLimiter/Race/Schedules.antt =====
-- The schedules of two calls of RateLimiter::allow_request in which both hold the index at once.
use systems_craft.Prelude.{
  ◌%◌, ◌≡◌, refl, ap, ◌⊎◌, inl, inr, Bool, true, false, List, [], ◌∷◌, ◌++◌, none, some, set,
}
use systems_craft.RateLimiter.{MetricEvent, ClientMetrics, buffer_size, write_event}
use systems_craft.RateLimiter.Race.{
  Writer, loads, writes, stores, returned, advance, Race, turn, take_turns, is_between, writing,
  storing, writer_of, is_done, ring_of, race_of, Wrote, IsLost, overlapping,
}

module _ (m : ClientMetrics) (e1 e2 : MetricEvent) where
  -- A call that has returned stays so.
  first-returned :
      (turns : List Bool) (k : ClientMetrics) (w : Writer)
      → (take_turns e1 e2 turns (record { metrics = k; first = returned; second = w })).first
        ≡ returned
  unfolding take_turns turn advance
  first-returned [] k w = refl
  first-returned (true ∷ turns) k w = first-returned turns k w
  first-returned (false ∷ turns) k w = first-returned turns (advance e2 w k).1 (advance e2 w k).0

  second-returned :
      (turns : List Bool) (k : ClientMetrics) (w : Writer)
      → (take_turns e1 e2 turns (record { metrics = k; first = w; second = returned })).second
        ≡ returned
  unfolding take_turns turn advance
  second-returned [] k w = refl
  second-returned (true ∷ turns) k w = second-returned turns (advance e1 w k).1 (advance e1 w k).0
  second-returned (false ∷ turns) k w = second-returned turns k w

  -- The buffer with the slot written and the index not yet stored.
  abbrev slot_written : MetricEvent → ClientMetrics
  slot_written e = record m { ring_buffer = set m.ring_buffer (m.write_index % buffer_size) e }

  -- A run in whose first turns both calls come to hold the index.
  abbrev LosesAfter : List Bool → List Bool → Race → Type 0
  LosesAfter early late s =
      (is_between (take_turns e1 e2 early s).first ≡ true)
      → (is_between (take_turns e1 e2 early s).second ≡ true)
      → IsLost m e1 e2 (take_turns e1 e2 (early ++ late) s)

  first_storing-loses :
      (early late : List Bool)
      → LosesAfter early late
          (record { metrics = slot_written e1; first = stores m.write_index; second = loads })
  unfolding take_turns turn advance race_of writer_of is_done ring_of Wrote
  first_storing-loses [] late h k = cc k
  first_storing-loses (true ∷ early) late h k = cc (ap is_between (first-returned early _ loads), h)
  first_storing-loses (false ∷ early) late h k =
      overlapping m e1 e2 (early ++ late) storing writing (some e1) (inl refl)

  first_writing-loses :
      (early late : List Bool)
      → LosesAfter early late (record { metrics = m; first = writes m.write_index; second = loads })
  unfolding take_turns turn advance race_of writer_of is_done ring_of Wrote
  first_writing-loses [] late h k = cc k
  first_writing-loses (true ∷ early) late h k = first_storing-loses early late h k
  first_writing-loses (false ∷ early) late h k =
      overlapping m e1 e2 (early ++ late) writing writing none (refl, refl)

  second_storing-loses :
      (early late : List Bool)
      → LosesAfter early late
          (record { metrics = slot_written e2; first = loads; second = stores m.write_index })
  unfolding take_turns turn advance race_of writer_of is_done ring_of Wrote
  second_storing-loses [] late h k = cc h
  second_storing-loses (true ∷ early) late h k =
      overlapping m e1 e2 (early ++ late) writing storing (some e2) (inr refl)
  second_storing-loses (false ∷ early) late h k =
      cc (ap is_between (second-returned early _ loads), k)

  second_writing-loses :
      (early late : List Bool)
      → LosesAfter early late (record { metrics = m; first = loads; second = writes m.write_index })
  unfolding take_turns turn advance race_of writer_of is_done ring_of Wrote
  second_writing-loses [] late h k = cc h
  second_writing-loses (true ∷ early) late h k =
      overlapping m e1 e2 (early ++ late) writing writing none (refl, refl)
  second_writing-loses (false ∷ early) late h k = second_storing-loses early late h k

  both-lose :
      (early late : List Bool)
      → LosesAfter early late (record { metrics = m; first = loads; second = loads })
  unfolding take_turns turn advance
  both-lose [] late h k = cc h
  both-lose (true ∷ early) late h k = first_writing-loses early late h k
  both-lose (false ∷ early) late h k = second_writing-loses early late h k

-- If after some turns both calls have loaded the index and neither has stored it, then whatever
-- the order of the steps before and after, when both have returned the buffer is as after one of
-- the two calls alone: the event of the other one is lost.
pub take_turns-loses :
    (m : ClientMetrics) (e1 e2 : MetricEvent) (early late : List Bool)
    → is_between
        (take_turns e1 e2 early (record { metrics = m; first = loads; second = loads })).first
      ≡ true
    → is_between
        (take_turns e1 e2 early (record { metrics = m; first = loads; second = loads })).second
      ≡ true
    → (take_turns e1 e2
        (early ++ late)
        (record { metrics = m; first = loads; second = loads })).first
      ≡ returned
    → (take_turns e1 e2
        (early ++ late)
        (record { metrics = m; first = loads; second = loads })).second
      ≡ returned
    → ((take_turns e1 e2
          (early ++ late)
          (record { metrics = m; first = loads; second = loads })).metrics
        ≡ write_event m e1)
      ⊎ ((take_turns e1 e2
            (early ++ late)
            (record { metrics = m; first = loads; second = loads })).metrics
          ≡ write_event m e2)
unfolding IsLost
take_turns-loses m e1 e2 early late h k = both-lose m e1 e2 early late h k
