-- ===== src/FileQueue/Delivery/System/Repeats.antt =====
-- What is processed when consumers are killed: every message, in order, and one again for each kill
-- at most.
use systems_craft.Prelude.{
  ℕ, ◌+◌, ◌%◌, ◌^◌, ◌≤◌, ◌<◌, ◌≡◌, refl, sym, ap, ◌∙◌, inl, inr, List, [], ◌∷◌, ◌++◌, arith, Bytes,
  length, length-append, append-nil, append_assoc, ◌==◌, Bool-cases,
}
use systems_craft.FileQueue.Consumer.{consume_partition}
use systems_craft.FileQueue.Delivery.Round.{delivered_next}
use systems_craft.FileQueue.Delivery.System
use systems_craft.FileQueue.Delivery.System.{
  System, Event, send, poll, restart_producer, restart_consumer, allowed, deliver, sent, fresh,
  PollsInside, IsSound,
}
use systems_craft.FileQueue.Delivery.System.Runs.{
  Room, run-IsSound, step_poll-lem, polled-handed_over, deliver-handed_over,
}
use systems_craft.FileQueue.Delivery.System.Order.{fresh-IsSound}
use systems_craft.FileQueue.Delivery.System.Kills.{
  Action, does, killed, Watched, polled, uncommitted, step, run, watched, events_of, kills, Inside,
  firsts, spread, extra, again,
}
use systems_craft.FileQueue.Delivery.System.Seen.{
  Seen, Seen-grow, Seen-later, next_bound, Seen-polled, Seen-killed, uncommitted-polled,
}

module _ (hash : Bytes → ℕ) (n : ℕ) (some_partition : 0 < n) where
  -- Where the run stands: the log, and what was seen of it.
  pub record Stands (w : Watched) (log : ℕ → List Bytes) (b : ℕ → ℕ) : Type 0 where
    pub sound : IsSound n w.system log
    pub seen : (q : ℕ) → Seen (log q) (w.system.delivered q) (w.processed q) (b q)

  abbrev pub StandsAfter : Watched → (ℕ → List Bytes) → (ℕ → ℕ) → List Action → Type 0
  StandsAfter w log b actions =
      (log' : ℕ → List Bytes) × ((p : ℕ) → log' p ≡ log p ++ sent hash n p (events_of actions))
      × Stands (run hash w actions) log' (λ p. b p + kills p actions)

  -- An event other than a poll processes nothing.
  after_event :
      (w : Watched) (log : ℕ → List Bytes) (b : ℕ → ℕ) (e : Event)
      → Stands w log b
      → Room hash n some_partition log 1
      → PollsInside n (e ∷ [])
      → (System.step hash w.system e).delivered ≡ w.system.delivered
      → (log' : ℕ → List Bytes) × ((p : ℕ) → log' p ≡ log p ++ sent hash n p (e ∷ []))
        × Stands (record { system = System.step hash w.system e; processed = w.processed }) log' b
  unfolding System.run
  after_event w log b e s room inside same =
      let (log', sound, grows) =
        run-IsSound hash n some_partition (e ∷ []) w.system log s.sound room inside in
      (
        log',
        grows,
        record {
          sound = sound;
          seen = λ q.
              rw (same, grows q)
                (Seen-grow (log q) (w.system.delivered q) (w.processed q) (sent hash n q (e ∷ []))
                  (b q) (s.seen q));
        },
      )

  after_poll :
      (w : Watched) (log : ℕ → List Bytes) (b : ℕ → ℕ) (p : ℕ)
      → Stands w log b
      → Room hash n some_partition log 0
      → p < n
      → Stands (step hash w (does (poll p))) log b
  unfolding step polled
  after_poll w log b p s room inside =
      let rest = (s.seen p).rest in
      let order = (s.seen p).order in
      let (sound, now) =
        step_poll-lem hash n some_partition w.system log p rest s.sound room inside order in
      let message =
        polled-handed_over hash n some_partition w.system log p rest s.sound room inside order in
      let more : deliver w.processed (consume_partition allowed w.system.consumer w.system.disk p).2
          ≡ delivered_next w.processed p rest =
        ap (deliver w.processed) message
        ∙ deliver-handed_over w.processed p (length (w.system.delivered p)) rest in
      record {
        sound = sound;
        seen = λ q.
            rw (now, more) (Seen-polled log w.system.delivered w.processed b p rest s.seen refl q);
      }

  after_kill :
      (w : Watched) (log : ℕ → List Bytes) (b : ℕ → ℕ) (p : ℕ)
      → Stands w log b
      → Room hash n some_partition log 1
      → p < n
      → (log' : ℕ → List Bytes) × ((q : ℕ) → log' q ≡ log q)
        × Stands (step hash w (killed p)) log' (next_bound b p)
  unfolding step System.run System.step sent
  after_kill w log b p s room inside =
      let rest = (s.seen p).rest in
      let (log', sound, grows) =
        run-IsSound hash n some_partition (restart_consumer ∷ []) w.system log s.sound room tt in
      let same : (q : ℕ) → log' q ≡ log q = λ q. grows q ∙ append-nil (log q) in
      let message =
        uncommitted-polled w.system p s.sound.runs
        ∙ polled-handed_over hash n some_partition w.system log p rest s.sound
            (λ q. omega (arith, room q)) inside (s.seen p).order in
      let more : deliver w.processed (uncommitted w.system p) ≡ delivered_next w.processed p rest =
        ap (deliver w.processed) message
        ∙ deliver-handed_over w.processed p (length (w.system.delivered p)) rest in
      (
        log',
        same,
        record {
          sound = sound;
          seen = λ q.
              rw (more, same q)
                (Seen-killed log w.system.delivered w.processed b p rest s.seen refl q);
        },
      )

  run-Stands :
      (actions : List Action) (w : Watched) (log : ℕ → List Bytes) (b : ℕ → ℕ)
      → Stands w log b
      → Room hash n some_partition log (length actions)
      → Inside n actions
      → StandsAfter w log b actions
  unfolding run step polled System.step sent
  run-Stands [] w log b s room inside = (
    log,
    λ p. sym (append-nil (log p)),
    record {
      sound = s.sound;
      seen = λ q.
          Seen-later (log q) (w.system.delivered q) (w.processed q) (b q) (b q + 0) (omega arith)
            (s.seen q);
    },
  )
  run-Stands (does (send key message) ∷ actions) w log b s room inside =
      let (log', grows, t) =
        after_event w log b (send key message) s (λ p. omega (arith, room p)) tt refl in
      let (log'', more, u) =
        run-Stands actions (step hash w (does (send key message))) log' b t
          (λ p. ground (
            arith,
            ap length (grows p),
            length-append (log p) (message ∷ []),
            room p,
            append-nil (log p),
          ))
          inside in
      (
        log'',
        (λ p. more p ∙ elim (Bool-cases (hash key % n == p)) [
          | inl e ↦
              rw e at (ap (λ l. l ++ sent hash n p (events_of actions)) (grows p))
              ∙ rw (e, append_assoc) refl
          | inr e ↦
              rw e at (ap (λ l. l ++ sent hash n p (events_of actions)) (grows p))
              ∙ rw (e, append-nil) refl
        ]),
        u,
      )
  run-Stands (does (poll p) ∷ actions) w log b s room inside =
      run-Stands actions (step hash w (does (poll p))) log b
        (after_poll w log b p s (λ q. omega (arith, room q)) inside.0) (λ q. omega (arith, room q))
        inside.1
  run-Stands (does restart_producer ∷ actions) w log b s room inside =
      let (log', grows, t) =
        after_event w log b restart_producer s (λ p. omega (arith, room p)) tt refl in
      let (log'', more, u) =
        run-Stands actions (step hash w (does restart_producer)) log' b t
          (λ p. omega (arith, ap length (grows p ∙ append-nil (log p)), room p)) inside in
      (
        log'',
        (λ p.
            more p
            ∙ ap (λ l. l ++ sent hash n p (events_of actions)) (grows p ∙ append-nil (log p))),
        u,
      )
  run-Stands (does restart_consumer ∷ actions) w log b s room inside =
      let (log', grows, t) =
        after_event w log b restart_consumer s (λ p. omega (arith, room p)) tt refl in
      let (log'', more, u) =
        run-Stands actions (step hash w (does restart_consumer)) log' b t
          (λ p. omega (arith, ap length (grows p ∙ append-nil (log p)), room p)) inside in
      (
        log'',
        (λ p.
            more p
            ∙ ap (λ l. l ++ sent hash n p (events_of actions)) (grows p ∙ append-nil (log p))),
        u,
      )
  run-Stands (killed p ∷ actions) w log b s room inside =
      let (log', same, t) = after_kill w log b p s (λ q. omega (arith, room q)) inside.0 in
      let (log'', more, u) =
        run-Stands actions (step hash w (killed p)) log' (next_bound b p) t
          (λ q. omega (arith, ap length (same q), room q)) inside.1 in
      (
        log'',
        (λ q. more q ∙ ap (λ l. l ++ sent hash n q (events_of actions)) (same q)),
        record {
          sound = u.sound;
          seen = λ q.
              Seen-later (log'' q) _ _ (next_bound b p q + kills q actions)
                (b q + kills q (killed p ∷ actions)) (ground arith) (u.seen q);
        },
      )

pub fresh-Stands :
    (hash : Bytes → ℕ) (path group : Bytes) (n : ℕ) (actions : List Action)
    → (h : 0 < n) → length actions + 1 < 2 ^ 64
    → Inside n actions
    → StandsAfter hash n h (watched (fresh path group n)) (λ q. []) (λ q. 0) actions
unfolding fresh
fresh-Stands hash path group n actions h small inside =
    run-Stands hash n h actions (watched (fresh path group n)) (λ q. []) (λ q. 0)
      (record {
        sound = fresh-IsSound path group n;
        seen = λ q. record {
          times = [];
          j = 0;
          rest = [];
          order = refl;
          once = refl;
          seen = refl;
          few = omega arith;
        };
      })
      (λ q. omega (arith, small)) inside

-- Consumers of a fresh queue are killed and started again, also between the processing of a
-- message and its commit. Whatever the order of calls, polls, restarts and kills, what was
-- processed of a partition is the front of what was sent to it, message by message in order, each
-- once and with its repetitions right behind it, and perhaps some times the next message, which is
-- not committed; there are at most as many repetitions as kills. It holds for at least one
-- partition, fewer than 2^64 - 1 actions, polls of partitions that exist, no failing file
-- operation, and files that appear with their whole content.
pub processed-spread :
    (hash : Bytes → ℕ) (path group : Bytes) (n : ℕ) (actions : List Action)
    → 0 < n
    → length actions + 1 < 2 ^ 64
    → Inside n actions
    → (p : ℕ)
    → (times : List (Bytes × ℕ)) × (j : ℕ) × (rest : List Bytes) × (sent hash n p
          (events_of actions)
        ≡ firsts times ++ rest)
      × ((run hash (watched (fresh path group n)) actions).processed p
          ≡ spread times ++ again j rest)
      × (extra times + j ≤ kills p actions)
processed-spread hash path group n actions h small inside p =
    let (log, grows, stands) = fresh-Stands hash path group n actions h small inside in
    let s = stands.seen p in
    (
      s.times,
      s.j,
      s.rest,
      sym (grows p) ∙ s.order ∙ ap (λ l. l ++ s.rest) s.once,
      s.seen,
      omega (arith, s.few),
    )
