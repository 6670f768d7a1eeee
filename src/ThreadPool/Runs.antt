-- ===== src/ThreadPool/Runs.antt =====
-- ThreadPool under every interleaving of clients, workers and shutdown.
use systems_craft.Prelude.{
  ℕ, ◌-◌, ◌≤◌, ◌<◌, ◌≡◌, ◌⊎◌, refl, sym, ap, ◌∙◌, inl, inr, true, List, [], ◌∷◌, ◌++◌, append_assoc,
  arith, leb, ◌==◌, if◌then◌else◌, Bool-cases, List-cases, length, length-append,
}
use systems_craft.ThreadPool.{
  ThreadPool, Turn, waits, exits, runs, thread_pool, enqueue, queue_size, worker_turn, shut_down,
}

-- The pool, the tasks that `enqueue` has accepted and that workers have started, in order, and how
-- many workers are in their loops.
pub record State {ℓ} (T : Type ℓ) : Type ℓ where
  pub pool : ThreadPool T
  pub accepted : List T
  pub started : List T
  pub live : ℕ

pub data Event {ℓ} (T : Type ℓ) : Type ℓ where
  submit : T → Event T
  turn stopping : Event T

module _ {ℓ} {T : Type ℓ} where
  unfoldable pub new_state : ℕ → ℕ → State T
  new_state num_threads max_queue_size = record {
    pool = thread_pool num_threads max_queue_size;
    accepted = [];
    started = [];
    live = num_threads;
  }

  abbrev after_turn : State T → ThreadPool T → Turn T → State T
  after_turn s pool waits = record s { pool = pool }
  after_turn s pool exits = record s { pool = pool; live = s.live - 1 }
  after_turn s pool (runs task) = record s { pool = pool; started = s.started ++ task ∷ [] }

  unfoldable pub step : State T → Event T → State T
  step s (submit task) =
      let (pool, ok) = enqueue s.pool task in
      record s { pool = pool; accepted = if ok then s.accepted ++ task ∷ [] else s.accepted }
  step s turn =
      if s.live == 0 then s else (let next = worker_turn s.pool in after_turn s next.0 next.1)
  step s stopping = record s { pool = shut_down s.pool }

  unfoldable pub run : State T → List (Event T) → State T
  run s [] = s
  run s (e ∷ events) = run (step s e) events

  -- Accepted tasks were started or wait, in order; the queue is within its bound; and workers are
  -- left as long as tasks wait, all of them until the shutdown.
  pub record IsSound (threads bound : ℕ) (s : State T) : Type ℓ where
    pub in_order : s.accepted ≡ s.started ++ s.pool.tasks
    pub bounded : queue_size s.pool ≤ bound
    pub same_bound : s.pool.max_queue_size ≡ bound
    pub at_most : s.live ≤ threads
    pub manned : (0 < s.live) ⊎ ((s.pool.tasks ≡ []) × (s.pool.stop ≡ true))

  submit-IsSound :
      (threads bound : ℕ) (s : State T) (task : T)
      → IsSound threads bound s
      → IsSound threads bound (step s (submit task))
  unfolding step enqueue queue_size
  submit-IsSound threads bound s task h =
      elim (Bool-cases (leb s.pool.max_queue_size (length s.pool.tasks))) [
        | inl full ↦ rw full h
        | inr room ↦ elim (Bool-cases s.pool.stop) [
          | inl t ↦
              rw (room, t)
                (record {
                  in_order = h.in_order;
                  bounded = h.bounded;
                  same_bound = h.same_bound;
                  at_most = h.at_most;
                  manned = elim h.manned [ inl m ↦ inl m | inr (e, _) ↦ inr (e, refl) ];
                })
          | inr f ↦
              rw (room, f)
                (record {
                  in_order = rw h.in_order (append_assoc s.started s.pool.tasks (task ∷ []));
                  bounded =
                      ground (arith, room, h.same_bound, length-append s.pool.tasks (task ∷ []));
                  same_bound = h.same_bound;
                  at_most = h.at_most;
                  manned = elim h.manned [ inl m ↦ inl m | inr (e, t) ↦ absurd (cc (t, f)) ];
                })
        ]
      ]

  turn-IsSound :
      (threads bound : ℕ) (s : State T)
      → IsSound threads bound s
      → IsSound threads bound (step s turn)
  unfolding step worker_turn queue_size
  turn-IsSound threads bound s h = elim (Bool-cases (s.live == 0)) [
    | inl idle ↦ rw idle h
    | inr busy ↦ elim (List-cases s.pool.tasks) [
      | inl none_left ↦ elim (Bool-cases s.pool.stop) [
        | inl t ↦
            rw (busy, none_left, t)
              (record {
                in_order = h.in_order ∙ rw none_left refl;
                bounded = omega arith;
                same_bound = h.same_bound;
                at_most = omega (arith, h.at_most);
                manned = inr (refl, refl);
              })
        | inr f ↦
            rw (busy, none_left, f)
              (record {
                in_order = h.in_order ∙ rw none_left refl;
                bounded = omega arith;
                same_bound = h.same_bound;
                at_most = h.at_most;
                manned = inl (ground (arith, busy));
              })
      ]
      | inr (task, rest, e) ↦
          rw (busy, e)
            (record {
              in_order = h.in_order ∙ rw e (sym (append_assoc s.started (task ∷ []) rest));
              bounded = omega (arith, h.bounded, ap length e);
              same_bound = h.same_bound;
              at_most = h.at_most;
              manned = inl (ground (arith, busy));
            })
    ]
  ]

  stopping-IsSound :
      (threads bound : ℕ) (s : State T)
      → IsSound threads bound s
      → IsSound threads bound (step s stopping)
  unfolding step shut_down queue_size
  stopping-IsSound threads bound s h = record {
    in_order = h.in_order;
    bounded = h.bounded;
    same_bound = h.same_bound;
    at_most = h.at_most;
    manned = elim h.manned [ inl m ↦ inl m | inr (e, _) ↦ inr (e, refl) ];
  }

  pub step-IsSound :
      (threads bound : ℕ) (e : Event T) (s : State T)
      → IsSound threads bound s
      → IsSound threads bound (step s e)
  step-IsSound threads bound (submit task) s h = submit-IsSound threads bound s task h
  step-IsSound threads bound turn s h = turn-IsSound threads bound s h
  step-IsSound threads bound stopping s h = stopping-IsSound threads bound s h

  run-IsSound_from :
      (threads bound : ℕ) (events : List (Event T)) (s : State T)
      → IsSound threads bound s
      → IsSound threads bound (run s events)
  unfolding run
  run-IsSound_from threads bound [] s h = h
  run-IsSound_from threads bound (e ∷ events) s h =
      run-IsSound_from threads bound events (step s e) (step-IsSound threads bound e s h)

  -- However clients, workers and the shutdown interleave, a pool with at least one worker starts
  -- the tasks that it has accepted in their order, each once; those not started wait in the queue,
  -- which is never longer than its bound, and a worker is there for them.
  pub run-IsSound :
      (threads bound : ℕ) (events : List (Event T))
      → 0 < threads
      → IsSound threads bound (run (new_state threads bound) events)
  unfolding new_state thread_pool queue_size
  run-IsSound threads bound events some_thread =
      run-IsSound_from threads bound events (new_state threads bound) (record {
        in_order = refl;
        bounded = omega arith;
        same_bound = refl;
        at_most = omega arith;
        manned = inl some_thread;
      })
