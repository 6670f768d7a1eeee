-- ===== src/ThreadPool/Drain.antt =====
-- The shutdown of ThreadPool: the destructor's joins end, with every accepted task started.
use systems_craft.Prelude.{
  ℕ, zero, suc, ◌+◌, ◌-◌, ◌≤◌, ◌<◌, ◌≡◌, refl, sym, ap, ◌∙◌, inl, inr, true, List, [], ◌∷◌, ◌++◌,
  append-nil, arith, ◌==◌, Bool-cases, List-cases, length, replicate,
}
use systems_craft.ThreadPool.{queue_size, worker_turn, shut_down}
use systems_craft.ThreadPool.Runs.{
  State, Event, turn, stopping, new_state, step, run, IsSound, step-IsSound, run-IsSound,
}

module _ {ℓ} {T : Type ℓ} where
  -- What a stopped pool still has to do.
  abbrev left_over : State T → ℕ
  left_over s = length s.pool.tasks + s.live

  -- A turn of a stopped pool does some of it, accepts nothing, and does not start the pool again.
  record Works (s s' : State T) : Type ℓ where
    less : left_over s' ≤ left_over s - 1
    accepted_same : s'.accepted ≡ s.accepted
    still : s'.pool.stop ≡ true

  turn-Works :
      (threads bound : ℕ) (s : State T)
      → IsSound threads bound s
      → s.pool.stop ≡ true
      → Works s (step s turn)
  unfolding step worker_turn
  turn-Works threads bound s h stopped = elim (Bool-cases (s.live == 0)) [
    | inl idle ↦
        let nobody : s.live ≡ 0 = ground (arith, idle) in
        rw idle (record {
          less = elim h.manned [
            | inl m ↦ absurd (omega arith)
            | inr (e, t) ↦ omega (arith, ap length e)
          ];
          accepted_same = refl;
          still = stopped;
        })
    | inr busy ↦
        let somebody : 0 < s.live = ground (arith, busy) in
        elim (List-cases s.pool.tasks) [
          | inl e ↦
              rw (busy, e, stopped)
                (record { less = omega (arith, ap length e); accepted_same = refl; still = refl })
          | inr (task, rest, e) ↦
              rw (busy, e)
                (record {
                  less = omega (arith, ap length e);
                  accepted_same = refl;
                  still = stopped;
                })
        ]
  ]

  drain :
      (threads bound k : ℕ) (s : State T)
      → IsSound threads bound s
      → s.pool.stop ≡ true
      → left_over s ≤ k
      → ((run s (replicate k turn)).live ≡ 0) × ((run s (replicate k turn)).started ≡ s.accepted)
  unfolding run
  drain threads bound zero s h stopped enough = (
    omega arith,
    elim (List-cases s.pool.tasks) [
      | inl e ↦ sym (h.in_order ∙ rw e (append-nil s.started))
      | inr (task, rest, e) ↦ absurd (omega (arith, ap length e))
    ],
  )
  drain threads bound (suc k) s h stopped enough =
      let w = turn-Works threads bound s h stopped in
      let ih =
        drain threads bound k (step s turn) (step-IsSound threads bound turn s h) w.still
          (omega (arith, w.less)) in
      (ih.0, ih.1 ∙ w.accepted_same)

  run-append :
      (s : State T) (events more : List (Event T))
      → run s (events ++ more) ≡ run (run s events) more
  unfolding run
  run-append s [] more = refl
  run-append s (e ∷ events) more = run-append (step s e) events more

  -- After any run of a pool with at least one worker, the shutdown and then as many worker turns
  -- as the queue's bound and the workers are together end all workers, and every task that was
  -- ever accepted has been started, in order.
  pub shut_down-drains :
      (threads bound k : ℕ) (events : List (Event T))
      → 0 < threads
      → bound + threads ≤ k
      → ((run (new_state threads bound) (events ++ stopping ∷ replicate k turn)).live ≡ 0)
        × ((run (new_state threads bound) (events ++ stopping ∷ replicate k turn)).started
            ≡ (run (new_state threads bound) events).accepted)
  unfolding run step shut_down queue_size
  shut_down-drains threads bound k events some_thread enough =
      let s = run (new_state threads bound) events in
      let h = run-IsSound threads bound events some_thread in
      let e : run (new_state threads bound) (events ++ stopping ∷ replicate k turn)
          ≡ run (step s stopping) (replicate k turn) =
        run-append (new_state threads bound) events (stopping ∷ replicate k turn) in
      let drained =
        drain threads bound k (step s stopping) (step-IsSound threads bound stopping s h) refl
          (omega (arith, h.bounded, h.at_most)) in
      (ap (λ (y : State T). y.live) e ∙ drained.0, ap (λ (y : State T). y.started) e ∙ drained.1)
