-- ===== src/ThreadPool/Tests.antt =====
-- Runs of the thread pool. A task is a number.
use systems_craft.Prelude.{ℕ, ◌≡◌, refl, List, [], ◌∷◌, ◌++◌, arith, replicate}
use systems_craft.ThreadPool.{enqueue, thread_pool, worker_turn, shut_down}
use systems_craft.ThreadPool.Runs.{
  Event, submit, turn, stopping, new_state, step, run, IsSound, run-IsSound,
}
use systems_craft.ThreadPool.Drain.{shut_down-drains}

abbrev events : List (Event ℕ)
events = submit 1 ∷ submit 2 ∷ submit 3 ∷ turn ∷ submit 4 ∷ []

-- With room for two tasks the third is refused.
accepted-events : (run (new_state 2 2) events).accepted ≡ 1 ∷ 2 ∷ 4 ∷ []
unfolding run step new_state thread_pool enqueue worker_turn
accepted-events = refl

-- A pool that is shutting down takes no task.
refused : (run {T = ℕ} (new_state 2 2) (stopping ∷ submit 1 ∷ [])).accepted ≡ []
unfolding run step new_state thread_pool enqueue shut_down
refused = refl

run-IsSound_example : IsSound 2 2 (run (new_state 2 2) events)
run-IsSound_example = run-IsSound 2 2 events (omega arith)

shut_down-drains_example :
    ((run (new_state 2 2) (events ++ stopping ∷ replicate 4 turn)).live ≡ 0)
    × ((run (new_state 2 2) (events ++ stopping ∷ replicate 4 turn)).started
        ≡ (run (new_state 2 2) events).accepted)
shut_down-drains_example = shut_down-drains 2 2 4 events (omega arith) (omega arith)
