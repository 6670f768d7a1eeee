-- ===== src/ThreadPool.antt =====
-- include/thread_pool.h and src/thread_pool.cpp: the class ThreadPool. What a thread does while it
-- holds the queue's mutex is one step. A task runs outside the lock, and what it throws is caught,
-- so it does not touch the pool; its type is the parameter `T`.
pub mod Runs
pub mod Drain
mod Tests
use systems_craft.Prelude.{
  ℕ, ◌-◌, Bool, true, false, List, [], ◌∷◌, ◌++◌, leb, ◌==◌, if◌then◌else◌, length,
}

pub record ThreadPool {ℓ} (T : Type ℓ) : Type ℓ where
  pub num_threads : ℕ
  pub max_queue_size : ℕ
  pub tasks : List T
  pub stop : Bool

-- What a worker does after its pass under the lock: wait on for the condition, leave its loop, or
-- run a task.
pub data Turn {ℓ} (T : Type ℓ) : Type ℓ where
  waits exits : Turn T
  runs : T → Turn T

module _ {ℓ} {T : Type ℓ} where
  unfoldable pub thread_pool : ℕ → ℕ → ThreadPool T
  thread_pool num_threads max_queue_size = record {
    num_threads = num_threads;
    max_queue_size = max_queue_size;
    tasks = [];
    stop = false;
  }

  unfoldable pub enqueue : ThreadPool T → T → ThreadPool T × Bool
  enqueue pool task =
      if leb pool.max_queue_size (length pool.tasks)
      then (pool, false)
      else if pool.stop
      then (pool, false)
      else (record pool { tasks = pool.tasks ++ task ∷ [] }, true)

  pub queue_size : ThreadPool T → ℕ
  queue_size pool = length pool.tasks

  -- The pass of `worker_loop` under the lock.
  unfoldable pub worker_turn : ThreadPool T → ThreadPool T × Turn T
  worker_turn pool = elim pool.tasks [
    | [] ↦ if pool.stop then (pool, exits) else (pool, waits)
    | task ∷ rest ↦ (record pool { tasks = rest }, runs task)
  ]

  -- The destructor's change of the flag, before it joins the workers.
  pub shut_down : ThreadPool T → ThreadPool T
  shut_down pool = record pool { stop = true }
