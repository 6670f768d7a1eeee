-- ===== src/FileQueue/Delivery/System/Kills.antt =====
-- Consumers that are killed between the processing of a message and its commit, and started again:
-- the message is processed again. A message's file and a committed offset appear with their whole
-- content: no process dies in the middle of a file's write, and none reads a file meanwhile.
use systems_craft.Prelude.{
  ℕ, suc, ◌+◌, ◌<◌, List, [], ◌∷◌, ◌++◌, Option, none, Bytes, replicate, ◌==◌, if◌then◌else◌,
}
use systems_craft.FileQueue.Consumer.{Message, read_next, consume_partition}
use systems_craft.FileQueue.Delivery.System
use systems_craft.FileQueue.Delivery.System.{
  System, Event, send, poll, restart_producer, restart_consumer, allowed, deliver,
}

-- `killed p`: the thread of partition `p` has processed the message that it read when the process
-- dies. Where several threads have, there is one such action for each.
pub data Action : Type 0 where
  does : Event → Action
  killed : ℕ → Action

-- `processed p` records what consumers have processed of partition `p`, committed or not.
pub record Watched : Type 0 where
  pub system : System
  pub processed : ℕ → List Bytes

unfoldable pub polled : System → Event → Option Message
polled sys (send key message) = none
polled sys (poll p) = (consume_partition allowed sys.consumer sys.disk p).2
polled sys restart_producer = none
polled sys restart_consumer = none

unfoldable pub uncommitted : System → ℕ → Option Message
uncommitted sys p = if sys.consumer.running then (read_next sys.consumer sys.disk p).1 else none

unfoldable pub step : (Bytes → ℕ) → Watched → Action → Watched
unfolding polled uncommitted
step hash w (does e) = record {
  system = System.step hash w.system e;
  processed = deliver w.processed (polled w.system e);
}
step hash w (killed p) = record {
  system = System.step hash w.system restart_consumer;
  processed = deliver w.processed (uncommitted w.system p);
}

unfoldable pub run : (Bytes → ℕ) → Watched → List Action → Watched
unfolding step
run hash w [] = w
run hash w (a ∷ actions) = run hash (step hash w a) actions

abbrev pub watched : System → Watched
watched sys = record { system = sys; processed = λ p. [] }

-- What the actions amount to for the files and what the consumers hold in memory.
abbrev pub events_of : List Action → List Event
events_of [] = []
events_of (does e ∷ actions) = e ∷ events_of actions
events_of (killed p ∷ actions) = restart_consumer ∷ events_of actions

-- The kills in partition `p`.
abbrev pub kills : ℕ → List Action → ℕ
kills p [] = 0
kills p (does e ∷ actions) = kills p actions
kills p (killed q ∷ actions) = let rest = kills p actions in if q == p then suc rest else rest

-- Only partitions that exist are polled.
abbrev pub Inside : ℕ → List Action → Type 0
Inside n [] = Unit
Inside n (does (poll p) ∷ actions) = (p < n) × Inside n actions
Inside n (does _ ∷ actions) = Inside n actions
Inside n (killed p ∷ actions) = (p < n) × Inside n actions

-- Each message with the number of its repetitions.
abbrev pub firsts : List (Bytes × ℕ) → List Bytes
firsts [] = []
firsts ((m, k) ∷ times) = m ∷ firsts times

abbrev pub spread : List (Bytes × ℕ) → List Bytes
spread [] = []
spread ((m, k) ∷ times) = replicate (suc k) m ++ spread times

abbrev pub extra : List (Bytes × ℕ) → ℕ
extra [] = 0
extra ((m, k) ∷ times) = k + extra times

-- The next message, `j` times.
abbrev pub again : ℕ → List Bytes → List Bytes
again j [] = []
again j (m ∷ rest) = replicate j m
