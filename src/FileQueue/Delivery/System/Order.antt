-- ===== src/FileQueue/Delivery/System/Order.antt =====
-- What the consumers of a fresh queue process and commit.
use systems_craft.Prelude.{
  ℕ, zero, suc, ◌+◌, ◌^◌, ◌≤◌, ◌<◌, ◌≡◌, refl, sym, ap, ◌∙◌, List, [], ◌∷◌, ◌++◌, arith, Bytes,
  length, false, true, length-append, replicate, append-nil, append_assoc, get_or, lookup, ◌==◌,
}
use systems_craft.FileQueue.Disk.{stored_offset}
use systems_craft.FileQueue.Producer
use systems_craft.FileQueue.Producer.{partitioned_queue}
use systems_craft.FileQueue.Consumer
use systems_craft.FileQueue.Consumer.{queue_consumer, start}
use systems_craft.FileQueue.Recovery.{partitioned_queue-Stores, zeros-length}
use systems_craft.FileQueue.Stores.{Stores}
use systems_craft.FileQueue.Delivery.{Delivers}
use systems_craft.FileQueue.Delivery.System.{
  System, Event, send, poll, restart_producer, restart_consumer, step, run, fresh, sent,
  PollsInside, IsSound,
}
use systems_craft.FileQueue.Delivery.System.Runs.{Room, run-IsSound, step_poll-lem, start-Delivers}
use systems_craft.FileQueue.Delivery.Restart.{queue_consumer-Delivers}

zero_or-past : (n p : ℕ) → get_or {A = ℕ} (replicate n 0) p 0 ≡ 0
zero_or-past zero p = refl
zero_or-past (suc n) zero = refl
zero_or-past (suc n) (suc p) = zero_or-past n p

blank-Stores :
    (path : Bytes) (n : ℕ)
    → Stores (record { base_path = path; num_partitions = n; offsets = replicate n 0 }) [] (λ p. [])
unfolding lookup stored_offset
blank-Stores path n = record {
  width = zeros-length n;
  counted = zero_or-past n;
  messages = λ p o. refl;
  tracked = λ p. refl;
}

blank-Delivers :
    (path group : Bytes) (n : ℕ)
    → Delivers
        (record {
          queue_path = path;
          consumer_group = group;
          num_partitions = n;
          read_offsets = replicate n 0;
          running = false;
        })
        []
        (λ p. [])
        (λ p. [])
unfolding lookup stored_offset
blank-Delivers path group n = record {
  width = zeros-length n;
  counted = zero_or-past n;
  front = λ p. ([], refl);
  committed = λ p. refl;
}

pub fresh-IsSound : (path group : Bytes) (n : ℕ) → IsSound n (fresh path group n) (λ p. [])
unfolding fresh start queue_consumer Consumer.load_offsets partitioned_queue Producer.load_offsets
    lookup stored_offset
fresh-IsSound path group n = record {
  stores = partitioned_queue-Stores _ [] (λ p. []) (blank-Stores path n);
  delivers =
      start-Delivers _ [] (λ p. []) (λ p. [])
        (queue_consumer-Delivers _ [] (λ p. []) (λ p. []) path (blank-Delivers path group n));
  same_path = refl;
  runs = refl;
  producer_width = refl;
  consumer_width = refl;
}

-- Whatever the order of calls, polls and restarts between rounds, what the consumers have processed
-- and committed of a partition is the front of what was sent to it.
pub delivered_front :
    (hash : Bytes → ℕ) (path group : Bytes) (n : ℕ) (events : List Event)
    → 0 < n
    → length events + 1 < 2 ^ 64
    → PollsInside n events
    → (p : ℕ)
    → (rest : List Bytes) × (sent hash n p events
        ≡ (run hash (fresh path group n) events).delivered p ++ rest)
delivered_front hash path group n events h small inside p =
    let (log, sound, grows) =
      run-IsSound hash n h events (fresh path group n) (λ p'. []) (fresh-IsSound path group n)
        (λ p'. omega arith) inside in
    ((sound.delivers.front p).0, sym (grows p) ∙ (sound.delivers.front p).1)

pub run-append :
    (hash : Bytes → ℕ) (events more : List Event) (sys : System)
    → run hash sys (events ++ more) ≡ run hash (run hash sys events) more
unfolding run
run-append hash [] more sys = refl
run-append hash (e ∷ events) more sys = run-append hash events more (step hash sys e)

-- Polling often enough delivers the rest of the log.
drain :
    (hash : Bytes → ℕ) (n : ℕ) (h : 0 < n) (k p : ℕ) (sys : System) (log : ℕ → List Bytes)
    (rest : List Bytes)
    → IsSound n sys log
    → Room hash n h log 0
    → p < n
    → log p ≡ sys.delivered p ++ rest
    → length rest ≤ k
    → (run hash sys (replicate k (poll p))).delivered p ≡ log p
unfolding run
drain hash n h zero p sys log [] s room inside e le = sym (append-nil (sys.delivered p)) ∙ sym e
drain hash n h (suc k) p sys log [] s room inside e le =
    let (kept, now) = step_poll-lem hash n h sys log p [] s room inside e in
    drain hash n h k p (step hash sys (poll p)) log [] kept room inside (rw now e) (omega arith)
drain hash n h zero p sys log (m ∷ rest) s room inside e le = absurd (omega arith)
drain hash n h (suc k) p sys log (m ∷ rest) s room inside e le =
    let (kept, now) = step_poll-lem hash n h sys log p (m ∷ rest) s room inside e in
    let self : (p == p) ≡ true = ground arith in
    drain hash n h k p (step hash sys (poll p)) log rest kept room inside
      (rw (now, self, append_assoc) e) (omega arith)

length-sent :
    (hash : Bytes → ℕ) (n p : ℕ) (events : List Event)
    → length (sent hash n p events) ≤ length events
unfolding sent
length-sent hash n p [] = omega arith
length-sent hash n p (send key m ∷ events) = ground (arith, length-sent hash n p events)
length-sent hash n p (poll i ∷ events) = omega (arith, length-sent hash n p events)
length-sent hash n p (restart_producer ∷ events) = omega (arith, length-sent hash n p events)
length-sent hash n p (restart_consumer ∷ events) = omega (arith, length-sent hash n p events)

-- As many further polls of an existing partition as messages were sent to it have them all
-- processed and committed.
pub delivered_all :
    (hash : Bytes → ℕ) (path group : Bytes) (n k p : ℕ) (events : List Event)
    → 0 < n
    → length events + 1 < 2 ^ 64
    → PollsInside n events
    → p < n
    → length (sent hash n p events) ≤ k
    → (run hash (fresh path group n) (events ++ replicate k (poll p))).delivered p
      ≡ sent hash n p events
delivered_all hash path group n k p events h small inside p_inside enough =
    let sys = run hash (fresh path group n) events in
    let (log, sound, grows) =
      run-IsSound hash n h events (fresh path group n) (λ p'. []) (fresh-IsSound path group n)
        (λ p'. omega arith) inside in
    let front = sound.delivers.front p in
    ap (λ (y : System). y.delivered p)
      (run-append hash events (replicate k (poll p)) (fresh path group n))
    ∙ drain hash n h k p sys log front.0 sound
        (λ p'. omega (arith, ap length (grows p'), length-sent hash n p' events)) p_inside front.1
        (omega
          (arith, ap length (grows p), ap length front.1, length-append (sys.delivered p) front.0))
    ∙ grows p
