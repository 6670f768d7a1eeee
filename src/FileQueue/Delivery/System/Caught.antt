-- ===== src/FileQueue/Delivery/System/Caught.antt =====
-- Consumers that were killed, after enough polls.
use systems_craft.Prelude.{
  ℕ, zero, suc, ◌+◌, ◌^◌, ◌≤◌, ◌<◌, ◌≡◌, refl, sym, ap, ◌∙◌, List, [], ◌∷◌, ◌++◌, arith, Bytes,
  length, length-append, replicate, append-nil,
}
use systems_craft.FileQueue.Delivery.System
use systems_craft.FileQueue.Delivery.System.{
  System, Event, send, poll, restart_producer, restart_consumer, sent, fresh, PollsInside,
}
use systems_craft.FileQueue.Delivery.System.Order.{delivered_all}
use systems_craft.FileQueue.Delivery.System.Kills.{
  Action, does, killed, Watched, step, run, watched, events_of, kills, Inside, firsts, spread,
  extra, again,
}
use systems_craft.FileQueue.Delivery.System.Repeats.{fresh-Stands}

system-run :
    (hash : Bytes → ℕ) (actions : List Action) (w : Watched)
    → (run hash w actions).system ≡ System.run hash w.system (events_of actions)
unfolding run System.run step
system-run hash [] w = refl
system-run hash (does e ∷ actions) w = system-run hash actions (step hash w (does e))
system-run hash (killed p ∷ actions) w = system-run hash actions (step hash w (killed p))

Inside-events_of :
    (n : ℕ) (actions : List Action) → Inside n actions → PollsInside n (events_of actions)
Inside-events_of n [] h = tt
Inside-events_of n (does (send key message) ∷ actions) h = Inside-events_of n actions h
Inside-events_of n (does (poll p) ∷ actions) h = (h.0, Inside-events_of n actions h.1)
Inside-events_of n (does restart_producer ∷ actions) h = Inside-events_of n actions h
Inside-events_of n (does restart_consumer ∷ actions) h = Inside-events_of n actions h
Inside-events_of n (killed p ∷ actions) h = Inside-events_of n actions h.1

length-events_of : (actions : List Action) → length (events_of actions) ≡ length actions
length-events_of [] = refl
length-events_of (does e ∷ actions) = ap suc (length-events_of actions)
length-events_of (killed p ∷ actions) = ap suc (length-events_of actions)

-- Further polls of a partition that exists.
record Polled (n p k : ℕ) (actions : List Action) : Type 0 where
  inside : Inside n (actions ++ replicate k (does (poll p)))
  events :
      events_of (actions ++ replicate k (does (poll p))) ≡ events_of actions ++ replicate k (poll p)
  same : kills p (actions ++ replicate k (does (poll p))) ≡ kills p actions
  long : length (actions ++ replicate k (does (poll p))) ≡ length actions + k

polls-Polled : (n p k : ℕ) (actions : List Action) → p < n → Inside n actions → Polled n p k actions
polls-Polled n p zero [] h i = record { inside = tt; events = refl; same = refl; long = refl }
polls-Polled n p (suc k) [] h i =
    let t = polls-Polled n p k [] h i in
    record {
      inside = (h, t.inside);
      events = ap (◌∷◌ (poll p)) t.events;
      same = t.same;
      long = omega (arith, t.long);
    }
polls-Polled n p k (does (send key message) ∷ actions) h i =
    let t = polls-Polled n p k actions h i in
    record {
      inside = t.inside;
      events = ap (◌∷◌ (send key message)) t.events;
      same = t.same;
      long = omega (arith, t.long);
    }
polls-Polled n p k (does (poll q) ∷ actions) h i =
    let t = polls-Polled n p k actions h i.1 in
    record {
      inside = (i.0, t.inside);
      events = ap (◌∷◌ (poll q)) t.events;
      same = t.same;
      long = omega (arith, t.long);
    }
polls-Polled n p k (does restart_producer ∷ actions) h i =
    let t = polls-Polled n p k actions h i in
    record {
      inside = t.inside;
      events = ap (◌∷◌ restart_producer) t.events;
      same = t.same;
      long = omega (arith, t.long);
    }
polls-Polled n p k (does restart_consumer ∷ actions) h i =
    let t = polls-Polled n p k actions h i in
    record {
      inside = t.inside;
      events = ap (◌∷◌ restart_consumer) t.events;
      same = t.same;
      long = omega (arith, t.long);
    }
polls-Polled n p k (killed q ∷ actions) h i =
    let t = polls-Polled n p k actions h i.1 in
    record {
      inside = (i.0, t.inside);
      events = ap (◌∷◌ restart_consumer) t.events;
      same = ground (arith, t.same);
      long = omega (arith, t.long);
    }

sent-polls :
    (hash : Bytes → ℕ) (n p k q : ℕ) (events : List Event)
    → sent hash n q (events ++ replicate k (poll p)) ≡ sent hash n q events
unfolding sent
sent-polls hash n p zero q [] = refl
sent-polls hash n p (suc k) q [] = sent-polls hash n p k q []
sent-polls hash n p k q (send key message ∷ events) = rw (sent-polls hash n p k q events) refl
sent-polls hash n p k q (poll i ∷ events) = sent-polls hash n p k q events
sent-polls hash n p k q (restart_producer ∷ events) = sent-polls hash n p k q events
sent-polls hash n p k q (restart_consumer ∷ events) = sent-polls hash n p k q events

append-none : (xs ys : List Bytes) → length (xs ++ ys) ≤ length xs → ys ≡ []
append-none xs [] h = refl
append-none xs (y ∷ ys) h = absurd (omega (arith, length-append xs (y ∷ ys)))

-- Consumers of a fresh queue are killed and started again, also between the processing of a
-- message and its commit. After any order of calls, polls, restarts and kills, as many further
-- polls of an existing partition as messages were sent to it have every message processed, in
-- order, each with its repetitions right behind it, and there are at most as many repetitions as
-- kills. There are fewer than 2^64 - 1 actions with the polls, only existing partitions are polled,
-- no file operation fails, and files appear with their whole content.
pub processed-all :
    (hash : Bytes → ℕ) (path group : Bytes) (n k p : ℕ) (actions : List Action)
    → 0 < n
    → length actions + k + 1 < 2 ^ 64
    → Inside n actions
    → p < n
    → length (sent hash n p (events_of actions)) ≤ k
    → (times : List (Bytes × ℕ)) × (firsts times ≡ sent hash n p (events_of actions))
      × ((run hash
              (watched (fresh path group n))
              (actions ++ replicate k (does (poll p)))).processed
            p
          ≡ spread times)
      × (extra times ≤ kills p actions)
processed-all hash path group n k p actions h small inside p_inside enough =
    let all = actions ++ replicate k (does (poll p)) in
    let t = polls-Polled n p k actions p_inside inside in
    let (log, grows, stands) =
      fresh-Stands hash path group n all h (omega (arith, t.long, small)) t.inside in
    let s = stands.seen p in
    let done : (run hash (watched (fresh path group n)) all).system.delivered p
        ≡ sent hash n p (events_of actions) =
      ap (λ (y : System). y.delivered p)
        (system-run hash all (watched (fresh path group n))
          ∙ ap (System.run hash (fresh path group n)) t.events)
      ∙ delivered_all hash path group n k p (events_of actions) h
          (omega (arith, length-events_of actions, small)) (Inside-events_of n actions inside)
          p_inside enough in
    let whole : log p ≡ sent hash n p (events_of actions) =
      grows p ∙ ap (sent hash n p) t.events ∙ sent-polls hash n p k p (events_of actions) in
    let none_left : s.rest ≡ [] =
      append-none ((run hash (watched (fresh path group n)) all).system.delivered p) s.rest
        (omega (arith, ap length (sym s.order ∙ whole), ap length done)) in
    (
      s.times,
      sym s.once ∙ done,
      s.seen ∙ ap (λ l. spread s.times ++ again s.j l) none_left ∙ append-nil (spread s.times),
      omega (arith, s.few, t.same),
    )
