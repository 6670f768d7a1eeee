-- ===== src/Http/Lifecycle/Stop.antt =====
-- What HttpServer::stop achieves.
use systems_craft.Prelude.{
  ℕ, suc, ◌-◌, ◌≤◌, ◌≡◌, refl, ap, ◌∙◌, Bool, true, false, List, [], ◌∷◌, Option, none, some, arith,
  length,
}
use systems_craft.Http.{HttpRequest, HttpResponse}
use systems_craft.Http.Server
use systems_craft.Http.Server.{HttpServer, accepts, works, accept_round, work_round}
use systems_craft.Http.Server.Accounts.{accepted}
use systems_craft.Http.Lifecycle.{
  Thread, no_thread, opening, looping, accepting, ended, Lifecycle, no_socket, bind_failed,
  listen_failed, listens, lifecycle, stop, join, run_server, Move, listener, worker, joins, Event,
  moved, move, moves, step, run,
}
use systems_craft.Http.Lifecycle.Tidy.{
  at, has_socket, IsTidy, run-IsTidy, step-IsTidy, lifecycle-IsTidy, stop-IsTidy, join-IsTidy,
}

-- How many turns the thread has at most before it ends, once the flag is off.
abbrev left : Thread → ℕ
left no_thread = 0
left opening = 2
left looping = 1
left accepting = 2
left ended = 0

-- How many connections it may still take.
abbrev open_accepts : Thread → ℕ
open_accepts no_thread = 0
open_accepts opening = 0
open_accepts looping = 0
open_accepts accepting = 1
open_accepts ended = 0

abbrev pub listener_turns : List Move → ℕ
listener_turns [] = 0
listener_turns (listener o a ∷ rest) = suc (listener_turns rest)
listener_turns (worker received ∷ rest) = listener_turns rest
listener_turns (joins ∷ rest) = listener_turns rest

module _ {ℓ} {H S : Type ℓ} (handle : H → HttpRequest → S → S × Option HttpResponse) where
  -- What turns do to a server whose flag is off.
  record Quiet (before : Thread) (server : HttpServer H S) (given : ℕ) (after : Lifecycle H S)
      : Type ℓ where
    off : after.running ≡ false
    near : left after.thread ≤ left before - given
    events : List Server.Event
    few : length (accepted events) ≤ open_accepts before
    same : after.server ≡ Server.run handle server events

  nearer :
      (t u : Thread) (server : HttpServer H S) (given : ℕ) (after : Lifecycle H S)
      → left u ≤ left t - 1
      → open_accepts u ≤ open_accepts t
      → Quiet u server given after
      → Quiet t server (suc given) after
  nearer t u server given after less fewer q = record {
    off = q.off;
    near = omega (arith, q.near);
    events = q.events;
    few = omega (arith, q.few);
    same = q.same;
  }

  moves-Quiet :
      (turns : List Move) (j : Bool) (t : Thread) (l x : Bool) (server : HttpServer H S)
      → Quiet t server (listener_turns turns) (moves handle (at false j t l x server) turns)
  unfolding moves move run_server join Server.run Server.step
  moves-Quiet [] j t l x server = record {
    off = refl;
    near = omega arith;
    events = [];
    few = omega arith;
    same = refl;
  }
  moves-Quiet (worker received ∷ rest) j t l x server =
      let q = moves-Quiet rest j t l x (work_round handle received server) in
      record {
        off = q.off;
        near = q.near;
        events = works received ∷ q.events;
        few = q.few;
        same = q.same;
      }
  moves-Quiet (joins ∷ rest) j no_thread l x server = moves-Quiet rest j no_thread l x server
  moves-Quiet (joins ∷ rest) j opening l x server = moves-Quiet rest j opening l x server
  moves-Quiet (joins ∷ rest) j looping l x server = moves-Quiet rest j looping l x server
  moves-Quiet (joins ∷ rest) j accepting l x server = moves-Quiet rest j accepting l x server
  moves-Quiet (joins ∷ rest) true ended l x server =
      let q = moves-Quiet rest false no_thread l x server in
      record { off = q.off; near = q.near; events = q.events; few = q.few; same = q.same }
  moves-Quiet (joins ∷ rest) false ended l x server = moves-Quiet rest false ended l x server
  moves-Quiet (listener o a ∷ rest) j no_thread l x server =
      nearer no_thread no_thread server (listener_turns rest) _ (omega arith) (omega arith)
        (moves-Quiet rest j no_thread l x server)
  moves-Quiet (listener no_socket a ∷ rest) j opening l x server =
      nearer opening ended server (listener_turns rest) _ (omega arith) (omega arith)
        (moves-Quiet rest j ended false x server)
  moves-Quiet (listener bind_failed a ∷ rest) j opening l x server =
      nearer opening ended server (listener_turns rest) _ (omega arith) (omega arith)
        (moves-Quiet rest j ended false x server)
  moves-Quiet (listener listen_failed a ∷ rest) j opening l x server =
      nearer opening ended server (listener_turns rest) _ (omega arith) (omega arith)
        (moves-Quiet rest j ended false x server)
  moves-Quiet (listener listens a ∷ rest) j opening l x server =
      nearer opening looping server (listener_turns rest) _ (omega arith) (omega arith)
        (moves-Quiet rest j looping true x server)
  moves-Quiet (listener o a ∷ rest) j looping l x server =
      nearer looping ended server (listener_turns rest) _ (omega arith) (omega arith)
        (moves-Quiet rest j ended false x server)
  moves-Quiet (listener o none ∷ rest) j accepting l x server =
      nearer accepting looping server (listener_turns rest) _ (omega arith) (omega arith)
        (moves-Quiet rest j looping l x server)
  moves-Quiet (listener o (some s) ∷ rest) j accepting l x server =
      let q = moves-Quiet rest j looping l x (accept_round handle s server) in
      record {
        off = q.off;
        near = omega (arith, q.near);
        events = accepts s ∷ q.events;
        few = omega (arith, q.few);
        same = q.same;
      }
  moves-Quiet (listener o a ∷ rest) j ended l x server =
      nearer ended ended server (listener_turns rest) _ (omega arith) (omega arith)
        (moves-Quiet rest j ended l x server)

  moves-IsTidy :
      (cycle : Lifecycle H S) (turns : List Move) → IsTidy cycle → IsTidy (moves handle cycle turns)
  unfolding moves step
  moves-IsTidy c [] t = t
  moves-IsTidy c (turn ∷ rest) t =
      moves-IsTidy (move handle c turn) rest (step-IsTidy handle c (moved turn) t)

  -- A thread whose flag is off and that has no turn left is joined.
  join-near_at :
      (r j : Bool) (t : Thread) (l x : Bool) (server : HttpServer H S)
      → r ≡ false
      → left t ≡ 0
      → IsTidy (at r j t l x server)
      → (join (at r j t l x server)).thread ≡ no_thread
  unfolding join
  join-near_at r j no_thread l x server off near t = refl
  join-near_at r j opening l x server off near t = absurd (omega (arith, near))
  join-near_at r j looping l x server off near t = absurd (omega (arith, near))
  join-near_at r j accepting l x server off near t = absurd (omega (arith, near))
  join-near_at r true ended l x server off near t = refl
  join-near_at r false ended l x server off near t = t.at_rest off refl

  join-keeps_at :
      (r j : Bool) (t : Thread) (l x : Bool) (server : HttpServer H S)
      → ((join (at r j t l x server)).running ≡ r) × ((join (at r j t l x server)).server ≡ server)
  unfolding join
  join-keeps_at r j no_thread l x server = (refl, refl)
  join-keeps_at r j opening l x server = (refl, refl)
  join-keeps_at r j looping l x server = (refl, refl)
  join-keeps_at r j accepting l x server = (refl, refl)
  join-keeps_at r true ended l x server = (refl, refl)
  join-keeps_at r false ended l x server = (refl, refl)

  stop-off_at :
      (r j : Bool) (t : Thread) (l x : Bool) (server : HttpServer H S)
      → (j' : Bool) × (stop (at r j t l x server) ≡ at false j' t l x server)
  unfolding stop
  stop-off_at true j t l x server = (true, refl)
  stop-off_at false j t l x server = (j, refl)

  left-le-two : (t : Thread) → left t ≤ 2
  left-le-two no_thread = omega arith
  left-le-two opening = omega arith
  left-le-two looping = omega arith
  left-le-two accepting = omega arith
  left-le-two ended = omega arith

  open_accepts-le-one : (t : Thread) → open_accepts t ≤ 1
  open_accepts-le-one no_thread = omega arith
  open_accepts-le-one opening = omega arith
  open_accepts-le-one looping = omega arith
  open_accepts-le-one accepting = omega arith
  open_accepts-le-one ended = omega arith

  -- Whatever the server did before, if no `start` during a `stop` has ended the program, `stop` lets
  -- at most one more connection in, whatever the turns of the threads behind it, and two turns of
  -- the server's thread are enough for its `join` to return: then the flag is off, the thread is
  -- gone and the server's socket is closed.
  pub moves-stop :
      (server : HttpServer H S) (events : List Event) (turns : List Move)
      → (run handle (lifecycle server) events).terminated ≡ false
      → 2 ≤ listener_turns turns
      → let before = run handle (lifecycle server) events in
        let after = join (moves handle (stop before) turns) in
        (after.running ≡ false)
        × (after.thread ≡ no_thread)
        × (after.listening ≡ false)
        × ((reached : List Server.Event) × (length (accepted reached) ≤ 1)
            × (after.server ≡ Server.run handle before.server reached))
  moves-stop server events turns alive enough =
      let c = run handle (lifecycle server) events in
      let tidy = run-IsTidy handle (lifecycle server) events (lifecycle-IsTidy handle server) in
      let (j, halted) =
        stop-off_at c.running c.joining c.thread c.listening c.terminated c.server in
      let stopped =
        stop-IsTidy handle c.running c.joining c.thread c.listening c.terminated c.server tidy in
      let last = moves handle (stop c) turns in
      let later : IsTidy last = moves-IsTidy (stop c) turns stopped in
      let q : Quiet c.thread c.server (listener_turns turns) last =
        rw halted (moves-Quiet turns j c.thread c.listening c.terminated c.server) in
      let gone =
        join-near_at last.running last.joining last.thread last.listening last.terminated
          last.server q.off (omega (arith, q.near, left-le-two c.thread)) later in
      let joined =
        join-IsTidy handle last.running last.joining last.thread last.listening last.terminated
          last.server later in
      let kept =
        join-keeps_at last.running last.joining last.thread last.listening last.terminated
          last.server in
      (
        kept.0 ∙ q.off,
        gone,
        joined.socket ∙ ap has_socket gone,
        (q.events, omega (arith, q.few, open_accepts-le-one c.thread), kept.1 ∙ q.same),
      )
