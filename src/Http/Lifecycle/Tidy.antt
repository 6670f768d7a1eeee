-- ===== src/Http/Lifecycle/Tidy.antt =====
-- The flags of HttpServer, its thread and its socket go together.
use systems_craft.Prelude.{
  ℕ, ◌≡◌, refl, Bool, true, false, List, [], ◌∷◌, Option, none, some, arith,
}
use systems_craft.Http.{HttpRequest, HttpResponse}
use systems_craft.Http.Server.{HttpServer}
use systems_craft.Http.Lifecycle.{
  Thread, no_thread, opening, looping, accepting, ended, Lifecycle, Opening, no_socket, bind_failed,
  listen_failed, listens, lifecycle, start, stop, join, run_server, listener, worker, joins, Event,
  starts, stops, moved, move, step, run,
}

-- Whether the server's socket is open.
abbrev pub has_socket : Thread → Bool
has_socket no_thread = false
has_socket opening = false
has_socket looping = true
has_socket accepting = true
has_socket ended = false

-- The flags that go with a place of the thread.
pub record IsTidy {ℓ} {H S : Type ℓ} (cycle : Lifecycle H S) : Type ℓ where
  pub socket : cycle.listening ≡ has_socket cycle.thread
  pub at_rest : cycle.running ≡ false → cycle.joining ≡ false → cycle.thread ≡ no_thread
  pub waiting : cycle.joining ≡ true → cycle.running ≡ false
  pub busy : cycle.running ≡ true → ¬ (cycle.thread ≡ no_thread)
  pub held : cycle.joining ≡ true → ¬ (cycle.thread ≡ no_thread)

abbrev pub at {ℓ} :
    {H S : Type ℓ} → Bool → Bool → Thread → Bool → Bool → HttpServer H S → Lifecycle H S
at running joining thread listening terminated server = record {
  running = running;
  joining = joining;
  thread = thread;
  listening = listening;
  terminated = terminated;
  server = server;
}

-- A thread that is there goes on, with the socket that belongs to its new place.
goes_on {ℓ} :
    {H S : Type ℓ} (r j : Bool) (t u : Thread) (l x : Bool) (server server' : HttpServer H S)
    → ¬ (t ≡ no_thread)
    → ¬ (u ≡ no_thread)
    → IsTidy (at r j t l x server)
    → IsTidy (at r j u (has_socket u) x server')
goes_on r j t u l x server server' there here tidy = record {
  socket = refl;
  at_rest = λ off free. absurd (there (tidy.at_rest off free));
  waiting = tidy.waiting;
  busy = λ on. here;
  held = λ on. here;
}

module _ {ℓ} {H S : Type ℓ} (handle : H → HttpRequest → S → S × Option HttpResponse) where
  run_server-IsTidy :
      (o : Opening) (a : Option ℕ) (r j : Bool) (t : Thread) (l x : Bool) (server : HttpServer H S)
      → IsTidy (at r j t l x server)
      → IsTidy (run_server handle o a (at r j t l x server))
  unfolding run_server
  run_server-IsTidy o a r j no_thread l x server t = t
  run_server-IsTidy no_socket a r j opening l x server t =
      goes_on r j opening ended l x server server (ground arith) (ground arith) t
  run_server-IsTidy bind_failed a r j opening l x server t =
      goes_on r j opening ended l x server server (ground arith) (ground arith) t
  run_server-IsTidy listen_failed a r j opening l x server t =
      goes_on r j opening ended l x server server (ground arith) (ground arith) t
  run_server-IsTidy listens a r j opening l x server t =
      goes_on r j opening looping l x server server (ground arith) (ground arith) t
  run_server-IsTidy o a true j looping l x server t = record {
    socket = t.socket;
    at_rest = ground arith;
    waiting = t.waiting;
    busy = ground arith;
    held = ground arith;
  }
  run_server-IsTidy o a false j looping l x server t =
      goes_on false j looping ended l x server server (ground arith) (ground arith) t
  run_server-IsTidy o none r j accepting l x server t = record {
    socket = t.socket;
    at_rest = λ off free. absurd (ground (arith, t.at_rest off free));
    waiting = t.waiting;
    busy = ground arith;
    held = ground arith;
  }
  run_server-IsTidy o (some s) r j accepting l x server t = record {
    socket = t.socket;
    at_rest = λ off free. absurd (ground (arith, t.at_rest off free));
    waiting = t.waiting;
    busy = ground arith;
    held = ground arith;
  }
  run_server-IsTidy o a r j ended l x server t = t

  pub join-IsTidy :
      (r j : Bool) (t : Thread) (l x : Bool) (server : HttpServer H S)
      → IsTidy (at r j t l x server)
      → IsTidy (join (at r j t l x server))
  unfolding join
  join-IsTidy r j no_thread l x server t = t
  join-IsTidy r j opening l x server t = t
  join-IsTidy r j looping l x server t = t
  join-IsTidy r j accepting l x server t = t
  join-IsTidy r true ended l x server t = record {
    socket = t.socket;
    at_rest = λ off free. refl;
    waiting = ground arith;
    busy = ground arith;
    held = ground arith;
  }
  join-IsTidy r false ended l x server t = t

  marked :
      (r j : Bool) (t : Thread) (l x : Bool) (server : HttpServer H S)
      → IsTidy (at r j t l x server)
      → IsTidy (at r j t l true server)
  marked r j t l x server tidy = record {
    socket = tidy.socket;
    at_rest = tidy.at_rest;
    waiting = tidy.waiting;
    busy = tidy.busy;
    held = tidy.held;
  }

  start-IsTidy :
      (r j : Bool) (t : Thread) (l x : Bool) (server : HttpServer H S)
      → IsTidy (at r j t l x server)
      → IsTidy (start (at r j t l x server))
  unfolding start
  start-IsTidy true j t l x server tidy = tidy
  start-IsTidy false true no_thread l x server tidy = absurd (tidy.held refl refl)
  start-IsTidy false false no_thread l x server tidy = record {
    socket = tidy.socket;
    at_rest = ground arith;
    waiting = ground arith;
    busy = ground arith;
    held = ground arith;
  }
  start-IsTidy false j opening l x server tidy = marked false j opening l x server tidy
  start-IsTidy false j looping l x server tidy = marked false j looping l x server tidy
  start-IsTidy false j accepting l x server tidy = marked false j accepting l x server tidy
  start-IsTidy false j ended l x server tidy = marked false j ended l x server tidy

  pub stop-IsTidy :
      (r j : Bool) (t : Thread) (l x : Bool) (server : HttpServer H S)
      → IsTidy (at r j t l x server)
      → IsTidy (stop (at r j t l x server))
  unfolding stop
  stop-IsTidy true j t l x server tidy = record {
    socket = tidy.socket;
    at_rest = ground arith;
    waiting = λ on. refl;
    busy = ground arith;
    held = λ on. tidy.busy refl;
  }
  stop-IsTidy false j t l x server tidy = tidy

  pub step-IsTidy :
      (cycle : Lifecycle H S) (e : Event) → IsTidy cycle → IsTidy (step handle cycle e)
  unfolding step move
  step-IsTidy c starts t =
      start-IsTidy c.running c.joining c.thread c.listening c.terminated c.server t
  step-IsTidy c stops t =
      stop-IsTidy c.running c.joining c.thread c.listening c.terminated c.server t
  step-IsTidy c (moved (listener o a)) t =
      run_server-IsTidy o a c.running c.joining c.thread c.listening c.terminated c.server t
  step-IsTidy c (moved (worker received)) t = record {
    socket = t.socket;
    at_rest = t.at_rest;
    waiting = t.waiting;
    busy = t.busy;
    held = t.held;
  }
  step-IsTidy c (moved joins) t =
      join-IsTidy c.running c.joining c.thread c.listening c.terminated c.server t

  pub run-IsTidy :
      (cycle : Lifecycle H S) (events : List Event)
      → IsTidy cycle
      → IsTidy (run handle cycle events)
  unfolding run
  run-IsTidy c [] t = t
  run-IsTidy c (e ∷ events) t = run-IsTidy (step handle c e) events (step-IsTidy c e t)

  pub lifecycle-IsTidy : (server : HttpServer H S) → IsTidy (lifecycle server)
  unfolding lifecycle
  lifecycle-IsTidy server = record {
    socket = refl;
    at_rest = λ off free. refl;
    waiting = ground arith;
    busy = ground arith;
    held = ground arith;
  }
