-- ===== src/EventLoop/Run/Descriptors/Traffic.antt =====
-- Runs of the event loop, and which descriptors are open.
use systems_craft.Prelude.{
  ℕ, ◌≡◌, ◌≢◌, inl, inr, false, List, [], ◌∷◌, Option, arith, Bytes, Bool-cases, ◌==◌,
}
use systems_craft.EventLoop.Loop.{EventLoop, Accept, accept_one, handle_accept}
use systems_craft.EventLoop.Run.{
  Event, process, process_all, Wait, ready, interrupted, failed, event_loop,
}
use systems_craft.EventLoop.Run.Descriptors.{
  known, IsTidy, either-IsTidy, close_connection-IsTidy, accept_one-IsTidy,
}
use systems_craft.EventLoop.Run.Descriptors.Handlers.{handle_read-IsTidy, handle_write-IsTidy}

-- The kernel's part: `accept` returns a descriptor that is not open.
module _ (listen_fd : ℕ) where
  abbrev pub Fresh : List Accept → EventLoop → Type 0
  Fresh [] loop = Unit
  Fresh (a ∷ accepts) loop =
      (known a.fd loop.sockets ≡ false) × (a.fd ≢ listen_fd) × Fresh accepts (accept_one a loop)

  handle_accept-IsTidy :
      (accepts : List Accept) (loop : EventLoop)
      → Fresh accepts loop
      → IsTidy listen_fd loop
      → IsTidy listen_fd (handle_accept accepts loop)
  unfolding handle_accept
  handle_accept-IsTidy [] loop f t = t
  handle_accept-IsTidy (a ∷ accepts) loop f t =
      handle_accept-IsTidy accepts (accept_one a loop) f.2 (accept_one-IsTidy a loop f.0 f.1 t)

  module _ (stoull : Bytes → Option ℕ) where
    process-IsTidy :
        (e : Event) (loop : EventLoop)
        → ((e.fd ≡ listen_fd) → Fresh e.accepts loop)
        → IsTidy listen_fd loop
        → IsTidy listen_fd (process stoull listen_fd e loop)
    unfolding process
    process-IsTidy e loop fresh t = elim (Bool-cases (e.fd == listen_fd)) [
      | inl k ↦ rw (process, k) (handle_accept-IsTidy e.accepts loop (fresh (ground (arith, k))) t)
      | inr k ↦
          let apart : e.fd ≢ listen_fd = λ same. ground (arith, k, same) in
          rw (process, k)
            (either-IsTidy e.error_or_hang_up _ _ (close_connection-IsTidy e.fd loop apart t) (
              either-IsTidy e.input _ _ (handle_read-IsTidy stoull e.fd e.reads loop apart t)
                (either-IsTidy e.output _ _ (handle_write-IsTidy e.fd e.writes loop apart t) t)))
    ]

    abbrev pub AllFresh : List Event → EventLoop → Type 0
    AllFresh [] loop = Unit
    AllFresh (e ∷ events) loop =
        ((e.fd ≡ listen_fd) → Fresh e.accepts loop)
        × AllFresh events (process stoull listen_fd e loop)

    process_all-IsTidy :
        (events : List Event) (loop : EventLoop)
        → AllFresh events loop
        → IsTidy listen_fd loop
        → IsTidy listen_fd (process_all stoull listen_fd events loop)
    unfolding process_all
    process_all-IsTidy [] loop f t = t
    process_all-IsTidy (e ∷ events) loop f t =
        process_all-IsTidy events (process stoull listen_fd e loop) f.1
          (process-IsTidy e loop f.0 t)

    abbrev pub RunsFresh : List Wait → EventLoop → Type 0
    RunsFresh [] loop = Unit
    RunsFresh (ready events ∷ polls) loop =
        AllFresh events loop × RunsFresh polls (process_all stoull listen_fd events loop)
    RunsFresh (interrupted ∷ polls) loop = RunsFresh polls loop
    RunsFresh (failed ∷ polls) loop = Unit

    pub event_loop-IsTidy :
        (polls : List Wait) (loop : EventLoop)
        → RunsFresh polls loop
        → IsTidy listen_fd loop
        → IsTidy listen_fd (event_loop stoull listen_fd polls loop)
    unfolding event_loop
    event_loop-IsTidy [] loop f t = t
    event_loop-IsTidy (ready events ∷ polls) loop f t =
        either-IsTidy loop.running _ _
          (event_loop-IsTidy polls (process_all stoull listen_fd events loop) f.1
            (process_all-IsTidy events loop f.0 t))
          t
    event_loop-IsTidy (interrupted ∷ polls) loop f t =
        either-IsTidy loop.running _ _ (event_loop-IsTidy polls loop f t) t
    event_loop-IsTidy (failed ∷ polls) loop f t = t
