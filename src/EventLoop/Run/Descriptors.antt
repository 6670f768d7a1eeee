-- ===== src/EventLoop/Run/Descriptors.antt =====
-- What is to hold between the open client sockets, the watched descriptors and the connections.
pub mod Handlers
pub mod Traffic
pub mod Stop
use systems_craft.Prelude.{
  ℕ, ◌≡◌, ◌≢◌, refl, sym, ap, ◌∙◌, inl, inr, Bool, true, false, ◌||◌, List, [], ◌∷◌, ◌++◌, drop,
  Option, none, some, arith, Bytes, Option-cases, Bool-cases, ◌==◌, if◌then◌else◌,
}
use systems_craft.EventLoop.Table.{find_fd, put_fd, erase_fd, find_fd-put_fd, find_fd-erase_fd}
use systems_craft.EventLoop.Framing.{Frame, incomplete, invalid, complete, frame}
use systems_craft.EventLoop.Loop.{
  Connection, EventLoop, Accept, Read, Write, edge, close, close_connection, accept_one,
  handle_accept, add_to_epoll, remove_from_epoll, modify_epoll, take_request, new_connection,
  wants_keep_alive, sent_to, handle_read, deliver, handle_write, Drained, drained, ended, read_all,
  Flushed, all_written, waits, breaks, write_all,
}
use systems_craft.EventLoop.Run.{
  Event, process, process_all, Wait, ready, interrupted, failed, event_loop,
}

abbrev pub is_some {ℓ} : {V : Type ℓ} → Option V → Bool
is_some none = false
is_some (some v) = true

abbrev pub known {ℓ} : {V : Type ℓ} → ℕ → List (ℕ × V) → Bool
known fd m = is_some (find_fd fd m)

module _ {ℓ} {V : Type ℓ} where
  pub known-put_fd :
      (fd j : ℕ) (v : V) (m : List (ℕ × V))
      → known j (put_fd fd v m) ≡ (if fd == j then true else known j m)
  known-put_fd fd j v m = ground (arith, find_fd-put_fd fd j v m)

  pub known-erase_fd :
      (fd j : ℕ) (m : List (ℕ × V))
      → known j (erase_fd fd m) ≡ (if fd == j then false else known j m)
  known-erase_fd fd j m = ground (arith, find_fd-erase_fd fd j m)

-- Every open client socket has a connection and the other way round, epoll watches these and the
-- listen socket, a connection stands under its own descriptor, and the listen socket is none.
pub record IsTidy (listen_fd : ℕ) (loop : EventLoop) : Type 0 where
  pub open_sockets : (fd : ℕ) → known fd loop.sockets ≡ known fd loop.connections
  pub watched : (fd : ℕ) → known fd loop.watched ≡ (known fd loop.connections || (fd == listen_fd))
  pub own : (fd : ℕ) (conn : Connection) → find_fd fd loop.connections ≡ some conn → conn.fd ≡ fd
  pub apart : known listen_fd loop.connections ≡ false

module _ {listen_fd : ℕ} where
  pub either-IsTidy :
      (b : Bool) (x y : EventLoop)
      → IsTidy listen_fd x
      → IsTidy listen_fd y
      → IsTidy listen_fd (if b then x else y)
  either-IsTidy true x y t u = t
  either-IsTidy false x y t u = u

  pub close_connection-IsTidy :
      (fd : ℕ) (loop : EventLoop)
      → fd ≢ listen_fd
      → IsTidy listen_fd loop
      → IsTidy listen_fd (close_connection fd loop)
  unfolding close_connection close remove_from_epoll
  close_connection-IsTidy fd loop apart t = record {
    open_sockets = λ j. ground (
      arith,
      t.open_sockets j,
      known-erase_fd fd j loop.sockets,
      known-erase_fd fd j loop.connections,
    );
    watched = λ j. ground (
      arith,
      t.watched j,
      known-erase_fd fd j (erase_fd fd loop.watched),
      known-erase_fd fd j loop.watched,
      known-erase_fd fd j loop.connections,
    );
    own = λ j conn found.
        t.own j conn (ground (arith, found, find_fd-erase_fd fd j loop.connections));
    apart = ground (arith, t.apart, known-erase_fd fd listen_fd loop.connections);
  }

  -- A socket that is opened and closed at once.
  turned_away :
      (fd : ℕ) (loop : EventLoop)
      → known fd loop.sockets ≡ false
      → fd ≢ listen_fd
      → IsTidy listen_fd loop
      → IsTidy listen_fd (close fd (record loop { sockets = put_fd fd [] loop.sockets }))
  unfolding close
  turned_away fd loop fresh apart t = record {
    open_sockets = λ j. ground (
      arith,
      fresh,
      t.open_sockets j,
      known-erase_fd fd j (put_fd fd [] loop.sockets),
      known-put_fd fd j [] loop.sockets,
    );
    watched =
        λ j. ground (arith, fresh, t.open_sockets j, t.watched j, known-erase_fd fd j loop.watched);
    own = t.own;
    apart = t.apart;
  }

  taken_in :
      (fd : ℕ) (loop : EventLoop)
      → fd ≢ listen_fd
      → IsTidy listen_fd loop
      → IsTidy listen_fd (record loop {
        sockets = put_fd fd [] loop.sockets;
        watched = put_fd fd edge loop.watched;
        connections = put_fd fd (new_connection fd) loop.connections;
      })
  unfolding new_connection
  taken_in fd loop apart t = record {
    open_sockets = λ j. ground (
      arith,
      t.open_sockets j,
      known-put_fd fd j [] loop.sockets,
      known-put_fd fd j (new_connection fd) loop.connections,
    );
    watched = λ j. ground (
      arith,
      t.watched j,
      known-put_fd fd j edge loop.watched,
      known-put_fd fd j (new_connection fd) loop.connections,
    );
    own = λ j c there.
        ground (arith, there, t.own j c, find_fd-put_fd fd j (new_connection fd) loop.connections);
    apart =
        ground
          (arith, t.apart, apart, known-put_fd fd listen_fd (new_connection fd) loop.connections);
  }

  pub accept_one-IsTidy :
      (a : Accept) (loop : EventLoop)
      → known a.fd loop.sockets ≡ false
      → a.fd ≢ listen_fd
      → IsTidy listen_fd loop
      → IsTidy listen_fd (accept_one a loop)
  unfolding accept_one add_to_epoll
  accept_one-IsTidy a loop fresh apart t = elim (Bool-cases a.nonblocking) [
    | inl e ↦ elim (Bool-cases a.added) [
      | inl f ↦ rw (accept_one, e, f) (taken_in a.fd loop apart t)
      | inr f ↦ rw (accept_one, e, f) (turned_away a.fd loop fresh apart t)
    ]
    | inr e ↦ rw (accept_one, e) (turned_away a.fd loop fresh apart t)
  ]

  -- A connection is changed in place.
  pub put_connection-IsTidy :
      (conn changed : Connection) (loop : EventLoop)
      → find_fd changed.fd loop.connections ≡ some conn
      → IsTidy listen_fd loop
      → IsTidy listen_fd (record loop { connections = put_fd changed.fd changed loop.connections })
  put_connection-IsTidy conn changed loop found t = record {
    open_sockets = λ j.
        ground (arith, found, t.open_sockets j, known-put_fd changed.fd j changed loop.connections);
    watched =
        λ j. ground (arith, found, t.watched j, known-put_fd changed.fd j changed loop.connections);
    own = λ j c there.
        ground (arith, there, t.own j c, find_fd-put_fd changed.fd j changed loop.connections);
    apart =
        ground (arith, found, t.apart, known-put_fd changed.fd listen_fd changed loop.connections);
  }

  pub found_own :
      (fd : ℕ) (conn : Connection) (loop : EventLoop)
      → find_fd fd loop.connections ≡ some conn
      → IsTidy listen_fd loop
      → find_fd conn.fd loop.connections ≡ some conn
  found_own fd conn loop found t =
      ap (λ k. find_fd k loop.connections) (t.own fd conn found) ∙ found
