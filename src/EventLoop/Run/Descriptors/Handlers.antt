-- ===== src/EventLoop/Run/Descriptors/Handlers.antt =====
-- The handlers for input and output on a connection, and which descriptors are open.
use systems_craft.Prelude.{
  ℕ, ◌≡◌, ◌≢◌, sym, ◌∙◌, inl, inr, List, [], ◌++◌, drop, Option, some, arith, Bytes, Option-cases,
  if◌then◌else◌,
}
use systems_craft.EventLoop.Table.{find_fd}
use systems_craft.EventLoop.Framing.{Frame, incomplete, invalid, complete, frame}
use systems_craft.EventLoop.Loop.{
  Connection, EventLoop, Read, Write, edge, close_connection, add_to_epoll, modify_epoll,
  take_request, wants_keep_alive, sent_to, handle_read, deliver, handle_write, Drained, drained,
  ended, read_all, Flushed, all_written, waits, breaks, write_all,
}
use systems_craft.EventLoop.Run.Descriptors.{
  known-put_fd, IsTidy, either-IsTidy, close_connection-IsTidy, put_connection-IsTidy, found_own,
}

module _ {listen_fd : ℕ} where
  take_request-IsTidy :
      (fd : ℕ) (conn : Connection) (buffer : Bytes) (f : Frame) (loop : EventLoop)
      → fd ≢ listen_fd
      → find_fd fd loop.connections ≡ some conn
      → IsTidy listen_fd loop
      → IsTidy listen_fd (take_request conn buffer f loop)
  unfolding take_request
  take_request-IsTidy fd conn buffer incomplete loop apart found t =
      put_connection-IsTidy conn (record conn { read_buffer = buffer }) loop
        (found_own fd conn loop found t) t
  take_request-IsTidy fd conn buffer invalid loop apart found t =
      close_connection-IsTidy conn.fd loop (λ e. apart (sym (t.own fd conn found) ∙ e)) t
  take_request-IsTidy fd conn buffer (complete size) loop apart found t =
      let changed = record conn {
        read_buffer = drop size buffer;
        keep_alive = wants_keep_alive buffer;
      } in
      let kept = put_connection-IsTidy conn changed loop (found_own fd conn loop found t) t in
      record {
        open_sockets = kept.open_sockets;
        watched = kept.watched;
        own = kept.own;
        apart = kept.apart;
      }

  pub handle_read-IsTidy :
      (stoull : Bytes → Option ℕ) (fd : ℕ) (reads : List Read) (loop : EventLoop)
      → fd ≢ listen_fd
      → IsTidy listen_fd loop
      → IsTidy listen_fd (handle_read stoull fd reads loop)
  unfolding handle_read
  handle_read-IsTidy stoull fd reads loop apart t =
      elim (Option-cases (find_fd fd loop.connections)) [
        | inl e ↦ rw (handle_read, e) t
        | inr (conn, e) ↦
            rw (handle_read, e) (drained_read conn e (read_all conn.read_buffer reads))
      ]
    where
      drained_read :
          (conn : Connection)
          → find_fd fd loop.connections ≡ some conn
          → (d : Drained)
          → IsTidy listen_fd (elim d [
            | ended ↦ close_connection fd loop
            | drained buffer ↦ take_request conn buffer (frame stoull buffer) loop
          ])
      drained_read conn e ended = close_connection-IsTidy fd loop apart t
      drained_read conn e (drained buffer) =
          take_request-IsTidy fd conn buffer (frame stoull buffer) loop apart e t

  deliver-IsTidy :
      (fd : ℕ) (conn : Connection) (sent left : Bytes) (loop : EventLoop)
      → find_fd fd loop.connections ≡ some conn
      → IsTidy listen_fd loop
      → IsTidy listen_fd (deliver conn sent left loop)
  unfolding deliver
  deliver-IsTidy fd conn sent left loop found t =
      let there = found_own fd conn loop found t in
      let kept = put_connection-IsTidy conn (record conn { write_buffer = left }) loop there t in
      record {
        open_sockets = λ j. ground (
          arith,
          there,
          kept.open_sockets j,
          t.open_sockets j,
          known-put_fd conn.fd j (sent_to conn.fd loop ++ sent) loop.sockets,
        );
        watched = kept.watched;
        own = kept.own;
        apart = kept.apart;
      }

  modify_epoll-IsTidy :
      (fd : ℕ) (loop : EventLoop)
      → IsTidy listen_fd loop
      → IsTidy listen_fd (modify_epoll fd edge loop)
  unfolding modify_epoll add_to_epoll
  modify_epoll-IsTidy fd loop t = elim (Option-cases (find_fd fd loop.watched)) [
    | inl e ↦ rw (modify_epoll, e) t
    | inr (i, e) ↦
        rw (modify_epoll, e)
          (record {
            open_sockets = t.open_sockets;
            watched = λ j. ground (arith, e, t.watched j, known-put_fd fd j edge loop.watched);
            own = t.own;
            apart = t.apart;
          })
  ]

  pub handle_write-IsTidy :
      (fd : ℕ) (writes : List Write) (loop : EventLoop)
      → fd ≢ listen_fd
      → IsTidy listen_fd loop
      → IsTidy listen_fd (handle_write fd writes loop)
  unfolding handle_write
  handle_write-IsTidy fd writes loop apart t = elim (Option-cases (find_fd fd loop.connections)) [
    | inl e ↦ rw (handle_write, e) t
    | inr (conn, e) ↦ rw (handle_write, e) (flushed conn e (write_all [] conn.write_buffer writes))
  ]
    where
      flushed :
          (conn : Connection)
          → find_fd fd loop.connections ≡ some conn
          → (f : Flushed)
          → IsTidy listen_fd (elim f [
            | waits sent left ↦ deliver conn sent left loop
            | breaks sent left ↦ close_connection fd (deliver conn sent left loop)
            | all_written sent ↦
                let written = deliver conn sent [] loop in
                if conn.keep_alive
                then modify_epoll fd edge written
                else close_connection fd written
          ])
      flushed conn e (waits sent left) = deliver-IsTidy fd conn sent left loop e t
      flushed conn e (breaks sent left) =
          close_connection-IsTidy fd _ apart (deliver-IsTidy fd conn sent left loop e t)
      flushed conn e (all_written sent) =
          let written = deliver-IsTidy fd conn sent [] loop e t in
          either-IsTidy conn.keep_alive _ _ (modify_epoll-IsTidy fd _ written)
            (close_connection-IsTidy fd _ apart written)
