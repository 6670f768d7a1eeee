-- ===== src/EventLoop/Run/Full.antt =====
-- A request that is complete while the thread pool's queue is full or has space.
use systems_craft.Prelude.{
  ℕ, ◌<◌, ◌≡◌, refl, ap, ◌∙◌, false, List, [], ◌∷◌, ◌++◌, map, Option, some, arith, Bytes, leb,
  ◌==◌, if◌then◌else◌, length,
}
use systems_craft.ThreadPool.{enqueue}
use systems_craft.EventLoop.Table.{find_fd, find_fd-put_fd}
use systems_craft.EventLoop.Framing.{blank_line}
use systems_craft.EventLoop.Framing.Whole.{IsRequest}
use systems_craft.EventLoop.Loop.{Connection, EventLoop, wants_keep_alive}
use systems_craft.EventLoop.Run.{process_all}
use systems_craft.EventLoop.Run.Reading.{
  input, concat, concat_all, handed_over, process_all-handed_over,
}

handed_over-tasks :
    (conn : Connection) (request more : Bytes) (loop : EventLoop)
    → loop.pool.stop ≡ false
    → (handed_over conn request more loop).pool.tasks ≡ (
        if leb loop.pool.max_queue_size (length loop.pool.tasks)
        then loop.pool.tasks
        else loop.pool.tasks ++ (conn.fd, request) ∷ [])
unfolding enqueue
handed_over-tasks conn request more loop h = ground (arith, h)

handed_over-found :
    (conn : Connection) (request more : Bytes) (loop : EventLoop) (fd : ℕ)
    → conn.fd ≡ fd
    → find_fd fd (handed_over conn request more loop).connections
      ≡ some (record conn { read_buffer = more; keep_alive = wants_keep_alive (request ++ more) })
handed_over-found conn request more loop fd own =
    find_fd-put_fd conn.fd fd _ loop.connections ∙ ground (arith, own)

-- When a request has arrived in pieces and the pool is not shut down, the pool has one more task,
-- the handler's call for the request and its descriptor, behind the others if its queue has space.
-- If the queue is full there is no task for the request; yet in both cases its bytes have left the
-- buffer of the connection, nothing was written to any socket, and nothing waits to be written to
-- this one that did not before: in a full queue's case the request is lost without an answer.
pub process_all-tasks :
    (stoull : Bytes → Option ℕ) (head body : Bytes) (listen_fd fd : ℕ) (events : List (List Bytes))
    (chunks : List Bytes) (loop : EventLoop) (conn : Connection) (more : Bytes)
    → IsRequest stoull head body
    → (fd == listen_fd) ≡ false
    → find_fd fd loop.connections ≡ some conn
    → conn.fd ≡ fd
    → (conn.read_buffer ++ concat_all events) ++ concat chunks
      ≡ (head ++ (blank_line ++ body)) ++ more
    → length (conn.read_buffer ++ concat_all events) < length (head ++ (blank_line ++ body))
    → loop.pool.stop ≡ false
    → let after = process_all stoull listen_fd (map (input fd) (events ++ chunks ∷ [])) loop in
      (after.pool.tasks ≡ (
        if leb loop.pool.max_queue_size (length loop.pool.tasks)
        then loop.pool.tasks
        else loop.pool.tasks ++ (fd, head ++ (blank_line ++ body)) ∷ []))
      × (after.sockets ≡ loop.sockets)
      × ((left : Connection) × (find_fd fd after.connections ≡ some left)
          × (left.read_buffer ≡ more)
          × (left.write_buffer ≡ conn.write_buffer))
process_all-tasks stoull head body listen_fd fd events chunks loop conn more request client found
      own parts short up =
    let whole = head ++ (blank_line ++ body) in
    let done =
      process_all-handed_over stoull head body request listen_fd fd client events chunks loop conn
        more found own parts short in
    (
      ap (λ (l : EventLoop). l.pool.tasks) done
          ∙ handed_over-tasks conn whole more loop up
          ∙ ap
              (λ k.
                if leb loop.pool.max_queue_size (length loop.pool.tasks)
                then loop.pool.tasks
                else loop.pool.tasks ++ (k, whole) ∷ [])
              own,
      ap (λ (l : EventLoop). l.sockets) done,
      (
        record conn { read_buffer = more; keep_alive = wants_keep_alive (whole ++ more) },
        ap (λ (l : EventLoop). find_fd fd l.connections) done
            ∙ handed_over-found conn whole more loop fd own,
        refl,
        refl,
      ),
    )
