-- ===== src/EventLoop/Run/Reading.antt =====
-- A request that arrives in pieces: what handle_read keeps and what it hands to the thread pool.
use systems_craft.Prelude.{
  ℕ, ◌<◌, ◌≡◌, refl, sym, ap, ◌∙◌, true, false, List, [], ◌∷◌, ◌++◌, append_assoc, append-nil, map,
  Option, some, arith, Bytes, length, length-append, drop, take, ◌==◌,
}
use systems_craft.ThreadPool.{enqueue}
use systems_craft.EventLoop.Table.{find_fd, put_fd, find_fd-put_fd, put_fd_twice}
use systems_craft.EventLoop.Framing.{complete, frame, blank_line}
use systems_craft.EventLoop.Framing.Whole.{IsRequest, prefix_of, frame-complete, frame-incomplete}
use systems_craft.EventLoop.Loop.{
  Connection, EventLoop, got, drained, read_all, take_request, handle_read, wants_keep_alive,
}
use systems_craft.EventLoop.Run.{Event, process, process_all}

abbrev pub concat : List Bytes → Bytes
concat [] = []
concat (chunk ∷ chunks) = chunk ++ concat chunks

-- The event for input on a connection that brings these chunks before EAGAIN.
abbrev pub input : ℕ → List Bytes → Event
input fd chunks = record {
  fd = fd;
  error_or_hang_up = false;
  input = true;
  output = false;
  accepts = [];
  reads = map got chunks;
  writes = [];
}

abbrev pub concat_all : List (List Bytes) → Bytes
concat_all [] = []
concat_all (chunks ∷ events) = concat chunks ++ concat_all events

take-append : (xs ys : Bytes) → take (length xs) (xs ++ ys) ≡ xs
take-append [] ys = refl
take-append (x ∷ xs) ys = ap (λ zs. x ∷ zs) (take-append xs ys)

drop-append : (xs ys : Bytes) → drop (length xs) (xs ++ ys) ≡ ys
drop-append [] ys = refl
drop-append (x ∷ xs) ys = drop-append xs ys

pub read_all-got :
    (buffer : Bytes) (chunks : List Bytes)
    → read_all buffer (map got chunks) ≡ drained (buffer ++ concat chunks)
unfolding read_all
read_all-got buffer [] = ap drained (sym (append-nil buffer))
read_all-got buffer (chunk ∷ chunks) =
    read_all-got (buffer ++ chunk) chunks ∙ ap drained (append_assoc buffer chunk (concat chunks))

-- A call that finds a connection goes on with the frame of its buffer.
pub handle_read-frame :
    (stoull : Bytes → Option ℕ) (listen_fd fd : ℕ) (chunks : List Bytes) (loop : EventLoop)
    (conn : Connection)
    → (fd == listen_fd) ≡ false
    → find_fd fd loop.connections ≡ some conn
    → process stoull listen_fd (input fd chunks) loop
      ≡ take_request conn
          (conn.read_buffer ++ concat chunks)
          (frame stoull (conn.read_buffer ++ concat chunks))
          loop
unfolding process handle_read
handle_read-frame stoull listen_fd fd chunks loop conn client found =
    rw (process, client, handle_read, found, read_all-got conn.read_buffer chunks) refl

-- The connection and the pool after the request has been taken out of `buffer`.
abbrev pub handed_over : Connection → Bytes → Bytes → EventLoop → EventLoop
handed_over conn request more loop = record loop {
  connections =
      put_fd conn.fd
        (record conn { read_buffer = more; keep_alive = wants_keep_alive (request ++ more) })
        loop.connections;
  pool = (enqueue loop.pool (conn.fd, request)).0;
}

abbrev pub buffered : Connection → Bytes → EventLoop → EventLoop
buffered conn buffer loop = record loop {
  connections = put_fd conn.fd (record conn { read_buffer = buffer }) loop.connections;
}

pub take_request_whole :
    (conn : Connection) (request more : Bytes) (loop : EventLoop)
    → take_request conn (request ++ more) (complete (length request)) loop
      ≡ handed_over conn request more loop
unfolding take_request
take_request_whole conn request more loop =
    rw (take_request, take-append request more, drop-append request more) refl

handed_over-buffered :
    (conn : Connection) (part request more : Bytes) (loop : EventLoop)
    → handed_over (record conn { read_buffer = part }) request more (buffered conn part loop)
      ≡ handed_over conn request more loop
handed_over-buffered conn part request more loop =
    ap (λ c. record (handed_over conn request more loop) { connections = c })
      (put_fd_twice conn.fd _ _ loop.connections)

module _ (stoull : Bytes → Option ℕ) (head body : Bytes) (request : IsRequest stoull head body)
    (listen_fd fd : ℕ) (client : (fd == listen_fd) ≡ false) where
  handle_read_part :
      (chunks : List Bytes) (loop : EventLoop) (conn : Connection) (rest : Bytes)
      → find_fd fd loop.connections ≡ some conn
      → (conn.read_buffer ++ concat chunks) ++ rest ≡ head ++ (blank_line ++ body)
      → length (conn.read_buffer ++ concat chunks) < length (head ++ (blank_line ++ body))
      → process stoull listen_fd (input fd chunks) loop
        ≡ buffered conn (conn.read_buffer ++ concat chunks) loop
  unfolding take_request
  handle_read_part chunks loop conn rest found parts short =
      handle_read-frame stoull listen_fd fd chunks loop conn client found
      ∙ rw
          (
            frame-incomplete stoull head body (conn.read_buffer ++ concat chunks) rest request parts
                short,
            take_request,
          )
          refl

  handle_read_last :
      (chunks : List Bytes) (loop : EventLoop) (conn : Connection) (more : Bytes)
      → find_fd fd loop.connections ≡ some conn
      → conn.read_buffer ++ concat chunks ≡ (head ++ (blank_line ++ body)) ++ more
      → process stoull listen_fd (input fd chunks) loop
        ≡ handed_over conn (head ++ (blank_line ++ body)) more loop
  handle_read_last chunks loop conn more found parts =
      handle_read-frame stoull listen_fd fd chunks loop conn client found
      ∙ rw (parts, frame-complete stoull head body more request)
          (take_request_whole conn (head ++ (blank_line ++ body)) more loop)

  -- If the request arrives in pieces, over any number of events with any number of chunks, and
  -- bytes behind it come with the last event only, then exactly the request is handed to the pool,
  -- once, with its descriptor, and the buffer then holds the bytes behind it, be they a further
  -- request or not.
  pub process_all-handed_over :
      (events : List (List Bytes)) (chunks : List Bytes) (loop : EventLoop) (conn : Connection)
      (more : Bytes)
      → find_fd fd loop.connections ≡ some conn
      → conn.fd ≡ fd
      → (conn.read_buffer ++ concat_all events) ++ concat chunks
        ≡ (head ++ (blank_line ++ body)) ++ more
      → length (conn.read_buffer ++ concat_all events) < length (head ++ (blank_line ++ body))
      → process_all stoull listen_fd (map (input fd) (events ++ chunks ∷ [])) loop
        ≡ handed_over conn (head ++ (blank_line ++ body)) more loop
  unfolding process_all
  process_all-handed_over [] chunks loop conn more found own parts short =
      handle_read_last chunks loop conn more found
        (ap (λ b. b ++ concat chunks) (sym (append-nil conn.read_buffer)) ∙ parts)
  process_all-handed_over (first ∷ events) chunks loop conn more found own parts short =
      let part = conn.read_buffer ++ concat first in
      let joined : part ++ concat_all events
          ≡ conn.read_buffer ++ (concat first ++ concat_all events) =
        append_assoc conn.read_buffer (concat first) (concat_all events) in
      let all_parts : (part ++ concat_all events) ++ concat chunks
          ≡ (head ++ (blank_line ++ body)) ++ more =
        ap (λ b. b ++ concat chunks) joined ∙ parts in
      let short_parts : length (part ++ concat_all events) < length (head ++ (blank_line ++ body)) =
        omega (arith, short, ap length joined) in
      let short_part : length part < length (head ++ (blank_line ++ body)) =
        omega (arith, short_parts, length-append part (concat_all events)) in
      let cut = sym all_parts ∙ append_assoc part (concat_all events) (concat chunks) in
      let (rest, same) =
        prefix_of part (head ++ (blank_line ++ body)) more (concat_all events ++ concat chunks) cut
          (omega (arith, short_part)) in
      let kept = record conn { read_buffer = part } in
      let there : find_fd fd (buffered conn part loop).connections ≡ some kept =
        find_fd-put_fd conn.fd fd kept loop.connections ∙ ground (arith, own) in
      ap (process_all stoull listen_fd (map (input fd) (events ++ chunks ∷ [])))
        (handle_read_part first loop conn rest found (sym same) short_part)
      ∙ process_all-handed_over events chunks (buffered conn part loop) kept more there own
          all_parts short_parts
      ∙ handed_over-buffered conn part (head ++ (blank_line ++ body)) more loop
