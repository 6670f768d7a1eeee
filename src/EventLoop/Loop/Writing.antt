-- ===== src/EventLoop/Loop/Writing.antt =====
-- What handle_write does with the bytes of a connection's write buffer.
use systems_craft.Prelude.{
  ℕ, zero, suc, ◌≡◌, refl, sym, ap, ◌∙◌, inl, inr, Bool, true, false, List, [], ◌∷◌, ◌++◌,
  append_assoc, append-nil, some, arith, Bytes, Option-cases, if◌then◌else◌, drop, take,
}
use systems_craft.EventLoop.Table.{find_fd, find_fd-put_fd, find_fd-erase_fd}
use systems_craft.EventLoop.Loop.{
  Connection, EventLoop, Write, wrote, nothing, blocked, broken, edge, close_connection, close,
  remove_from_epoll, modify_epoll, add_to_epoll, sent_to, deliver, Flushed, all_written, waits,
  breaks, write_all, handle_write,
}

take-append-drop : (n : ℕ) (xs : Bytes) → take n xs ++ drop n xs ≡ xs
take-append-drop zero xs = refl
take-append-drop (suc n) [] = refl
take-append-drop (suc n) (x ∷ xs) = ap (λ ys. x ∷ ys) (take-append-drop n xs)

-- The bytes written, and those left over behind them.
abbrev pub bytes_of : Flushed → Bytes
bytes_of (all_written sent) = sent
bytes_of (waits sent left) = sent ++ left
bytes_of (breaks sent left) = sent ++ left

write_all-bytes_of :
    (sent buffer : Bytes) (writes : List Write)
    → bytes_of (write_all sent buffer writes) ≡ sent ++ buffer
unfolding write_all
write_all-bytes_of sent [] writes = sym (append-nil sent)
write_all-bytes_of sent (b ∷ buffer) [] = refl
write_all-bytes_of sent (b ∷ buffer) (wrote n ∷ writes) =
    write_all-bytes_of (sent ++ take n (b ∷ buffer)) (drop n (b ∷ buffer)) writes
    ∙ append_assoc sent (take n (b ∷ buffer)) (drop n (b ∷ buffer))
    ∙ ap (λ ys. sent ++ ys) (take-append-drop n (b ∷ buffer))
write_all-bytes_of sent (b ∷ buffer) (nothing ∷ writes) =
    write_all-bytes_of sent (b ∷ buffer) writes
write_all-bytes_of sent (b ∷ buffer) (blocked ∷ writes) = refl
write_all-bytes_of sent (b ∷ buffer) (broken ∷ writes) = refl

-- The connection of a descriptor after a call, and what is on its socket.
abbrev pub Holds : ℕ → EventLoop → Bytes → Type 0
Holds fd loop text =
    (conn : Connection)
    → find_fd fd loop.connections ≡ some conn
    → sent_to fd loop ++ conn.write_buffer ≡ text

either-Holds :
    (fd : ℕ) (b : Bool) (x y : EventLoop) (text : Bytes)
    → Holds fd x text
    → Holds fd y text
    → Holds fd (if b then x else y) text
either-Holds fd true x y text h k = h
either-Holds fd false x y text h k = k

closed-Holds : (fd : ℕ) (loop : EventLoop) (text : Bytes) → Holds fd (close_connection fd loop) text
unfolding close_connection close remove_from_epoll
closed-Holds fd loop text conn found =
    ground (arith, found, find_fd-erase_fd fd fd loop.connections)

modified-Holds :
    (fd : ℕ) (loop : EventLoop) (text : Bytes)
    → Holds fd loop text
    → Holds fd (modify_epoll fd edge loop) text
unfolding modify_epoll add_to_epoll
modified-Holds fd loop text h = elim (Option-cases (find_fd fd loop.watched)) [
  | inl e ↦ rw (modify_epoll, e) h
  | inr (i, e) ↦ rw (modify_epoll, e) h
]

delivered-Holds :
    (fd : ℕ) (conn : Connection) (sent left : Bytes) (loop : EventLoop)
    → conn.fd ≡ fd
    → Holds fd (deliver conn sent left loop) (sent_to fd loop ++ (sent ++ left))
unfolding deliver
delivered-Holds fd conn sent left loop own c there =
    let changed : Connection = record conn { write_buffer = left } in
    let kept : c.write_buffer ≡ left =
      ground (arith, own, there, find_fd-put_fd conn.fd fd changed loop.connections) in
    let now : sent_to fd (deliver conn sent left loop) ≡ sent_to fd loop ++ sent =
      ground (arith, own, find_fd-put_fd conn.fd fd (sent_to conn.fd loop ++ sent) loop.sockets) in
    ap (λ b. b ++ c.write_buffer) now
    ∙ ap (λ b. (sent_to fd loop ++ sent) ++ b) kept
    ∙ append_assoc (sent_to fd loop) sent left

-- While the connection stays, what has been written to its socket and what is left in its buffer
-- make up the same text as before the call, in the same order, however many bytes each write takes.
pub handle_write-Holds :
    (fd : ℕ) (writes : List Write) (loop : EventLoop) (conn : Connection)
    → find_fd fd loop.connections ≡ some conn
    → conn.fd ≡ fd
    → Holds fd (handle_write fd writes loop) (sent_to fd loop ++ conn.write_buffer)
unfolding handle_write
handle_write-Holds fd writes loop conn found own =
    rw (handle_write, found)
      (flushed (write_all [] conn.write_buffer writes)
        (write_all-bytes_of [] conn.write_buffer writes))
  where
    flushed :
        (f : Flushed)
        → bytes_of f ≡ conn.write_buffer
        → Holds fd
            (elim f [
              | waits sent left ↦ deliver conn sent left loop
              | breaks sent left ↦ close_connection fd (deliver conn sent left loop)
              | all_written sent ↦
                  let written = deliver conn sent [] loop in
                  if conn.keep_alive
                  then modify_epoll fd edge written
                  else close_connection fd written
            ])
            (sent_to fd loop ++ conn.write_buffer)
    flushed (waits sent left) e = rw (sym e) (delivered-Holds fd conn sent left loop own)
    flushed (breaks sent left) e =
        closed-Holds fd (deliver conn sent left loop) (sent_to fd loop ++ conn.write_buffer)
    flushed (all_written sent) e =
        let written = deliver conn sent [] loop in
        let text = sent_to fd loop ++ conn.write_buffer in
        let held : Holds fd written text = λ c there.
          delivered-Holds fd conn sent [] loop own c there
          ∙ ap (λ b. sent_to fd loop ++ b) (append-nil sent ∙ e) in
        either-Holds fd conn.keep_alive (modify_epoll fd edge written) (close_connection fd written)
          text (modified-Holds fd written text held) (closed-Holds fd written text)
