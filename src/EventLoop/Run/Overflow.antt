-- ===== src/EventLoop/Run/Overflow.antt =====
-- A declared body length with which the sum in handle_read does not fit into 64 bits.
use systems_craft.Prelude.{
  ℕ, ◌+◌, ◌*◌, ◌%◌, ◌^◌, ◌≤◌, ◌<◌, ◌≡◌, sym, ap, ◌∙◌, false, List, ◌++◌, Option, some, arith, Bytes,
  ltb, ◌==◌, if◌then◌else◌, length, length-append,
}
use systems_craft.EventLoop.Table.{find_fd}
use systems_craft.EventLoop.Framing.{incomplete, complete, frame, blank_line}
use systems_craft.EventLoop.Framing.Whole.{IsHead, declared, frame-head}
use systems_craft.EventLoop.Loop.{Connection, EventLoop, take_request}
use systems_craft.EventLoop.Run.{process}
use systems_craft.EventLoop.Run.Reading.{
  input, concat, handed_over, handle_read-frame, take_request_whole,
}

wrapped :
    (size have wrap : ℕ)
    → wrap + 2 ^ 64 ≡ size
    → wrap ≤ have
    → size < 2 * 2 ^ 64
    → (if ltb have (size % 2 ^ 64) then incomplete else complete (size % 2 ^ 64)) ≡ complete wrap
wrapped size have wrap e h l = ground arith

-- If the length in a head is below 2 ^ 64, but not the size of the request, the bytes handed over
-- are only the first ones of the head, as many as the size exceeds 2 ^ 64 by, and the rest stays
-- in the buffer as if another request began there.
pub handle_read-wraps :
    (stoull : Bytes → Option ℕ) (listen_fd fd : ℕ) (chunks : List Bytes) (loop : EventLoop)
    (conn : Connection) (head more part rest : Bytes) (n : ℕ)
    → (fd == listen_fd) ≡ false
    → find_fd fd loop.connections ≡ some conn
    → IsHead head
    → declared stoull head ≡ some n
    → n < 2 ^ 64
    → length head + 4 < 2 ^ 64
    → conn.read_buffer ++ concat chunks ≡ head ++ (blank_line ++ more)
    → part ++ rest ≡ head ++ (blank_line ++ more)
    → length part + 2 ^ 64 ≡ length head + 4 + n
    → (length part < length head + 4)
      × (process stoull listen_fd (input fd chunks) loop ≡ handed_over conn part rest loop)
handle_read-wraps stoull listen_fd fd chunks loop conn head more part rest n client found h d small
      head_small parts cut size =
    let split_size : length part ≤ length (head ++ (blank_line ++ more)) =
      omega (arith, sym (length-append part rest), ap length cut) in
    let framed : frame stoull (head ++ (blank_line ++ more)) ≡ complete (length part) =
      frame-head stoull head more n h d
      ∙ wrapped (length head + 4 + n) _ (length part) size split_size (omega arith) in
    (
      omega arith,
      handle_read-frame stoull listen_fd fd chunks loop conn client found
          ∙ ap (λ b. take_request conn b (frame stoull b) loop) parts
          ∙ ap (λ f. take_request conn (head ++ (blank_line ++ more)) f loop) framed
          ∙ ap (λ b. take_request conn b (complete (length part)) loop) (sym cut)
          ∙ take_request_whole conn part rest loop,
    )
