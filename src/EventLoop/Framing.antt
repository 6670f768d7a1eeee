-- ===== src/EventLoop/Framing.antt =====
-- The part of EventLoop::handle_read that finds the end of a request in the read buffer.
-- `std::stoull` is the parameter `stoull`; it throws where it is `none`.
pub mod Whole
use systems_craft.Prelude.{
  ℕ, zero, suc, ◌+◌, ◌-◌, ◌%◌, ◌^◌, List, [], ◌∷◌, Option, none, some, Bytes, codes, split, ltb,
  ◌==◌, if◌then◌else◌, length, drop,
}

abbrev pub blank_line : Bytes
blank_line = codes "\r\n\r\n"

abbrev pub crlf : Bytes
crlf = codes "\r\n"

abbrev pub length_key : Bytes
length_key = codes "Content-Length:"

-- At most `n` blanks are passed over.
unfoldable pub skip_blanks : ℕ → Bytes → Bytes
skip_blanks zero text = text
skip_blanks (suc n) [] = []
skip_blanks (suc n) (c ∷ cs) = let rest = skip_blanks n cs in if c == b' ' then rest else c ∷ cs

-- The declared length of the body; `none` is the exception.
pub content_length : (Bytes → Option ℕ) → Bytes → ℕ → Option ℕ
unfolding skip_blanks
content_length stoull buffer header_end = elim (split length_key buffer) [
  | none ↦ some 0
  | some (before, from) ↦
      if ltb (length before) header_end
      then (let value_start = length before + 15 in
          elim (split crlf (skip_blanks (header_end - value_start) (drop 15 from))) [
            | none ↦ some 0
            | some (cl_str, _) ↦ stoull cl_str
          ])
      else some 0
]

-- More bytes are needed, the length is invalid, or there is a request of this many bytes.
pub data Frame : Type 0 where
  incomplete invalid : Frame
  complete : ℕ → Frame

pub frame : (Bytes → Option ℕ) → Bytes → Frame
unfolding content_length
frame stoull buffer = elim (split blank_line buffer) [
  | none ↦ incomplete
  | some (head, _) ↦ elim (content_length stoull buffer (length head)) [
    | none ↦ invalid
    | some n ↦
        let expected_size = (length head + 4 + n) % 2 ^ 64 in
        if ltb (length buffer) expected_size then incomplete else complete expected_size
  ]
]
