-- ===== src/EventLoop/Framing/Whole.antt =====
-- The frame that handle_read finds where all of a request, or a part of it, has arrived.
use systems_craft.Prelude.{
  ℕ, zero, suc, ◌+◌, ◌-◌, ◌%◌, ◌^◌, ◌≤◌, ◌<◌, ◌≡◌, refl, sym, ap, ◌∙◌, inl, inr, true, false, [],
  ◌∷◌, ◌++◌, append_assoc, Option, none, some, arith, Bytes, split, split_sound, split-length,
  split-append, after_prefix, ltb, if◌then◌else◌, length, length-append, drop, Lacks, Option-cases,
}
use systems_craft.EventLoop.Framing.{
  blank_line, crlf, length_key, skip_blanks, content_length, incomplete, complete, frame,
}

-- The head of a request, without the blank line behind it.
abbrev pub IsHead : Bytes → Type 0
IsHead head = split blank_line (head ++ blank_line) ≡ some (head, blank_line)

-- What a head declares of the body: the number in the rest of the line behind the first
-- Content-Length, and 0 if there is none.
abbrev pub rest_of_line : Bytes → Bytes
rest_of_line text = elim (split crlf text) [ none ↦ text | some (value, _) ↦ value ]

unfoldable pub declared : (Bytes → Option ℕ) → Bytes → Option ℕ
declared stoull head = elim (split length_key head) [
  | none ↦ some 0
  | some (_, from) ↦ stoull (rest_of_line (skip_blanks (length (drop 15 from)) (drop 15 from)))
]

drop-append : (n : ℕ) (xs ys : Bytes) → n ≤ length xs → drop n (xs ++ ys) ≡ drop n xs ++ ys
drop-append zero xs ys h = refl
drop-append (suc n) [] ys h = absurd (omega arith)
drop-append (suc n) (x ∷ xs) ys h = drop-append n xs ys (omega arith)

length-drop : (n : ℕ) (xs : Bytes) → length (drop n xs) ≡ length xs - n
length-drop zero xs = omega arith
length-drop (suc n) [] = omega arith
length-drop (suc n) (x ∷ xs) = omega (arith, length-drop n xs)

skip_blanks-append :
    (text more : Bytes)
    → skip_blanks (length text) (text ++ more) ≡ skip_blanks (length text) text ++ more
unfolding skip_blanks
skip_blanks-append [] more = refl
skip_blanks-append (c ∷ text) more = ground (arith, skip_blanks-append text more)

-- A pattern without a carriage return does not reach over one.
after_prefix-cross :
    (p text more : Bytes)
    → Lacks b'\r' p
    → after_prefix p text ≡ none
    → after_prefix p (text ++ b'\r' ∷ more) ≡ none
unfolding after_prefix
after_prefix-cross [] text more l h = cc
after_prefix-cross (a ∷ p) [] more l h = rw l.0
after_prefix-cross (a ∷ p) (c ∷ text) more l h = ground (arith, after_prefix-cross p text more l.1)

split-cross :
    (p text more before from : Bytes)
    → Lacks b'\r' p
    → split p text ≡ none
    → split p (text ++ b'\r' ∷ more) ≡ some (before, from)
    → length text ≤ length before
unfolding split
split-cross p [] more before from l h e = omega arith
split-cross p (c ∷ text) more before from l h e = elim (Option-cases (after_prefix p (c ∷ text))) [
  | inl f ↦
      let crossed = after_prefix-cross p (c ∷ text) more l f in
      elim (Option-cases (split p text)) [
        | inl g ↦ elim (Option-cases (split p (text ++ b'\r' ∷ more))) [
          | inl k ↦ ground (arith, crossed, k)
          | inr ((b, a), k) ↦ ground (arith, crossed, k, split-cross p text more b a l g k)
        ]
        | inr ((b, a), g) ↦ ground (arith, f, g)
      ]
  | inr (rest, f) ↦ ground (arith, f)
]

-- The line ends at the line break behind it, if there is none before.
split-crlf_append :
    (text more : Bytes)
    → split crlf text ≡ none
    → split crlf (text ++ b'\r' ∷ b'\n' ∷ more) ≡ some (text, b'\r' ∷ b'\n' ∷ more)
unfolding split after_prefix
split-crlf_append [] more h = refl
split-crlf_append (c ∷ []) more h = ground arith
split-crlf_append (c ∷ d ∷ text) more h = elim (Option-cases (split crlf (d ∷ text))) [
  | inl e ↦ ground (arith, e, split-crlf_append (d ∷ text) more e)
  | inr ((b, a), e) ↦ ground (arith, e)
]

split-crlf-rest_of_line :
    (text more : Bytes)
    → (from : Bytes) × (split crlf (text ++ b'\r' ∷ b'\n' ∷ more) ≡ some (rest_of_line text, from))
split-crlf-rest_of_line text more = elim (Option-cases (split crlf text)) [
  | inl e ↦ (b'\r' ∷ b'\n' ∷ more, split-crlf_append text more e ∙ rw (e, rest_of_line) refl)
  | inr ((b, a), e) ↦
      (a ++ b'\r' ∷ b'\n' ∷ more, split-append crlf text _ b a e ∙ rw (e, rest_of_line) refl)
]

abbrev tail_of : Bytes → Bytes
tail_of [] = []
tail_of (c ∷ cs) = cs

-- Of two ways to cut a text the longer first part begins with the shorter one.
pub prefix_of :
    (p a y q : Bytes) → a ++ y ≡ p ++ q → length p ≤ length a → (rest : Bytes) × (a ≡ p ++ rest)
prefix_of [] a y q e h = (a, refl)
prefix_of (c ∷ p) [] y q e h = absurd (omega arith)
prefix_of (c ∷ p) (d ∷ a) y q e h =
    let ih = prefix_of p a y q (ap tail_of e) (omega arith) in (ih.0, ground (arith, e, ih.1))

module _ (stoull : Bytes → Option ℕ) where
  -- The code reads from the buffer what the head alone declares.
  content_length-declared :
      (head more : Bytes)
      → content_length stoull (head ++ (blank_line ++ more)) (length head) ≡ declared stoull head
  unfolding declared content_length
  content_length-declared head more = elim (Option-cases (split length_key head)) [
    | inl e ↦ elim (Option-cases (split length_key (head ++ (blank_line ++ more)))) [
      | inl f ↦ rw (content_length, declared, e, f) refl
      | inr ((b, a), f) ↦
          let past = split-cross length_key head _ b a (ground arith) e f in
          let outside : ltb (length b) (length head) ≡ false = ground (arith, past) in
          rw (content_length, declared, e, f, outside) refl
    ]
    | inr ((b, a), e) ↦
        let long = split-length length_key head b a e in
        let parts = ap length (split_sound length_key head b a e) ∙ length-append b a in
        let inside : ltb (length b) (length head) ≡ true = ground (arith, long, parts) in
        let bound : length head - (length b + 15) ≡ length (drop 15 a) =
          omega (arith, parts, length-drop 15 a) in
        let line =
          split-crlf-rest_of_line (skip_blanks (length (drop 15 a)) (drop 15 a)) (crlf ++ more) in
        rw
          (
            content_length,
            declared,
            e,
            split-append length_key head (blank_line ++ more) b a e,
            inside,
            bound,
            drop-append 15 a (blank_line ++ more) long,
            skip_blanks-append (drop 15 a) (blank_line ++ more),
            line.1,
          )
          refl
  ]

  -- The frame as soon as the blank line is there.
  pub frame-head :
      (head more : Bytes) (n : ℕ)
      → IsHead head
      → declared stoull head ≡ some n
      → frame stoull (head ++ (blank_line ++ more)) ≡ (
          if ltb (length (head ++ (blank_line ++ more))) ((length head + 4 + n) % 2 ^ 64)
          then incomplete
          else complete ((length head + 4 + n) % 2 ^ 64))
  unfolding frame
  frame-head head more n h d =
      let found : split blank_line (head ++ (blank_line ++ more))
          ≡ some (head, blank_line ++ more) =
        ap (split blank_line) (sym (append_assoc head blank_line more))
        ∙ split-append blank_line (head ++ blank_line) more head blank_line h in
      rw (frame, found, content_length-declared head more, d) refl

  -- A head and a body of the length that it declares.
  pub record IsRequest (head body : Bytes) : Type 0 where
    pub is_head : IsHead head
    pub declares : declared stoull head ≡ some (length body)
    pub fits : length head + 4 + length body < 2 ^ 64

  length-request :
      (head more : Bytes) → length (head ++ (blank_line ++ more)) ≡ length head + 4 + length more
  length-request head more = omega (arith, length-append head (blank_line ++ more))

  -- All of the request is there, whatever follows it.
  pub frame-complete :
      (head body more : Bytes)
      → IsRequest head body
      → frame stoull ((head ++ (blank_line ++ body)) ++ more)
        ≡ complete (length (head ++ (blank_line ++ body)))
  frame-complete head body more r =
      ap (frame stoull) (append_assoc head (blank_line ++ body) more)
      ∙ frame-head head (body ++ more) (length body) r.is_head r.declares
      ∙ ground (
        arith,
        r.fits,
        length-request head (body ++ more),
        length-request head body,
        length-append body more,
      )

  -- Only a part of the request is there.
  pub frame-incomplete :
      (head body part rest : Bytes)
      → IsRequest head body
      → part ++ rest ≡ head ++ (blank_line ++ body)
      → length part < length (head ++ (blank_line ++ body))
      → frame stoull part ≡ incomplete
  unfolding frame
  frame-incomplete head body part rest r e short = elim (Option-cases (split blank_line part)) [
    | inl f ↦ rw (frame, f) refl
    | inr ((b, a), f) ↦
        let found : split blank_line (head ++ (blank_line ++ body))
            ≡ some (head, blank_line ++ body) =
          ap (split blank_line) (sym (append_assoc head blank_line body))
          ∙ split-append blank_line (head ++ blank_line) body head blank_line r.is_head in
        let here = split-append blank_line part rest b a f in
        let same : some (b, a ++ rest) ≡ some (head, blank_line ++ body) =
          sym here ∙ ap (split blank_line) e ∙ found in
        let same_head : b ≡ head = cc same in
        let same_rest : a ++ rest ≡ blank_line ++ body = cc same in
        let (more, cut) =
          prefix_of blank_line a rest body same_rest (split-length blank_line part b a f) in
        let shape : part ≡ head ++ (blank_line ++ more) =
          split_sound blank_line part b a f ∙ cc (same_head, cut) in
        ap (frame stoull) shape
        ∙ frame-head head more (length body) r.is_head r.declares
        ∙ ground
            (arith, r.fits, ap length shape, length-request head body, length-request head more)
  ]
