-- ===== src/Http/Request/RoundTrip.antt =====
-- parse_request reads back what a client prints for a request.
use systems_craft.Prelude.{
  lines, attach, word, Lacks, lines-append, ℕ, ◌≡◌, ◌≢◌, refl, ap, ◌∙◌, inl, inr, true, false, ◌||◌,
  List, [], ◌∷◌, ◌++◌, map, none, some, arith, Bytes, codes, insert, is_space, skip_space, ◌==◌,
  beq, All, All-append, Bool-cases,
}
use systems_craft.Http.Request.{
  split_colon, strip_last, header_value, read_headers, join_lines, request_line, build_request,
  parse_request,
}

abbrev pub NoSpace : Bytes → Type 0
NoSpace = All (λ c. is_space c ≡ false)

abbrev header_line : Bytes × Bytes → Bytes
header_line h = h.0 ++ (b':' ∷ b' ' ∷ (h.1 ++ b'\r' ∷ []))

abbrev pub print_headers : List (Bytes × Bytes) → Bytes → Bytes
print_headers [] rest = rest
print_headers (h ∷ headers) rest = header_line h ++ b'\n' ∷ print_headers headers rest

-- The text of a request as clients send it.
unfoldable pub print_request : Bytes → Bytes → List (Bytes × Bytes) → Bytes → Bytes
print_request method path headers body =
    (method ++ (b' ' ∷ (path ++ codes " HTTP/1.1\r")))
    ++ b'\n' ∷ print_headers headers (b'\r' ∷ b'\n' ∷ body)

-- A list of headers as the map that `headers[key] = value` makes of it.
abbrev pub header_map : List (Bytes × Bytes) → List (Bytes × Bytes) → List (Bytes × Bytes)
header_map [] acc = acc
header_map (h ∷ headers) acc = header_map headers (insert h.0 h.1 acc)

-- Names without a colon, no line feed in names and values.
pub record IsHeader (h : Bytes × Bytes) : Type 0 where
  pub no_colon : Lacks b':' h.0
  pub name_line : Lacks b'\n' h.0
  pub value_line : Lacks b'\n' h.1

-- The text is empty or ends with another byte than `b`.
abbrev pub EndsBefore : ℕ → Bytes → Type 0
EndsBefore b [] = Unit
EndsBefore b (c ∷ []) = (c == b) ≡ false
EndsBefore b (c ∷ d ∷ cs) = EndsBefore b (d ∷ cs)

word-append :
    (w rest : Bytes) (s : ℕ) → NoSpace w → is_space s ≡ true → word (w ++ s ∷ rest) ≡ (w, s ∷ rest)
unfolding word
word-append [] rest s h e = rw e
word-append (c ∷ w) rest s h e = rw (h.0, word-append w rest s h.1 e)

skip_space-word : (w rest : Bytes) → NoSpace w → w ≢ [] → skip_space (w ++ rest) ≡ w ++ rest
unfolding skip_space
skip_space-word [] rest h ne = absurd (ne refl)
skip_space-word (c ∷ w) rest h ne = rw (h.0)

split_colon-append :
    (name rest : Bytes) → Lacks b':' name → split_colon (name ++ b':' ∷ rest) ≡ some (name, rest)
unfolding split_colon
split_colon-append [] rest h = refl
split_colon-append (c ∷ name) rest h = rw (h.0, split_colon-append name rest h.1)

strip_last-append : (b : ℕ) (xs : Bytes) → strip_last b (xs ++ b ∷ []) ≡ xs
unfolding strip_last
strip_last-append b [] = ground arith
strip_last-append b (x ∷ []) = ap (◌∷◌ x) (strip_last-append b [])
strip_last-append b (x ∷ y ∷ xs) = ap (◌∷◌ x) (strip_last-append b (y ∷ xs))

-- A header line is not the empty line that ends the headers.
header_line-continues :
    (name rest : Bytes)
    → (beq (name ++ b':' ∷ rest) (b'\r' ∷ []) || beq (name ++ b':' ∷ rest) []) ≡ false
unfolding beq
header_line-continues [] rest = refl
header_line-continues (c ∷ []) rest = ground arith
header_line-continues (c ∷ d ∷ name) rest = ground arith

read_headers-print :
    (headers acc : List (Bytes × Bytes)) (rest : List Bytes)
    → All IsHeader headers
    → read_headers (map header_line headers ++ rest) acc
      ≡ read_headers rest (header_map headers acc)
unfolding read_headers header_value beq
read_headers-print [] acc rest h = refl
read_headers-print (x ∷ headers) acc rest h =
    rw
      (
        header_line-continues x.0 (b' ' ∷ (x.1 ++ b'\r' ∷ [])),
        split_colon-append x.0 (b' ' ∷ (x.1 ++ b'\r' ∷ [])) h.0.no_colon,
      )
      (rw (strip_last-append b'\r' x.1) (read_headers-print headers (insert x.0 x.1 acc) rest h.1))

lines-print_headers :
    (headers : List (Bytes × Bytes)) (rest : Bytes)
    → All IsHeader headers
    → lines (print_headers headers rest) ≡ map header_line headers ++ lines rest
lines-print_headers [] rest h = refl
lines-print_headers (x ∷ headers) rest h =
    lines-append (header_line x) (print_headers headers rest) one_line
    ∙ ap (◌∷◌ (header_line x)) (lines-print_headers headers rest h.1)
  where
    one_line : Lacks b'\n' (header_line x)
    one_line =
        All-append _ x.0 (b':' ∷ b' ' ∷ (x.1 ++ b'\r' ∷ [])) h.0.name_line
          (refl, (refl, All-append _ x.1 (b'\r' ∷ []) h.0.value_line (refl, tt)))

join_lines-attach_twice :
    (c d : ℕ) (ls : List Bytes) → join_lines (attach c (attach d ls)) ≡ c ∷ join_lines (attach d ls)
unfolding join_lines
join_lines-attach_twice c d [] = refl
join_lines-attach_twice c d (l ∷ ls) = refl

join_lines-attach :
    (c d : ℕ) (cs : Bytes)
    → join_lines (attach c (lines (d ∷ cs))) ≡ c ∷ join_lines (lines (d ∷ cs))
unfolding lines
join_lines-attach c d cs = elim (Bool-cases (d == b'\n')) [
  | inl e ↦ rw e (unfold join_lines in refl)
  | inr e ↦ rw e (join_lines-attach_twice c d (lines cs))
]

join_lines-lines :
    (c : ℕ) (cs : Bytes)
    → EndsBefore b'\n' (c ∷ cs)
    → join_lines (lines (c ∷ cs)) ≡ (c ∷ cs) ++ b'\n' ∷ []
unfolding join_lines lines
join_lines-lines c [] h = rw h
join_lines-lines c (d ∷ cs) h = elim (Bool-cases (c == b'\n')) [
  | inl e ↦ let same : c ≡ b'\n' = ground (arith, e) in rw e (cc (same, join_lines-lines d cs h))
  | inr e ↦ rw e (join_lines-attach c d cs ∙ ap (◌∷◌ c) (join_lines-lines d cs h))
]

-- The body's lines joined again, without the newline that the joining adds.
strip_last-join_lines :
    (body : Bytes) → EndsBefore b'\n' body → strip_last b'\n' (join_lines (lines body)) ≡ body
strip_last-join_lines [] h = unfold lines join_lines strip_last in refl
strip_last-join_lines (c ∷ cs) h =
    ap (strip_last b'\n') (join_lines-lines c cs h) ∙ strip_last-append b'\n' (c ∷ cs)

request_line-print :
    (method path : Bytes)
    → NoSpace method
    → NoSpace path
    → method ≢ []
    → path ≢ []
    → request_line (method ++ (b' ' ∷ (path ++ codes " HTTP/1.1\r"))) ≡ (method, path)
unfolding request_line is_space
request_line-print method path hm hp nm np =
    rw
      (
        skip_space-word method (b' ' ∷ (path ++ codes " HTTP/1.1\r")) hm nm,
        word-append method (path ++ codes " HTTP/1.1\r") b' ' hm refl,
      )
      (unfold skip_space in
        rw (
          skip_space-word path (codes " HTTP/1.1\r") hp np,
          word-append path (codes "HTTP/1.1\r") b' ' hp refl,
        ))

-- A byte that is no space is no line feed.
NoSpace-Lacks : (w : Bytes) → NoSpace w → Lacks b'\n' w
unfolding is_space
NoSpace-Lacks [] h = tt
NoSpace-Lacks (c ∷ w) h = (ground (arith, h.0), NoSpace-Lacks w h.1)

-- A request is read back as it was printed: method and path without white space, header names
-- without a colon, no line feed in the headers, and a body that does not end with a line feed.
-- Of headers with one name the last one stays.
pub parse_request-print :
    (method path : Bytes) (headers : List (Bytes × Bytes)) (body : Bytes)
    → NoSpace method
    → NoSpace path
    → method ≢ []
    → path ≢ []
    → All IsHeader headers
    → EndsBefore b'\n' body
    → parse_request (print_request method path headers body)
      ≡ some (record { method = method; path = path; body = body; headers = header_map headers [] })
unfolding parse_request print_request build_request read_headers beq
parse_request-print method path headers body hm hp nm np hh hb = rw all_lines (
    rw
      (
        read_headers-print headers [] ((b'\r' ∷ []) ∷ lines body) hh,
        request_line-print method path hm hp nm np,
        build_request,
      )
      (rw (strip_last-join_lines body hb)))
  where
    first : Bytes
    first = method ++ (b' ' ∷ (path ++ codes " HTTP/1.1\r"))

    one_line : Lacks b'\n' first
    one_line =
        All-append _ method (b' ' ∷ (path ++ codes " HTTP/1.1\r")) (NoSpace-Lacks method hm)
          (refl, All-append _ path (codes " HTTP/1.1\r") (NoSpace-Lacks path hp) (ground arith))

    all_lines :
        lines (first ++ b'\n' ∷ print_headers headers (b'\r' ∷ b'\n' ∷ body))
        ≡ first ∷ (map header_line headers ++ (b'\r' ∷ []) ∷ lines body)
    all_lines =
        lines-append first (print_headers headers (b'\r' ∷ b'\n' ∷ body)) one_line
        ∙ ap (◌∷◌ first) (
            lines-print_headers headers (b'\r' ∷ b'\n' ∷ body) hh
            ∙ ap (◌++◌ (map header_line headers)) (lines-append (b'\r' ∷ []) body (refl, tt)))

-- A header line whose only colon is its last byte makes `substr` throw, whatever follows.
pub parse_request_throws :
    (line name : Bytes) (headers : List (Bytes × Bytes)) (rest : Bytes)
    → Lacks b'\n' line
    → All IsHeader headers
    → Lacks b':' name
    → Lacks b'\n' name
    → parse_request (line ++ b'\n' ∷ print_headers headers ((name ++ b':' ∷ []) ++ b'\n' ∷ rest))
      ≡ none
unfolding parse_request build_request
parse_request_throws line name headers rest hl hh hc hn = rw all_lines (
    rw (read_headers-print headers [] ((name ++ b':' ∷ []) ∷ lines rest) hh, thrown, build_request))
  where
    thrown : read_headers ((name ++ b':' ∷ []) ∷ lines rest) (header_map headers []) ≡ none
    thrown =
        unfold read_headers header_value in
        rw (header_line-continues name [], split_colon-append name [] hc)

    all_lines :
        lines (line ++ b'\n' ∷ print_headers headers ((name ++ b':' ∷ []) ++ b'\n' ∷ rest))
        ≡ line ∷ (map header_line headers ++ (name ++ b':' ∷ []) ∷ lines rest)
    all_lines =
        lines-append line (print_headers headers ((name ++ b':' ∷ []) ++ b'\n' ∷ rest)) hl
        ∙ ap (◌∷◌ line) (
            lines-print_headers headers ((name ++ b':' ∷ []) ++ b'\n' ∷ rest) hh
            ∙ ap (◌++◌ (map header_line headers)) (
                lines-append (name ++ b':' ∷ []) rest
                  (All-append _ name (b':' ∷ []) hn (refl, tt))))
