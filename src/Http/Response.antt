-- ===== src/Http/Response.antt =====
-- HttpServer::format_response: how a client finds the body in it.
use systems_craft.Prelude.{
  ℕ, ◌≡◌, refl, ap, ◌∙◌, inl, inr, true, false, List, [], ◌∷◌, ◌++◌, append_assoc, some, arith,
  Bytes, codes, All, All-append, Lacks, find, find-append, after_prefix, to_string, to_string-All,
  is_digit, read_digits, read-to_string, read_digits-Stops, ◌==◌, length, Bool-cases,
}
use systems_craft.Http.{HttpResponse, reason_phrase, crlf, format_headers, format_response}

-- Names and values without a carriage return.
abbrev pub HeadersPlain : List (Bytes × Bytes) → Type 0
HeadersPlain = All (λ h. Lacks b'\r' h.0 × Lacks b'\r' h.1)

digits-Lacks : (text : Bytes) → All (λ c. is_digit c ≡ true) text → Lacks b'\r' text
unfolding is_digit
digits-Lacks [] h = tt
digits-Lacks (c ∷ text) (d, h) = (ground (arith, d), digits-Lacks text h)

reason_phrase-Lacks : (status : ℕ) → Lacks b'\r' (reason_phrase status)
unfolding reason_phrase
reason_phrase-Lacks status = elim (Bool-cases (status == 200)) [
  | inl e ↦ rw e (ground arith)
  | inr e ↦ elim (Bool-cases (status == 400)) [
    | inl f ↦ rw (e, f) (ground arith)
    | inr f ↦ elim (Bool-cases (status == 429)) [
      | inl g ↦ rw (e, f, g) (ground arith)
      | inr g ↦ elim (Bool-cases (status == 500)) [
        | inl k ↦ rw (e, f, g, k) (ground arith)
        | inr k ↦ rw (e, f, g, k) (ground arith)
      ]
    ]
  ]
]

abbrev pub blank_line : Bytes
blank_line = codes "\r\n\r\n"

find-header :
    (name value rest : Bytes) (headers : List (Bytes × Bytes))
    → Lacks b'\r' name
    → Lacks b'\r' value
    → find blank_line (format_headers ((name, value) ∷ headers) ++ rest)
      ≡ find blank_line (crlf ++ (format_headers headers ++ rest))
unfolding format_headers
find-header name value rest headers n v =
    ap (find blank_line) grouped
    ∙ find-append b'\r' (codes "\n\r\n") (name ++ (codes ": " ++ value)) _
        (All-append _ name _ n (All-append _ (codes ": ") _ (ground arith) v))
  where
    grouped :
        format_headers ((name, value) ∷ headers) ++ rest
        ≡ (name ++ (codes ": " ++ value)) ++ (crlf ++ (format_headers headers ++ rest))
    grouped = simp append_assoc

-- From the end of a line on, the headers are passed over.
find-format_headers :
    (headers : List (Bytes × Bytes)) (body : Bytes)
    → HeadersPlain headers
    → find blank_line (crlf ++ (format_headers headers ++ (crlf ++ body))) ≡ some body
unfolding format_headers find after_prefix
find-format_headers [] body h = refl
find-format_headers (([], value) ∷ headers) body (h, hs) =
    find-header [] value (crlf ++ body) headers h.0 h.1 ∙ find-format_headers headers body hs
find-format_headers ((c ∷ name, value) ∷ headers) body (h, hs) =
    let flip : (b'\r' == c) ≡ false = ground (arith, h.0.0) in
    rw (find, flip)
      (find-header (c ∷ name) value (crlf ++ body) headers h.0 h.1
        ∙ find-format_headers headers body hs)

-- The first blank line of a response is in front of its body, and the number behind the first
-- Content-Length at the begin of a line is the body's length: a client that frames by either one
-- gets the body. The headers have no carriage return.
pub format_response-framed :
    (r : HttpResponse)
    → HeadersPlain r.headers
    → (find blank_line (format_response r) ≡ some r.body)
      × (rest : Bytes) × (find (codes "\r\nContent-Length: ") (format_response r) ≡ some rest)
      × (read_digits 0 rest ≡ length r.body)
unfolding find after_prefix is_digit
format_response-framed r h = (
  ap (find blank_line) grouped
      ∙ find-append b'\r' (codes "\n\r\n") status_line _ status_line-Lacks
      ∙ find-append b'\r' (codes "\n\r\n") (codes "Content-Length: " ++ to_string (length r.body)) _
          (All-append _ (codes "Content-Length: ") _ (ground arith)
            (digits-Lacks _ (to_string-All (length r.body))))
      ∙ find-format_headers r.headers r.body h,
  to_string (length r.body) ++ (crlf ++ (format_headers r.headers ++ (crlf ++ r.body))),
  ap (find (codes "\r\nContent-Length: ")) grouped
      ∙ find-append b'\r' (codes "\nContent-Length: ") status_line _ status_line-Lacks
      ∙ refl,
  read-to_string (length r.body) _ ∙ read_digits-Stops (length r.body) _ refl,
)
  where
    status_line : Bytes
    status_line =
        codes "HTTP/1.1 " ++ (to_string r.status_code ++ (codes " " ++ reason_phrase r.status_code))

    status_line-Lacks : Lacks b'\r' status_line
    status_line-Lacks = All-append _ (codes "HTTP/1.1 ") _ (ground arith) (
        All-append _ (to_string r.status_code) _ (digits-Lacks _ (to_string-All r.status_code))
          (refl, reason_phrase-Lacks r.status_code))

    grouped :
        format_response r
        ≡ status_line
          ++ (crlf
              ++ ((codes "Content-Length: " ++ to_string (length r.body))
                  ++ (crlf ++ (format_headers r.headers ++ (crlf ++ r.body)))))
    grouped = unfold format_response in simp append_assoc
