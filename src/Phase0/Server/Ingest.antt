-- ===== src/Phase0/Server/Ingest.antt =====
-- What the proof of concept does with a request that posts one metric.
use systems_craft.Prelude.{
  take-all, after_prefix, find, find-append, Lacks, List, ◌≤◌, ◌≡◌, refl, ap, ◌∙◌, inl, inr, false,
  [], ◌∷◌, ◌++◌, Option, none, some, arith, Bytes, codes, beq, All, All-append, skip_space, word,
  is_space, ◌==◌, Option-cases, length, take,
}
use systems_craft.Phase0.{NumberOps, is_quote, is_end, name_key, value_key, StorageConsumer, push}
use systems_craft.Phase0.Storage.{until-append}
use systems_craft.Phase0.Server.{
  Ingested, read, crashes, c_string, response, parse_ingestion_json, answers, post_metrics,
  handle_client,
}

-- The body and the request with a name and the text of a value.
abbrev pub print_body : Bytes → Bytes → Bytes
print_body name number =
    codes "{\"name\":\"" ++ (name ++ (codes "\",\"value\":" ++ (number ++ codes "}")))

-- Header lines and the blank line in front of a body.
abbrev pub print_lines : List Bytes → Bytes → Bytes
print_lines [] body = codes "\r\n\r\n" ++ body
print_lines (line ∷ lines) body = b'\r' ∷ b'\n' ∷ (line ++ print_lines lines body)

abbrev pub print_post : List Bytes → Bytes → Bytes → Bytes
print_post headers name number =
    codes "POST /metrics HTTP/1.1" ++ print_lines headers (print_body name number)

-- A header line: some text without a carriage return and without a byte 0.
abbrev pub IsLine : Bytes → Type 0
IsLine [] = ⊥
IsLine (c ∷ line) = Lacks b'\r' (c ∷ line) × All (λ b. (b == 0) ≡ false) (c ∷ line)

find-print_lines :
    (headers : List Bytes) (body : Bytes)
    → All IsLine headers
    → find (codes "\r\n\r\n") (print_lines headers body) ≡ some body
unfolding find after_prefix
find-print_lines [] body h = refl
find-print_lines ([] ∷ headers) body h = absurd h.0
find-print_lines ((c ∷ line) ∷ headers) body h = ground (
  arith,
  h.0.0.0,
  find-append b'\r' (codes "\n\r\n") line (print_lines headers body) h.0.0.1,
  find-print_lines headers body h.1,
)

no_zero-print_lines :
    (headers : List Bytes) (body : Bytes)
    → All IsLine headers
    → All (λ c. (c == 0) ≡ false) body
    → All (λ c. (c == 0) ≡ false) (print_lines headers body)
no_zero-print_lines [] body h b = (refl, (refl, (refl, (refl, b))))
no_zero-print_lines ([] ∷ headers) body h b = absurd h.0
no_zero-print_lines ((c ∷ line) ∷ headers) body h b = (
  refl,
  (
    refl,
    (
      h.0.1.0,
      All-append _ line (print_lines headers body) h.0.1.1 (no_zero-print_lines headers body h.1 b),
    ),
  ),
)

-- No quotation mark, and no byte 0.
pub record IsPosted (name number : Bytes) : Type 0 where
  pub no_quote : All (λ c. is_quote c ≡ false) name
  pub no_end : All (λ c. is_end c ≡ false) number
  pub name_bytes : All (λ c. (c == 0) ≡ false) name
  pub number_bytes : All (λ c. (c == 0) ≡ false) number

-- A quoted text in front of a comma is no key.
after_prefix-none :
    (key name rest : Bytes)
    → All (λ c. is_quote c ≡ false) key
    → All (λ c. is_quote c ≡ false) name
    → after_prefix (key ++ codes "\":") (name ++ (codes "\"," ++ rest)) ≡ none
unfolding after_prefix
after_prefix-none [] [] rest k n = refl
after_prefix-none [] (c ∷ name) rest k n = ground (arith, n.0)
after_prefix-none (a ∷ key) [] rest k n = rw k.0
after_prefix-none (a ∷ key) (c ∷ name) rest k n =
    ground (arith, after_prefix-none key name rest k.1 n.1)

find-skip :
    (name rest : Bytes)
    → All (λ c. is_quote c ≡ false) name
    → find value_key (name ++ rest) ≡ find value_key rest
unfolding find after_prefix
find-skip [] rest n = refl
find-skip (c ∷ name) rest n = ground (arith, n.0, find-skip name rest n.1)

find-value_key :
    (name rest : Bytes)
    → All (λ c. is_quote c ≡ false) name
    → find value_key (codes "{\"name\":\"" ++ (name ++ (codes "\",\"value\":" ++ rest))) ≡ some rest
unfolding find after_prefix
find-value_key name rest n =
    rw (find, after_prefix-none (codes "value") name (codes "\"value\":" ++ rest) (ground arith) n)
      (find-skip name (codes "\",\"value\":" ++ rest) n)

c_string-same : (xs : Bytes) → All (λ c. (c == 0) ≡ false) xs → c_string xs ≡ xs
unfolding c_string
c_string-same [] h = refl
c_string-same (x ∷ xs) h = rw (h.0, c_string-same xs h.1)

module _ {D I : Type 0} (ops : NumberOps D I) where
  -- What is read of the value decides between a metric and a crash.
  abbrev ingested : Bytes → Option D → Ingested D
  ingested name none = crashes
  ingested name (some value) = read name value

  parse_ingestion_json-print :
      (name number : Bytes)
      → IsPosted name number
      → parse_ingestion_json ops (print_body name number) ≡ ingested name (ops.stod number)
  unfolding parse_ingestion_json
  parse_ingestion_json-print name number h =
      rw
        (
          parse_ingestion_json,
          find-name,
          until-append is_quote name b'"' (codes ",\"value\":" ++ (number ++ codes "}")) h.no_quote
              refl,
          find-value_key name (number ++ codes "}") h.no_quote,
          until-append is_end number b'}' [] h.no_end refl,
        )
        refl
    where
      find-name :
          find name_key (print_body name number)
          ≡ some (name ++ (codes "\",\"value\":" ++ (number ++ codes "}")))
      find-name = unfold find in unfold after_prefix in refl

  -- What becomes of a posted metric whose value reads as given.
  abbrev pub posted :
      I → StorageConsumer ops → Bytes → Option D → Option (StorageConsumer ops × Bytes)
  posted now s name none = none
  posted now s name (some value) =
      answers ops (push ops (record { name = name; value = value; timestamp = now }) s)
        (response (codes "202 Accepted") (codes "21") (codes "{\"status\":\"accepted\"}"))

  post_metrics-print :
      (now : I) (s : StorageConsumer ops) (headers : List Bytes) (name number : Bytes)
      → All IsLine headers
      → IsPosted name number
      → post_metrics ops now s (print_post headers name number)
        ≡ posted now s name (ops.stod number)
  unfolding post_metrics
  post_metrics-print now s headers name number lines h =
      rw (post_metrics, find-body, parse_ingestion_json-print name number h)
        (elim (Option-cases (ops.stod number)) [ inl e ↦ rw e refl | inr (v, e) ↦ rw e refl ])
    where
      find-body :
          find (codes "\r\n\r\n") (print_post headers name number) ≡ some (print_body name number)
      find-body =
          find-append b'\r' (codes "\n\r\n") (codes "POST /metrics HTTP/1.1")
            (print_lines headers (print_body name number)) (ground arith)
          ∙ find-print_lines headers (print_body name number) lines

  no_zero :
      (headers : List Bytes) (name number : Bytes)
      → All IsLine headers
      → IsPosted name number
      → All (λ c. (c == 0) ≡ false) (print_post headers name number)
  no_zero headers name number lines h =
      All-append _ (codes "POST /metrics HTTP/1.1") _ (ground arith) (
        no_zero-print_lines headers (print_body name number) lines (
          All-append _ (codes "{\"name\":\"") _ (ground arith) (
            All-append _ name _ h.name_bytes (
              All-append _ (codes "\",\"value\":") _ (ground arith)
                (All-append _ number _ h.number_bytes (refl, tt))))))

  -- A posted metric is queued under the time of the request and answered with 202 if its value
  -- reads as a number; if it does not, the exception ends the program. The request fits into the
  -- buffer, its header lines are not empty and have no carriage return, the name has no quotation
  -- mark, the value's text no comma and no closing brace, and none of these has a byte 0.
  pub handle_client-posted :
      (now earliest latest : I) (s : StorageConsumer ops) (headers : List Bytes)
      (name number : Bytes)
      → All IsLine headers
      → IsPosted name number
      → length (print_post headers name number) ≤ 4095
      → handle_client ops now earliest latest s (print_post headers name number)
        ≡ posted now s name (ops.stod number)
  unfolding handle_client
  handle_client-posted now earliest latest s headers name number lines h fits =
      rw (handle_client, received)
        (unfold word in
          unfold skip_space in
          unfold is_space in unfold beq in post_metrics-print now s headers name number lines h)
    where
      received :
          c_string (take 4095 (print_post headers name number)) ≡ print_post headers name number
      received =
          ap c_string (take-all 4095 (print_post headers name number) fits)
          ∙ c_string-same (print_post headers name number) (no_zero headers name number lines h)
