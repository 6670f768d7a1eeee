-- ===== src/Phase0/Storage.antt =====
-- What is pushed into the queue can be queried once the storage thread has written it.
use systems_craft.Prelude.{
  after_prefix, find, ℕ, ◌≡◌, refl, Bool, true, false, [], ◌∷◌, ◌++◌, some, arith, Bytes, codes,
  Lacks, All, All-append,
}
use systems_craft.Phase0.{
  NumberOps, Metric, found, until, is_quote, is_end, to_json, parse_time, parse_value, parse_metric,
}

-- A text that a line can hold as a number: no comma, no closing brace, no line feed.
pub record IsPlain (text : Bytes) : Type 0 where
  pub no_end : All (λ c. is_end c ≡ false) text
  pub no_line : Lacks b'\n' text

-- Numbers are printed as plain text that is read back, with the precision that printing keeps.
pub record Reads {D I : Type 0} (ops : NumberOps D I) (rounded : D → D) : Type 0 where
  pub plain_value : (v : D) → IsPlain (ops.show_value v)
  pub plain_time : (t : I) → IsPlain (ops.show_time t)
  pub reads_value : (v : D) → ops.stod (ops.show_value v) ≡ some (rounded v)
  pub reads_time : (t : I) → ops.stoll (ops.show_time t) ≡ some t

-- A name that a line can hold: no quotation mark and no line feed.
pub record IsName (name : Bytes) : Type 0 where
  pub no_quote : All (λ c. is_quote c ≡ false) name
  pub no_line : Lacks b'\n' name

pub until-append :
    (test : ℕ → Bool) (text : Bytes) (c : ℕ) (rest : Bytes)
    → All (λ b. test b ≡ false) text
    → test c ≡ true
    → until test (text ++ c ∷ rest) ≡ some (text, c ∷ rest)
unfolding until
until-append test [] c rest h e = rw e
until-append test (b ∷ text) c rest h e = rw (h.0, until-append test text c rest h.1 e)

module _ {D I : Type 0} (ops : NumberOps D I) (rounded : D → D) (reads : Reads ops rounded) where
  -- A metric as it comes back from the file.
  abbrev pub kept : Metric D I → Metric D I
  kept m = record m { value = rounded m.value }

  parse_time-print :
      (name : Bytes) (value : D) (t : I)
      → parse_time ops name value (codes ",\"timestamp\":" ++ (ops.show_time t ++ codes "}"))
        ≡ found (record { name = name; value = value; timestamp = t })
  unfolding parse_time find after_prefix
  parse_time-print name value t = rw (
    parse_time,
    until-append is_end (ops.show_time t) b'}' [] (reads.plain_time t).no_end refl,
    reads.reads_time t,
  )

  parse_value-print :
      (name : Bytes) (v : D) (t : I)
      → parse_value ops name (
          codes "\",\"value\":"
          ++ (ops.show_value v ++ (codes ",\"timestamp\":" ++ (ops.show_time t ++ codes "}"))))
        ≡ found (record { name = name; value = rounded v; timestamp = t })
  unfolding parse_value find after_prefix
  parse_value-print name v t =
      rw
        (
          parse_value,
          until-append is_end (ops.show_value v) b',' _ (reads.plain_value v).no_end refl,
          reads.reads_value v,
        )
        (parse_time-print name (rounded v) t)

  -- A line of the file is read back as the metric that was written, its value as printing rounds
  -- it, if the name has no quotation mark and numbers' texts are read back.
  pub parse_metric-to_json :
      (m : Metric D I) → IsName m.name → parse_metric ops (to_json ops m) ≡ found (kept m)
  unfolding parse_metric to_json find after_prefix
  parse_metric-to_json m n =
      rw (parse_metric, to_json, until-append is_quote m.name b'"' _ n.no_quote refl)
        (parse_value-print m.name m.value m.timestamp)

  -- The line has no line feed in it.
  pub to_json-Lacks : (m : Metric D I) → IsName m.name → Lacks b'\n' (to_json ops m)
  unfolding to_json
  to_json-Lacks m n = All-append _ (codes "{\"name\":\"") _ (ground arith) (
      All-append _ m.name _ n.no_line (
        All-append _ (codes "\",\"value\":") _ (ground arith) (
          All-append _ (ops.show_value m.value) _ (reads.plain_value m.value).no_line (
            All-append _ (codes ",\"timestamp\":") _ (ground arith) (
              All-append _ (ops.show_time m.timestamp) _ (reads.plain_time m.timestamp).no_line
                (refl, tt))))))
