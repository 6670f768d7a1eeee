-- ===== src/Clients/Understood.antt =====
-- The requests of both load testers, as the server reads them.
use mathlib.Core.Path.{subst}
use systems_craft.Prelude.{
  append_assoc, ℕ, zero, suc, ◌≡◌, refl, true, List, [], ◌∷◌, ◌++◌, some, arith, Bytes, codes,
  skip_space, beq, to_string, All, get_or, insert,
}
use systems_craft.Metrics.{Metric, MetricBatch, FloatOps, gauge, counter}
use systems_craft.Ingestion.Json.{
  Parser, step, in_metrics_array, parse_json_metrics_optimized, initial,
}
use systems_craft.Ingestion.Json.Reads.{
  is_plain, IsNumber, Yields, Yields-step, to_string-IsNumber, Yields-done, parse-Yields,
}
use systems_craft.Ingestion.Json.Fields.{step-metrics_field}
use systems_craft.Clients.Pieces.{
  metric_head, inside, Yields-metric_head, Yields-metric_end, Yields-tag,
}
use systems_craft.Clients.{Draw, hosts, regions, json_body}

module _ {D : Type 0} (ops : FloatOps D) where
  -- What the server reads of a request's body.
  abbrev cpu_metric : Draw D → Metric D
  cpu_metric draw = record {
    name = codes "cpu_usage";
    value = ops.strtod (ops.print draw.cpu);
    type = gauge;
    tags =
        insert (codes "region") (get_or regions draw.region [])
          (insert (codes "host") (get_or hosts draw.host []) []);
  }

  abbrev memory_of : Bytes → ℕ → Metric D
  memory_of host m = record {
    name = codes "memory_usage";
    value = ops.strtod (to_string m);
    type = gauge;
    tags = insert (codes "host") host [];
  }

  abbrev requests_of : Bytes → ℕ → Metric D
  requests_of host n = record {
    name = codes "requests_total";
    value = ops.strtod (to_string n);
    type = counter;
    tags = insert (codes "host") host (insert (codes "service") (codes "api") []);
  }

  abbrev pub read_metrics : Draw D → MetricBatch D
  read_metrics draw =
      let host = get_or hosts draw.host [] in
      cpu_metric draw ∷ memory_of host draw.memory ∷ requests_of host draw.counter ∷ []

  -- A member of a list of plain strings.
  get_or-plain :
      (texts : List Bytes) (i : ℕ)
      → All (All (λ c. is_plain c ≡ true)) texts
      → All (λ c. is_plain c ≡ true) (get_or texts i [])
  get_or-plain [] i h = tt
  get_or-plain (t ∷ texts) zero h = h.0
  get_or-plain (t ∷ texts) (suc i) h = get_or-plain texts i h.1

  hosts-plain : All (All (λ c. is_plain c ≡ true)) hosts
  hosts-plain = ground arith

  regions-plain : All (All (λ c. is_plain c ≡ true)) regions
  regions-plain = ground arith

  module _
      (stops : (text rest : Bytes)
        → IsNumber text
        → ops.strtod (text ++ b',' ∷ rest) ≡ ops.strtod text)
      (host : Bytes) (host-plain : All (λ c. is_plain c ≡ true) host) where
    -- The third metric and the end of the body.
    abbrev requests_text : ℕ → Bytes
    requests_text n = metric_head ops (codes "requests_total") (to_string n) (codes "counter") (
        codes "\"service\": \"api\", \"host\": \""
        ++ (host ++ codes "\"}\n                }\n            ]\n        }"))

    abbrev memory_text : ℕ → ℕ → Bytes
    memory_text m n =
        metric_head ops (codes "memory_usage") (to_string m) (codes "gauge")
          (codes "\"host\": \"" ++ (host ++ (codes "\"}\n                }," ++ requests_text n)))

    Yields-requests_text :
        (p : Parser D) (n : ℕ)
        → Yields ops
            (record p { state = in_metrics_array; rest = requests_text n })
            (p.batch ++ requests_of host n ∷ [])
    unfolding step skip_space beq
    Yields-requests_text p n =
        let begun =
          inside ops p.batch (codes "requests_total") (to_string n) (codes "counter") [] in
        let tagged : Parser D = record begun {
          metric_tags = insert (codes "service") (codes "api") [];
        } in
        let ended : Parser D = record begun {
          metric_tags = insert (codes "host") host (insert (codes "service") (codes "api") []);
        } in
        Yields-metric_head ops p (codes "requests_total") (to_string n) (codes "counter") _ stops
          (ground arith) (to_string-IsNumber n) (ground arith)
          (Yields-tag ops begun (codes "service") (codes "api") _ _ refl (ground arith)
            (ground arith)
            (Yields-step ops _ b',' _ refl refl (
              Yields-tag ops tagged (codes "host") host _ _ refl (ground arith) host-plain (
                Yields-metric_end ops ended _ refl
                  (Yields-step ops _ b']' _ refl refl (Yields-done ops _ refl))))))

    Yields-memory_text :
        (p : Parser D) (m n : ℕ)
        → Yields ops
            (record p { state = in_metrics_array; rest = memory_text m n })
            (p.batch ++ (memory_of host m) ∷ requests_of host n ∷ [])
    unfolding step skip_space beq
    Yields-memory_text p m n =
        let begun = inside ops p.batch (codes "memory_usage") (to_string m) (codes "gauge") [] in
        let metric = memory_of host m in
        let ended : Parser D = record begun { metric_tags = metric.tags } in
        let left : Parser D = record ended { batch = p.batch ++ metric ∷ [] } in
        Yields-metric_head ops p (codes "memory_usage") (to_string m) (codes "gauge") _ stops
          (ground arith) (to_string-IsNumber m) (ground arith)
          (Yields-tag ops begun (codes "host") host _ _ refl (ground arith) host-plain (
            Yields-metric_end ops ended _ refl (
              Yields-step ops _ b',' _ refl refl (
                subst
                  (Yields ops (record left { state = in_metrics_array; rest = requests_text n }))
                  (append_assoc p.batch (metric ∷ []) (requests_of host n ∷ []))
                  (Yields-requests_text left n)))))

  -- The body that a load tester generates is read as the three metrics that it drew, tags included.
  pub parse-json_body :
      (draw : Draw D)
      → ((text rest : Bytes) → IsNumber text → ops.strtod (text ++ b',' ∷ rest) ≡ ops.strtod text)
      → IsNumber (ops.print draw.cpu)
      → parse_json_metrics_optimized ops (json_body ops.print draw) ≡ some (read_metrics draw)
  unfolding json_body step skip_space beq
  parse-json_body draw stops hn =
      let host = get_or hosts draw.host [] in
      let host-plain = get_or-plain hosts draw.host hosts-plain in
      let region = get_or regions draw.region [] in
      let region-plain = get_or-plain regions draw.region regions-plain in
      let begun = inside ops [] (codes "cpu_usage") (ops.print draw.cpu) (codes "gauge") [] in
      let tagged : Parser D = record begun { metric_tags = insert (codes "host") host [] } in
      let ended : Parser D = record begun {
        metric_tags = insert (codes "region") region (insert (codes "host") host []);
      } in
      let left : Parser D = record ended { batch = cpu_metric draw ∷ [] } in
      parse-Yields ops _ (
        Yields-step ops _ b'{' _ refl refl (
          Yields-step ops _ b'"' _ refl refl (
            rw (step-metrics_field ops (initial ops []) _) (
              Yields-metric_head ops (initial ops []) (codes "cpu_usage") (ops.print draw.cpu)
                (codes "gauge") _ stops (ground arith) hn (ground arith)
                (Yields-tag ops begun (codes "host") host _ _ refl (ground arith) host-plain (
                  Yields-step ops _ b',' _ refl refl (
                    Yields-tag ops tagged (codes "region") region _ _ refl (ground arith)
                      region-plain
                      (Yields-metric_end ops ended _ refl (
                        Yields-step ops _ b',' _ refl refl (
                          Yields-memory_text stops host host-plain left draw.memory
                            draw.counter))))))))))
