-- ===== src/Http/Server/Unanswered.antt =====
-- A request on which the parser throws, at the task that reads it.
use systems_craft.Prelude.{
  ◌≤◌, ◌≡◌, refl, Lacks, List, [], ◌∷◌, ◌++◌, Option, none, Bytes, All, length, take-all,
}
use systems_craft.Http.{HttpRequest, HttpResponse, Handlers}
use systems_craft.Http.Request.{parse_request}
use systems_craft.Http.Request.RoundTrip.{IsHeader, print_headers, parse_request_throws}
use systems_craft.Http.Server.{serve}

module _ {ℓ} {H S : Type ℓ} (handle : H → HttpRequest → S → S × Option HttpResponse) where
  serve-none :
      (handlers : Handlers H) (text : Bytes) (state : S)
      → length text ≤ 4095
      → parse_request text ≡ none
      → (text ≡ [] → ⊥)
      → serve handle handlers text state ≡ (state, none)
  unfolding serve
  serve-none handlers [] state fits e some_text = absurd (some_text refl)
  serve-none handlers (c ∷ text) state fits e some_text =
      rw (serve, take-all 4095 (c ∷ text) fits, e) refl

  -- A request with a header line whose only colon is its last byte gets no answer: the task ends
  -- with the exception of the parser's `substr`, whatever follows the line, and no handler has
  -- changed the state. The request fits into the buffer, and the headers before that line have
  -- names without a colon and no line feed.
  pub serve-parse_request_throws :
      (handlers : Handlers H) (state : S) (line name : Bytes) (headers : List (Bytes × Bytes))
      (rest : Bytes)
      → Lacks b'\n' line
      → All IsHeader headers
      → Lacks b':' name
      → Lacks b'\n' name
      → length (line ++ b'\n' ∷ print_headers headers ((name ++ b':' ∷ []) ++ b'\n' ∷ rest)) ≤ 4095
      → serve handle handlers
          (line ++ b'\n' ∷ print_headers headers ((name ++ b':' ∷ []) ++ b'\n' ∷ rest))
          state
        ≡ (state, none)
  serve-parse_request_throws handlers state line name headers rest hl hh hc hn fits =
      serve-none handlers _ state fits (parse_request_throws line name headers rest hl hh hc hn)
        (λ e. append-nonempty line e)
    where
      append-nonempty :
          (xs : Bytes)
          → xs ++ b'\n' ∷ print_headers headers ((name ++ b':' ∷ []) ++ b'\n' ∷ rest) ≡ []
          → ⊥
      append-nonempty [] e = cc e
      append-nonempty (x ∷ xs) e = cc e
