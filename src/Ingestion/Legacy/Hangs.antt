-- ===== src/Ingestion/Legacy/Hangs.antt =====
-- Which values of a tag the loop of extract_tags gets past.
use systems_craft.Prelude.{
  ℕ, zero, suc, ◌+◌, ◌-◌, ◌≤◌, ◌<◌, ◌≡◌, refl, ap, ◌∙◌, true, false, [], ◌∷◌, ◌++◌, arith, Bytes,
  insert, ltb, length, length-append, take, drop, Lacks,
}
use systems_craft.Metrics.{Tags}
use systems_craft.Ingestion.Legacy.{
  npos, after, index_of, find_byte, substr, returns, unfinished, tags_loop,
}
use systems_craft.Ingestion.Legacy.Positions.{
  index_of-Lacks, index_of-append, drop_exact, drop_past, find_byte-some, find_byte-none, round,
  drop_behind, drop_quoted, take_exact, length-tag, after_small, small_not-npos, tag,
}

module _ (key value : Bytes) (plain : Lacks b'"' key) (short : length (tag key value) < npos) where
  key_short : suc (suc (length key)) < npos
  key_short = omega (arith, short, length-tag key value)

  key_end_found : find_byte b'"' (tag key value) 1 ≡ suc (length key)
  key_end_found =
      find_byte-some b'"' 1 (length key) (tag key value) (key ++ b'"' ∷ b':' ∷ value) refl
        (index_of-append b'"' key (b':' ∷ value) plain)
      ∙ omega arith

  colon_found : find_byte b':' (tag key value) (suc (length key)) ≡ suc (suc (length key))
  unfolding index_of
  colon_found =
      find_byte-some b':' (suc (length key)) 1 (tag key value) (b'"' ∷ b':' ∷ value)
        (drop_exact key (b'"' ∷ b':' ∷ value)) refl
      ∙ omega arith

  behind_key : drop (suc (suc (length key))) (tag key value) ≡ b':' ∷ value
  behind_key = drop_behind key (b':' ∷ value) b'"'

  inside_at : (pos : ℕ) → pos ≤ 1 → ltb pos (length (tag key value)) ≡ true
  inside_at pos h = ground (arith, h, length-tag key value)

  module _ (unquoted : Lacks b'"' value) where
    no_quote : find_byte b'"' (tag key value) (suc (suc (length key))) ≡ npos
    no_quote =
        find_byte-none b'"' (suc (suc (length key))) (tag key value) (b':' ∷ value) behind_key
          (index_of-Lacks b'"' (b':' ∷ value) (refl, unquoted))

    past_end : (b : ℕ) → find_byte b (tag key value) npos ≡ npos
    unfolding index_of
    past_end b =
        find_byte-none b npos (tag key value) []
          (drop_past npos (tag key value) (omega (arith, short))) refl

    first_quote : find_byte b'"' (tag key value) 0 ≡ 0
    unfolding index_of
    first_quote = find_byte-some b'"' 0 0 (tag key value) (tag key value) refl refl

    at_key_end : find_byte b'"' (tag key value) (after (suc (length key))) ≡ npos
    at_key_end = rw (after_small (suc (length key)) (omega (arith, key_short))) no_quote

    -- The search for the end of the value begins again at the front.
    stuck : (fuel : ℕ) (tags : Tags) → tags_loop fuel (tag key value) 1 tags ≡ unfinished
    unfolding tags_loop
    stuck zero tags = rw (tags_loop, inside_at 1 (omega arith)) refl
    stuck (suc fuel) tags =
        round fuel (tag key value) 1 tags (suc (length key)) npos npos npos 0
          (inside_at 1 (omega arith)) key_end_found
          (small_not-npos (suc (length key)) (omega (arith, key_short))) at_key_end (past_end b':')
          (past_end b'"') first_quote
        ∙ stuck fuel tags

    hangs : (fuel : ℕ) (tags : Tags) → tags_loop fuel (tag key value) 0 tags ≡ unfinished
    unfolding tags_loop
    hangs zero tags = rw (tags_loop, inside_at 0 (omega arith)) refl
    hangs (suc fuel) tags =
        round fuel (tag key value) 0 tags 0 (suc (length key)) (suc (suc (length key))) npos 0
          (inside_at 0 (omega arith)) first_quote refl key_end_found colon_found no_quote
          first_quote
        ∙ rw (small_not-npos (suc (length key)) (omega (arith, key_short))) refl
        ∙ stuck fuel tags

-- A value in quotation marks, nothing behind it.
abbrev pub closed : Bytes → Bytes
closed word = b'"' ∷ (word ++ b'"' ∷ [])

module _ (key word : Bytes) (plain : Lacks b'"' key) (plain_word : Lacks b'"' word)
    (short : length (tag key (closed word)) < npos) where
  size : length (tag key (closed word)) ≡ length key + length word + 5
  size = omega (arith, length-tag key (closed word), length-append word (b'"' ∷ []))

  value_start_found :
      find_byte b'"' (tag key (closed word)) (suc (suc (length key))) ≡ suc (suc (suc (length key)))
  unfolding index_of
  value_start_found =
      find_byte-some b'"' (suc (suc (length key))) 1 (tag key (closed word)) (b':' ∷ closed word)
        (behind_key key (closed word) plain short) refl
      ∙ omega arith

  behind_value_start :
      drop (suc (suc (suc (suc (length key))))) (tag key (closed word)) ≡ word ++ b'"' ∷ []
  behind_value_start = drop_quoted key (word ++ b'"' ∷ []) b'"' b':' b'"'

  value_end_found :
      find_byte b'"' (tag key (closed word)) (after (suc (suc (suc (length key)))))
      ≡ length key + length word + 4
  value_end_found =
      ap (find_byte b'"' (tag key (closed word)))
        (after_small (suc (suc (suc (length key)))) (omega (arith, short, size)))
      ∙ find_byte-some b'"' (suc (suc (suc (suc (length key))))) (length word)
          (tag key (closed word)) (word ++ b'"' ∷ []) behind_value_start
          (index_of-append b'"' word [] plain_word)
      ∙ omega arith

  key_read : substr (tag key (closed word)) 1 (suc (length key) - 0 - 1) ≡ key
  key_read =
      ap (λ n. take n (key ++ b'"' ∷ b':' ∷ closed word)) (omega arith)
      ∙ take_exact key (b'"' ∷ b':' ∷ closed word)

  word_read :
      substr
        (tag key (closed word))
        (suc (suc (suc (length key))) + 1)
        (length key + length word + 4 - suc (suc (suc (length key))) - 1)
      ≡ word
  word_read =
      let from : suc (suc (suc (length key))) + 1 ≡ suc (suc (suc (suc (length key)))) =
        omega arith in
      let count : length key + length word + 4 - suc (suc (suc (length key))) - 1 ≡ length word =
        omega arith in
      rw (from, count, behind_value_start) (take_exact word (b'"' ∷ []))

  at_end : ltb (after (length key + length word + 4)) (length (tag key (closed word))) ≡ false
  at_end = ground (arith, size, short)

  ends : tags_loop 1 (tag key (closed word)) 0 [] ≡ returns ((key, word) ∷ [])
  unfolding tags_loop insert
  ends =
      round 0 (tag key (closed word)) 0 [] 0 (suc (length key)) (suc (suc (length key)))
        (suc (suc (suc (length key)))) (length key + length word + 4)
        (inside_at key (closed word) plain short 0 (omega arith)) refl refl
        (key_end_found key (closed word) plain short) (colon_found key (closed word) plain short)
        value_start_found value_end_found
      ∙ rw
          (
            tags_loop,
            at_end,
            small_not-npos (suc (length key)) (omega (arith, short, size)),
            small_not-npos (suc (suc (suc (length key)))) (omega (arith, short, size)),
            small_not-npos (length key + length word + 4) (omega (arith, short, size)),
            key_read,
            word_read,
          )
          refl

-- Let a key have no quotation mark. If the value is in quotation marks, with none inside, the loop
-- over the tags reads the pair in one round; if the value has no quotation mark at all, as a number,
-- the loop never ends, whatever number of rounds it gets.
pub tags_loop-tag :
    (key word value : Bytes)
    → Lacks b'"' key
    → Lacks b'"' word
    → Lacks b'"' value
    → length (tag key (closed word)) < npos
    → length (tag key value) < npos
    → (tags_loop 1 (tag key (closed word)) 0 [] ≡ returns ((key, word) ∷ []))
      × ((fuel : ℕ) → tags_loop fuel (tag key value) 0 [] ≡ unfinished)
tags_loop-tag key word value plain plain_word unquoted short short_value = (
  ends key word plain plain_word short,
  λ fuel. hangs key value plain short_value unquoted fuel [],
)
