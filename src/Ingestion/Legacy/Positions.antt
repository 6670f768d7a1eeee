-- ===== src/Ingestion/Legacy/Positions.antt =====
-- What the searches of the older parser find, and one round of its loop over tags.
use systems_craft.Prelude.{
  ℕ, zero, suc, ◌+◌, ◌-◌, ◌≤◌, ◌<◌, ◌≡◌, refl, ap, true, false, ◌&&◌, not, [], ◌∷◌, ◌++◌, none,
  some, arith, Bytes, insert, ltb, if◌then◌else◌, length, length-append, take, drop, Lacks,
}
use systems_craft.Metrics.{Tags}
use systems_craft.Ingestion.Legacy.{npos, after, is_npos, index_of, find_byte, substr, tags_loop}

pub index_of-Lacks : (b : ℕ) (text : Bytes) → Lacks b text → index_of b text ≡ none
unfolding index_of
index_of-Lacks b [] l = refl
index_of-Lacks b (c ∷ text) l = rw (l.0, index_of-Lacks b text l.1) refl

pub index_of-append :
    (b : ℕ) (text more : Bytes) → Lacks b text → index_of b (text ++ b ∷ more) ≡ some (length text)
unfolding index_of
index_of-append b [] more l = ground arith
index_of-append b (c ∷ text) more l = rw (l.0, index_of-append b text more l.1) refl

pub drop_exact : (xs ys : Bytes) → drop (length xs) (xs ++ ys) ≡ ys
drop_exact [] ys = refl
drop_exact (x ∷ xs) ys = drop_exact xs ys

pub drop_past : (n : ℕ) (xs : Bytes) → length xs ≤ n → drop n xs ≡ []
drop_past zero [] h = refl
drop_past zero (x ∷ xs) h = absurd (omega arith)
drop_past (suc n) [] h = refl
drop_past (suc n) (x ∷ xs) h = drop_past n xs (omega arith)

pub find_byte-some :
    (b pos i : ℕ) (text rest : Bytes)
    → drop pos text ≡ rest
    → index_of b rest ≡ some i
    → find_byte b text pos ≡ pos + i
unfolding find_byte
find_byte-some b pos i text rest d e = rw (find_byte, d, e) refl

pub find_byte-none :
    (b pos : ℕ) (text rest : Bytes)
    → drop pos text ≡ rest
    → index_of b rest ≡ none
    → find_byte b text pos ≡ npos
unfolding find_byte
find_byte-none b pos text rest d e = rw (find_byte, d, e) refl

-- A round of the loop, by what its searches find.
pub round :
    (fuel : ℕ) (text : Bytes) (pos : ℕ) (tags : Tags)
    (key_start key_end colon value_start value_end : ℕ)
    → ltb pos (length text) ≡ true
    → find_byte b'"' text pos ≡ key_start
    → is_npos key_start ≡ false
    → find_byte b'"' text (after key_start) ≡ key_end
    → find_byte b':' text key_end ≡ colon
    → find_byte b'"' text colon ≡ value_start
    → find_byte b'"' text (after value_start) ≡ value_end
    → tags_loop (suc fuel) text pos tags
      ≡ tags_loop fuel text (after value_end) (
          if not (is_npos key_end) && (not (is_npos value_start) && not (is_npos value_end))
          then insert
              (substr text (key_start + 1) (key_end - key_start - 1))
              (substr text (value_start + 1) (value_end - value_start - 1))
              tags
          else tags)
unfolding tags_loop
round fuel text pos tags key_start key_end colon value_start value_end inside a n b c d e =
    rw (tags_loop, inside, a, n, b, c, d, e) refl

pub drop_behind : (xs ys : Bytes) (y : ℕ) → drop (suc (length xs)) (xs ++ y ∷ ys) ≡ ys
drop_behind [] ys y = refl
drop_behind (x ∷ xs) ys y = drop_behind xs ys y

pub drop_quoted :
    (xs ys : Bytes) (a b c : ℕ) → drop (suc (suc (suc (length xs)))) (xs ++ a ∷ b ∷ c ∷ ys) ≡ ys
drop_quoted [] ys a b c = refl
drop_quoted (x ∷ xs) ys a b c = drop_quoted xs ys a b c

pub take_exact : (xs ys : Bytes) → take (length xs) (xs ++ ys) ≡ xs
take_exact [] ys = refl
take_exact (x ∷ xs) ys = ap (λ zs. x ∷ zs) (take_exact xs ys)

-- A key in quotation marks, a colon, and a value as it stands.
abbrev pub tag : Bytes → Bytes → Bytes
tag key value = b'"' ∷ (key ++ b'"' ∷ b':' ∷ value)

pub length-tag : (key value : Bytes) → length (tag key value) ≡ length key + length value + 3
length-tag key value = omega (arith, length-append key (b'"' ∷ b':' ∷ value))

pub after_small : (n : ℕ) → n < npos → after n ≡ suc n
after_small n h = omega (arith, h)

pub small_not-npos : (n : ℕ) → n < npos → is_npos n ≡ false
small_not-npos n h = ground (arith, h)
