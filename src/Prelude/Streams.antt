-- ===== src/Prelude/Streams.antt =====
-- Reading text: `std::getline` and `>>` on a string stream.
use Prim.Native.Nat.{ℕ}
use mathlib.Core.Path.{◌≡◌, refl}
use mathlib.Core.Bool.{false}
use mathlib.Core.List.{List, [], ◌∷◌, ◌++◌}
use mathlib.Core.Option.{Option, none, some}
use native.Mathlib.Omega.{arith}
use systems_craft.Prelude.Tests.{◌==◌, if◌then◌else◌}
use systems_craft.Prelude.Lists.{All}
use systems_craft.Prelude.Strings.{Bytes}
use systems_craft.Prelude.Decimal.{is_space}

-- Puts a byte in front of the first line.
abbrev pub attach : ℕ → List Bytes → List Bytes
attach c [] = (c ∷ []) ∷ []
attach c (line ∷ lines) = (c ∷ line) ∷ lines

-- What successive calls of `std::getline` deliver.
unfoldable pub lines : Bytes → List Bytes
lines [] = []
lines (c ∷ cs) = let rest = lines cs in if c == b'\n' then [] ∷ rest else attach c rest

-- `stream >> word` after white space: the word and what follows it.
unfoldable pub word : Bytes → Bytes × Bytes
word [] = ([], [])
word (c ∷ cs) = let (w, rest) = word cs in if is_space c then ([], c ∷ cs) else (c ∷ w, rest)

-- No byte of the text is `b`.
abbrev pub Lacks : ℕ → Bytes → Type 0
Lacks b = All (λ c. (c == b) ≡ false)

pub lines-append : (l rest : Bytes) → Lacks b'\n' l → lines (l ++ b'\n' ∷ rest) ≡ l ∷ lines rest
unfolding lines
lines-append [] rest h = refl
lines-append (c ∷ l) rest h = rw (h.0, lines-append l rest h.1)

-- The text behind a prefix.
unfoldable pub after_prefix : Bytes → Bytes → Option Bytes
after_prefix [] text = some text
after_prefix (p ∷ ps) [] = none
after_prefix (p ∷ ps) (c ∷ cs) = let rest = after_prefix ps cs in if p == c then rest else none

-- `find` of a string: the text behind its first occurrence.
unfoldable pub find : Bytes → Bytes → Option Bytes
find pattern [] = after_prefix pattern []
find pattern (c ∷ cs) =
    let later = find pattern cs in
    elim (after_prefix pattern (c ∷ cs)) [ none ↦ later | some rest ↦ some rest ]

-- Bytes that differ from the pattern's first are passed over.
pub find-append :
    (p : ℕ) (pattern text rest : Bytes)
    → Lacks p text
    → find (p ∷ pattern) (text ++ rest) ≡ find (p ∷ pattern) rest
unfolding find after_prefix
find-append p pattern [] rest h = refl
find-append p pattern (c ∷ text) rest h = ground (arith, h.0, find-append p pattern text rest h.1)
