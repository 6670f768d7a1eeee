-- ===== src/Prelude/Decimal.antt =====
-- `std::to_string` and `<<` on unsigned numbers, `std::setw` with zeros, and reading back.
use systems_craft.Prelude.Tests.{ltb, leb, ◌==◌, lt→ltb, ltb→lt, ltb→ge, if◌then◌else◌, Bool-cases}
use systems_craft.Prelude.Lists.{length, length-append, replicate, All, All-append}
use systems_craft.Prelude.Strings.{Bytes}
use Prim.Native.Nat.{ℕ, zero, suc, ◌+◌, ◌-◌, ◌*◌, ◌/◌, ◌%◌, ◌<◌, ◌^◌}
use mathlib.Core.Path.{◌≡◌, refl, ◌∙◌, ap, sym}
use mathlib.Core.Logic.{inl, inr}
use mathlib.Core.Bool.{Bool, true, false, ◌&&◌, ◌||◌}
use mathlib.Core.List.{[], ◌∷◌, ◌++◌, append_assoc, append-nil}
use native.Mathlib.Omega.{arith}

unfoldable pub is_digit : ℕ → Bool
is_digit c = leb b'0' c && leb c b'9'

-- With more fuel than `n` has digits.
digits : ℕ → ℕ → Bytes
digits zero n = []
digits (suc fuel) n =
    let front = digits fuel (n / 10) in
    if ltb n 10 then (b'0' + n) ∷ [] else front ++ (b'0' + n % 10) ∷ []

unfoldable pub to_string : ℕ → Bytes
unfolding digits
to_string n = digits (suc n) n

-- `oss << std::setfill('0') << std::setw(width) << n`.
unfoldable pub zero_padded : ℕ → ℕ → Bytes
zero_padded width n = replicate (width - length (to_string n)) b'0' ++ to_string n

-- The number that the leading digits spell, continued from `acc`.
unfoldable pub read_digits : ℕ → Bytes → ℕ
unfolding is_digit
read_digits acc [] = acc
read_digits acc (c ∷ cs) = if is_digit c then read_digits (acc * 10 + (c - b'0')) cs else acc

digits-read :
    (fuel n : ℕ) (rest : Bytes)
    → n < fuel
    → read_digits 0 (digits fuel n ++ rest) ≡ read_digits n rest
unfolding digits read_digits
digits-read zero n rest h = elim h [ ]
digits-read (suc fuel) n rest h = elim (Bool-cases (ltb n 10)) [
  | inl low ↦
      let small : n < 10 = ltb→lt n 10 low in
      let front : n / 10 ≡ 0 = omega arith in
      rw low (rw front at (digit n n rest small (omega arith)))
  | inr high ↦
      rw (high, append_assoc)
        (digits-read fuel (n / 10) ((b'0' + n % 10) ∷ rest) (omega (arith, ltb→ge n 10 high))
          ∙ digit (n % 10) n rest (omega arith) (omega arith))
]
  where
    digit :
        (d m : ℕ) (rest' : Bytes)
        → d < 10
        → m % 10 ≡ d
        → read_digits (m / 10) ((b'0' + d) ∷ rest') ≡ read_digits m rest'
    digit d m rest' small e =
        let test : is_digit (b'0' + d) ≡ true = ground arith in
        let value : m / 10 * 10 + (b'0' + d - b'0') ≡ m = omega arith in rw (test, value)

-- Reading what was printed, whatever follows it.
pub read-to_string :
    (n : ℕ) (rest : Bytes) → read_digits 0 (to_string n ++ rest) ≡ read_digits n rest
unfolding to_string
read-to_string n rest = digits-read (suc n) n rest (omega arith)

-- Reading stops at a comma.
pub read_digits-comma :
    (acc : ℕ) (text rest : Bytes) → read_digits acc (text ++ b',' ∷ rest) ≡ read_digits acc text
unfolding read_digits is_digit
read_digits-comma acc [] rest = refl
read_digits-comma acc (c ∷ text) rest =
    ground (arith, read_digits-comma (acc * 10 + (c - b'0')) text rest)

-- The next byte, if any, is no digit.
abbrev pub Stops : Bytes → Type 0
Stops [] = Unit
Stops (c ∷ rest) = is_digit c ≡ false

pub read_digits-Stops : (n : ℕ) (rest : Bytes) → Stops rest → read_digits n rest ≡ n
unfolding read_digits
read_digits-Stops n [] h = refl
read_digits-Stops n (c ∷ rest) h = rw h

pub read_digits-zeros :
    (k : ℕ) (rest : Bytes) → read_digits 0 (replicate k b'0' ++ rest) ≡ read_digits 0 rest
unfolding read_digits
read_digits-zeros zero rest = refl
read_digits-zeros (suc k) rest = read_digits-zeros k rest

pub read-zero_padded :
    (width n : ℕ) (rest : Bytes) → read_digits 0 (zero_padded width n ++ rest) ≡ read_digits n rest
unfolding zero_padded
read-zero_padded width n rest =
    rw append_assoc (
      read_digits-zeros (width - length (to_string n)) (to_string n ++ rest)
      ∙ read-to_string n rest)

-- Printing is one to one, also in front of other text.
pub to_string-injective :
    (m n : ℕ) (a b : Bytes) → Stops a → Stops b → to_string m ++ a ≡ to_string n ++ b → m ≡ n
to_string-injective m n a b sa sb e =
    sym (read_digits-Stops m a sa)
    ∙ sym (read-to_string m a)
    ∙ ap (read_digits 0) e
    ∙ read-to_string n b
    ∙ read_digits-Stops n b sb

pub zero_padded-injective :
    (width m n : ℕ) (a b : Bytes)
    → Stops a
    → Stops b
    → zero_padded width m ++ a ≡ zero_padded width n ++ b
    → m ≡ n
zero_padded-injective width m n a b sa sb e =
    sym (read_digits-Stops m a sa)
    ∙ sym (read-zero_padded width m a)
    ∙ ap (read_digits 0) e
    ∙ read-zero_padded width n b
    ∙ read_digits-Stops n b sb

digits-All : (fuel n : ℕ) → n < fuel → All (λ c. is_digit c ≡ true) (digits fuel n)
unfolding digits is_digit
digits-All zero n h = tt
digits-All (suc fuel) n h = elim (Bool-cases (ltb n 10)) [
  | inl low ↦ rw low (ground (arith, ltb→lt n 10 low), tt)
  | inr high ↦ rw high (
      All-append (λ c. is_digit c ≡ true) (digits fuel (n / 10)) ((b'0' + n % 10) ∷ [])
        (digits-All fuel (n / 10) (omega (arith, ltb→ge n 10 high))) (ground arith, tt))
]

-- A printed number consists of digits.
pub to_string-All : (n : ℕ) → All (λ c. is_digit c ≡ true) (to_string n)
unfolding to_string
to_string-All n = digits-All (suc n) n (omega arith)

-- It has at least one of them.
pub length-to_string : (n : ℕ) → 0 < length (to_string n)
unfolding to_string digits
length-to_string n = ground (arith, length-append (digits n (n / 10)) ((b'0' + n % 10) ∷ []))

replicate-All : (k : ℕ) → All (λ c. is_digit c ≡ true) (replicate k b'0')
unfolding is_digit
replicate-All zero = tt
replicate-All (suc k) = (refl, replicate-All k)

pub zero_padded-All : (width n : ℕ) → All (λ c. is_digit c ≡ true) (zero_padded width n)
unfolding zero_padded
zero_padded-All width n =
    All-append (λ c. is_digit c ≡ true) (replicate (width - length (to_string n)) b'0')
      (to_string n) (replicate-All (width - length (to_string n))) (to_string-All n)

to_string_runs : to_string 10_203 ≡ b'1' ∷ b'0' ∷ b'2' ∷ b'0' ∷ b'3' ∷ []
unfolding to_string
to_string_runs = refl

-- `std::isspace` in the C locale.
unfoldable pub is_space : ℕ → Bool
is_space c = c == b' ' || leb 9 c && leb c 13

unfoldable pub skip_space : Bytes → Bytes
unfolding is_space
skip_space [] = []
skip_space (c ∷ cs) = if is_space c then skip_space cs else c ∷ cs

-- `stream >> n` for an unsigned 64-bit `n`: no digits give 0, too many the largest value.
-- A sign is not read.
pub extract_u64 : Bytes → ℕ
extract_u64 text =
    let n = read_digits 0 (skip_space text) in if ltb n (2 ^ 64) then n else 2 ^ 64 - 1

skip_space-digits : (cs : Bytes) → All (λ c. is_digit c ≡ true) cs → skip_space cs ≡ cs
unfolding skip_space is_digit
skip_space-digits [] h = refl
skip_space-digits (c ∷ cs) h = ground (arith, h.0)

-- What is written to an offset file is read back.
pub extract-to_string : (n : ℕ) → n < 2 ^ 64 → extract_u64 (to_string n) ≡ n
unfolding extract_u64
extract-to_string n h =
    rw (skip_space-digits (to_string n) (to_string-All n)) (rw (value, lt→ltb n (2 ^ 64) h))
  where
    value : read_digits 0 (to_string n) ≡ n
    value =
        ap (read_digits 0) (sym (append-nil (to_string n)))
        ∙ read-to_string n []
        ∙ read_digits-Stops n [] tt
