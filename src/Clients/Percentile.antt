-- ===== src/Clients/Percentile.antt =====
-- phase0/simple_benchmark.cpp: what a percentile says of the latencies, and what is counted.
use native.Mathlib.Nat.{mul-le-mul_right}
use mathlib.Core.Path.{subst}
use systems_craft.Prelude.{
  ℕ, zero, suc, ◌+◌, ◌-◌, ◌*◌, ◌%◌, ◌^◌, ◌<◌, ◌≤◌, ◌≡◌, refl, sym, ap, ◌∙◌, ◌⊎◌, inl, inr, ltb→lt,
  ltb→ge, Bool, true, false, List, [], ◌∷◌, arith, leb, ltb, length, get_or, All, Bool-cases,
  if◌then◌else◌,
}
use systems_craft.Clients.Benchmark.{insert_sorted, sort, calculate_percentile}

-- How many numbers pass the test.
pub count : (ℕ → Bool) → List ℕ → ℕ
count test [] = 0
count test (x ∷ xs) = (if test x then 1 else 0) + count test xs

count-insert_sorted :
    (test : ℕ → Bool) (x : ℕ) (ys : List ℕ)
    → count test (insert_sorted x ys) ≡ (if test x then 1 else 0) + count test ys
unfolding count insert_sorted
count-insert_sorted test x [] = refl
count-insert_sorted test x (y ∷ ys) = elim (Bool-cases (leb x y)) [
  | inl t ↦ rw t refl
  | inr f ↦ rw f (omega (arith, count-insert_sorted test x ys))
]

count-sort : (test : ℕ → Bool) (xs : List ℕ) → count test (sort xs) ≡ count test xs
unfolding count sort
count-sort test [] = refl
count-sort test (x ∷ xs) =
    count-insert_sorted test x (sort xs)
    ∙ ap (λ n. (if test x then 1 else 0) + n) (count-sort test xs)

length-insert_sorted : (x : ℕ) (ys : List ℕ) → length (insert_sorted x ys) ≡ suc (length ys)
unfolding insert_sorted
length-insert_sorted x [] = refl
length-insert_sorted x (y ∷ ys) = ground (arith, length-insert_sorted x ys)

length-sort : (xs : List ℕ) → length (sort xs) ≡ length xs
unfolding sort
length-sort [] = refl
length-sort (x ∷ xs) = length-insert_sorted x (sort xs) ∙ ap suc (length-sort xs)

abbrev Sorted : List ℕ → Type 0
Sorted [] = Unit
Sorted (x ∷ xs) = All (λ y. x ≤ y) xs × Sorted xs

All-insert_sorted :
    (b x : ℕ) (ys : List ℕ) → b ≤ x → All (λ y. b ≤ y) ys → All (λ y. b ≤ y) (insert_sorted x ys)
unfolding insert_sorted
All-insert_sorted b x [] h a = (h, tt)
All-insert_sorted b x (y ∷ ys) h a = elim (Bool-cases (leb x y)) [
  | inl t ↦ rw t (h, a)
  | inr f ↦ rw f (a.0, All-insert_sorted b x ys h a.1)
]

weaken : (a b : ℕ) (ys : List ℕ) → a ≤ b → All (λ y. b ≤ y) ys → All (λ y. a ≤ y) ys
weaken a b [] h k = tt
weaken a b (y ∷ ys) h k = (omega (arith, k.0), weaken a b ys h k.1)

insert_sorted-Sorted : (x : ℕ) (ys : List ℕ) → Sorted ys → Sorted (insert_sorted x ys)
unfolding insert_sorted
insert_sorted-Sorted x [] s = (tt, tt)
insert_sorted-Sorted x (y ∷ ys) s = elim (Bool-cases (leb x y)) [
  | inl t ↦ let le : x ≤ y = ground (arith, t) in rw t ((le, weaken x y ys le s.0), s)
  | inr f ↦
      let le : y ≤ x = ground (arith, f) in
      rw f (All-insert_sorted y x ys le s.0, insert_sorted-Sorted x ys s.1)
]

sort-Sorted : (xs : List ℕ) → Sorted (sort xs)
unfolding sort
sort-Sorted [] = tt
sort-Sorted (x ∷ xs) = insert_sorted-Sorted x (sort xs) (sort-Sorted xs)

All-get_or : (b i : ℕ) (xs : List ℕ) → All (λ y. b ≤ y) xs → i < length xs → b ≤ get_or xs i 0
All-get_or b i [] a h = absurd (omega arith)
All-get_or b zero (x ∷ xs) a h = a.0
All-get_or b (suc i) (x ∷ xs) a h = All-get_or b i xs a.1 (omega arith)

-- At least `i + 1` numbers of a sorted list are at most the one at `i`.
count-le :
    (i : ℕ) (xs : List ℕ) → Sorted xs → i < length xs → i < count (λ x. leb x (get_or xs i 0)) xs
unfolding count
count-le i [] s h = absurd (omega arith)
count-le zero (x ∷ xs) s h = ground arith
count-le (suc i) (x ∷ xs) s h =
    let le = All-get_or x i xs s.0 (omega arith) in
    let ih = count-le i xs s.1 (omega arith) in
    let test : leb x (get_or xs i 0) ≡ true = ground (arith, le) in rw test (omega (arith, ih))

count-none : (b : ℕ) (xs : List ℕ) → All (λ y. b ≤ y) xs → count (λ x. ltb x b) xs ≡ 0
unfolding count
count-none b [] a = refl
count-none b (x ∷ xs) a =
    let test : ltb x b ≡ false = ground (arith, a.0) in rw test (omega (arith, count-none b xs a.1))

-- At most `i` of them are below it.
count-lt :
    (i : ℕ) (xs : List ℕ) → Sorted xs → i < length xs → count (λ x. ltb x (get_or xs i 0)) xs ≤ i
unfolding count
count-lt i [] s h = absurd (omega arith)
count-lt zero (x ∷ xs) s h = let none = count-none x xs s.0 in ground (arith, none)
count-lt (suc i) (x ∷ xs) s h =
    let ih = count-lt i xs s.1 (omega arith) in
    elim (Bool-cases (ltb x (get_or xs i 0))) [
      | inl t ↦ rw t (omega (arith, ih))
      | inr f ↦ rw f (omega (arith, ih))
    ]

-- Which number is taken: the one of that rank, or the last.
calculate_percentile-index :
    (rank : ℕ → ℕ → ℕ) (xs : List ℕ) (p : ℕ)
    → 0 < length xs
    → 0 < rank p (length xs)
    → rank p (length xs) < 2 ^ 64
    → (i : ℕ) × (calculate_percentile rank xs p ≡ get_or xs i 0)
      × (i < length xs)
      × (i < rank p (length xs))
      × ((rank p (length xs) ≡ suc i) ⊎ (length xs ≡ suc i))
unfolding calculate_percentile
calculate_percentile-index rank [] p some positive fits = absurd (omega arith)
calculate_percentile-index rank (x ∷ xs) p some positive fits =
    let r = rank p (length (x ∷ xs)) in
    let wrapped : (r + (2 ^ 64 - 1)) % 2 ^ 64 ≡ r - 1 = omega (arith, positive, fits) in
    elim (Bool-cases (ltb (r - 1) (length (x ∷ xs) - 1))) [
      | inl t ↦
          let lt = ltb→lt (r - 1) (length (x ∷ xs) - 1) t in
          (
            r - 1,
            rw (wrapped, t) refl,
            omega (arith, lt),
            omega (arith, positive),
            inl (omega (arith, positive)),
          )
      | inr f ↦
          let ge = ltb→ge (r - 1) (length (x ∷ xs) - 1) f in
          (
            length (x ∷ xs) - 1,
            rw (wrapped, f) refl,
            omega arith,
            omega (arith, positive, ge),
            inr (omega arith),
          )
    ]

-- With `n` latencies, the `p`-th percentile of the sorted latencies is one that at least `p` percent
-- of them do not exceed, and fewer than its rank are below it. There is at least one latency, `p` is
-- at most 100, and the rank, which is computed in doubles, is not 0 and not below `p` percent of `n`.
pub calculate_percentile-sort :
    (rank : ℕ → ℕ → ℕ) (latencies : List ℕ) (p : ℕ)
    → 0 < length latencies
    → length latencies < 2 ^ 64
    → p ≤ 100
    → 0 < rank p (length latencies)
    → rank p (length latencies) < 2 ^ 64
    → p * length latencies ≤ 100 * rank p (length latencies)
    → (p * length latencies
        ≤ 100 * count (λ x. leb x (calculate_percentile rank (sort latencies) p)) latencies)
      × (count (λ x. ltb x (calculate_percentile rank (sort latencies) p)) latencies
          < rank p (length latencies))
calculate_percentile-sort rank latencies p some small percent positive fits enough =
    let sorted = sort latencies in
    let size = length-sort latencies in
    let same : rank p (length sorted) ≡ rank p (length latencies) = ap (rank p) size in
    let (i, e, inside, below, last) =
      calculate_percentile-index rank sorted p (omega (arith, size)) (omega (arith, same))
        (omega (arith, same)) in
    let covers =
      subst (λ v. i < count (λ x. leb x v) sorted) (sym e)
        (count-le i sorted (sort-Sorted latencies) inside) in
    let under =
      subst (λ v. count (λ x. ltb x v) sorted ≤ i) (sym e)
        (count-lt i sorted (sort-Sorted latencies) inside) in
    let v = calculate_percentile rank sorted p in
    let all_covers = count-sort (λ x. leb x v) latencies in
    let all_under = count-sort (λ x. ltb x v) latencies in
    (
      elim last [
        | inl ranked ↦ omega (arith, same, covers, all_covers, ranked, enough)
        | inr whole ↦
            let most : p * length latencies ≤ 100 * length latencies =
              mul-le-mul_right (length latencies) percent in
            omega (arith, size, covers, all_covers, whole, most)
      ],
      omega (arith, same, under, all_under, below),
    )
