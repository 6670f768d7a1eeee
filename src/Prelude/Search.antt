-- ===== src/Prelude/Search.antt =====
-- `std::string::find`, by the text before the first occurrence and the text from it on.
use Prim.Native.Nat.{◌+◌, ◌≤◌}
use mathlib.Core.Path.{◌≡◌, ap}
use mathlib.Core.Logic.{inl, inr}
use mathlib.Core.Option.{Option, none, some}
use mathlib.Core.List.{[], ◌∷◌, ◌++◌}
use native.Mathlib.Omega.{arith}
use systems_craft.Prelude.Tests.{Option-cases}
use systems_craft.Prelude.Lists.{length, length-append}
use systems_craft.Prelude.Strings.{Bytes}
use systems_craft.Prelude.Streams.{after_prefix}

unfoldable pub split : Bytes → Bytes → Option (Bytes × Bytes)
split pattern [] = elim (after_prefix pattern []) [ none ↦ none | some _ ↦ some ([], []) ]
split pattern (c ∷ cs) =
    let later = split pattern cs in
    elim (after_prefix pattern (c ∷ cs)) [
      | none ↦ elim later [ none ↦ none | some (before, from) ↦ some (c ∷ before, from) ]
      | some _ ↦ some ([], c ∷ cs)
    ]

after_prefix-append :
    (p text rest more : Bytes)
    → after_prefix p text ≡ some rest
    → after_prefix p (text ++ more) ≡ some (rest ++ more)
unfolding after_prefix
after_prefix-append [] text rest more h = ground (arith, h)
after_prefix-append (a ∷ p) [] rest more h = cc
after_prefix-append (a ∷ p) (c ∷ text) rest more h =
    ground (arith, h, after_prefix-append p text rest more)

after_prefix-append_none :
    (p text more : Bytes)
    → after_prefix p text ≡ none
    → length p ≤ length text
    → after_prefix p (text ++ more) ≡ none
unfolding after_prefix
after_prefix-append_none [] text more h l = cc
after_prefix-append_none (a ∷ p) [] more h l = absurd (omega arith)
after_prefix-append_none (a ∷ p) (c ∷ text) more h l =
    ground (arith, h, after_prefix-append_none p text more)

after_prefix-length :
    (p text rest : Bytes) → after_prefix p text ≡ some rest → length p + length rest ≡ length text
unfolding after_prefix
after_prefix-length [] text rest h = ground (arith, h)
after_prefix-length (a ∷ p) [] rest h = cc
after_prefix-length (a ∷ p) (c ∷ text) rest h = ground (arith, h, after_prefix-length p text rest)

-- The pattern stands where the text is split.
pub split-length :
    (p text before from : Bytes) → split p text ≡ some (before, from) → length p ≤ length from
unfolding split
split-length p [] before from h = elim (Option-cases (after_prefix p [])) [
  | inl e ↦ ground (arith, h, e)
  | inr (rest, e) ↦ ground (arith, h, e, after_prefix-length p [] rest)
]
split-length p (c ∷ cs) before from h = elim (Option-cases (after_prefix p (c ∷ cs))) [
  | inl e ↦ elim (Option-cases (split p cs)) [
    | inl f ↦ ground (arith, h, e, f)
    | inr ((b, a), f) ↦ ground (arith, h, e, f, split-length p cs b a)
  ]
  | inr (rest, e) ↦ ground (arith, h, e, after_prefix-length p (c ∷ cs) rest)
]

-- The parts make up the text.
pub split_sound :
    (p text before from : Bytes) → split p text ≡ some (before, from) → text ≡ before ++ from
unfolding split
split_sound p [] before from h = elim (Option-cases (after_prefix p [])) [
  | inl e ↦ ground (arith, h, e)
  | inr (rest, e) ↦ ground (arith, h, e)
]
split_sound p (c ∷ cs) before from h = elim (Option-cases (after_prefix p (c ∷ cs))) [
  | inl e ↦ elim (Option-cases (split p cs)) [
    | inl f ↦ ground (arith, h, e, f)
    | inr ((b, a), f) ↦ ground (arith, h, e, f, split_sound p cs b a)
  ]
  | inr (rest, e) ↦ ground (arith, h, e)
]

split_at_once :
    (p more before from rest : Bytes)
    → after_prefix p [] ≡ some rest
    → split p [] ≡ some (before, from)
    → split p more ≡ some (before, from ++ more)
unfolding split after_prefix
split_at_once [] [] before from rest e h = ground arith
split_at_once [] (c ∷ more) before from rest e h = ground arith
split_at_once (a ∷ p) more before from rest e h = cc

-- More text behind it does not change where the first occurrence is.
pub split-append :
    (p text more before from : Bytes)
    → split p text ≡ some (before, from)
    → split p (text ++ more) ≡ some (before, from ++ more)
unfolding split
split-append p [] more before from h = elim (Option-cases (after_prefix p [])) [
  | inl e ↦ ground (arith, e)
  | inr (rest, e) ↦ split_at_once p more before from rest e h
]
split-append p (c ∷ cs) more before from h = elim (Option-cases (after_prefix p (c ∷ cs))) [
  | inl e ↦ elim (Option-cases (split p cs)) [
    | inl f ↦ ground (arith, e, f)
    | inr ((b, a), f) ↦
        let long = split-length p cs b a f in
        let parts = ap length (split_sound p cs b a f) in
        let none_here =
          after_prefix-append_none p (c ∷ cs) more e
            (omega (arith, long, parts, length-append b a)) in
        ground (arith, e, f, none_here, split-append p cs more b a f)
  ]
  | inr (rest, e) ↦ ground (arith, e, after_prefix-append p (c ∷ cs) rest more e)
]
