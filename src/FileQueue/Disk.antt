-- ===== src/FileQueue/Disk.antt =====
-- The files of the queue. A file is a path with its contents; directories are taken to exist.
use systems_craft.Prelude.{
  ℕ, ◌≡◌, ◌≢◌, refl, ap, ◌∙◌, List, [], ◌∷◌, ◌++◌, append_assoc, none, some, Bytes, codes, lookup,
  insert, lookup-insert, beq, if◌then◌else◌, to_string, zero_padded, to_string-injective,
  zero_padded-injective, extract_u64, is_digit, Stops, arith,
}
use mathlib.Core.List.{append_cancel_left}

abbrev pub Disk : Type 0
Disk = List (Bytes × Bytes)

-- `base + "/partition-" + std::to_string(i) + tail`.
abbrev pub partition_file : Bytes → ℕ → Bytes → Bytes
partition_file base i tail = base ++ (codes "/partition-" ++ (to_string i ++ tail))

-- The file of one message.
unfoldable pub message_path : Bytes → ℕ → ℕ → Bytes
message_path base partition offset =
    partition_file base partition (codes "/" ++ (zero_padded 20 offset ++ codes ".msg"))

-- The file that keeps a partition's last offset.
unfoldable pub offset_path : Bytes → ℕ → Bytes
offset_path base partition = partition_file base partition (codes "/offset.txt")

-- `file >> n` on a file of that name, with 0 where there is none.
unfoldable pub stored_offset : Disk → Bytes → ℕ
stored_offset disk path = elim (lookup path disk) [ none ↦ 0 | some text ↦ extract_u64 text ]

-- The last byte but one of a path tells the kinds of files apart.
abbrev pub before_last : Bytes → ℕ
before_last [] = 0
before_last (c ∷ []) = 0
before_last (c ∷ d ∷ []) = c
before_last (c ∷ d ∷ e ∷ rest) = before_last (d ∷ e ∷ rest)

pub before_last-append :
    (xs : Bytes) (c d : ℕ) (ys : Bytes) → before_last (xs ++ c ∷ d ∷ ys) ≡ before_last (c ∷ d ∷ ys)
before_last-append [] c d ys = refl
before_last-append (x ∷ []) c d ys = refl
before_last-append (x ∷ y ∷ []) c d ys = refl
before_last-append (x ∷ y ∷ z ∷ xs) c d ys = before_last-append (y ∷ z ∷ xs) c d ys

partition_file-injective :
    (base : Bytes) (i j : ℕ) (a b : Bytes)
    → Stops a
    → Stops b
    → partition_file base i a ≡ partition_file base j b
    → (i ≡ j) × (a ≡ b)
partition_file-injective base i j a b sa sb e =
    let e' : to_string i ++ a ≡ to_string j ++ b =
      append_cancel_left (codes "/partition-") (to_string i ++ a) (to_string j ++ b)
        (append_cancel_left base _ _ e) in
    let same : i ≡ j = to_string-injective i j a b sa sb e' in
    (same, append_cancel_left (to_string j) a b (rw same at e'))

-- Different messages have different files.
pub message_path-injective :
    (base : Bytes) (p p' o o' : ℕ)
    → message_path base p o ≡ message_path base p' o'
    → (p ≡ p') × (o ≡ o')
unfolding message_path is_digit
message_path-injective base p p' o o' e =
    let (same, tails) =
      partition_file-injective base p p' (codes "/" ++ (zero_padded 20 o ++ codes ".msg"))
        (codes "/" ++ (zero_padded 20 o' ++ codes ".msg")) refl refl e in
    (
      same,
      zero_padded-injective 20 o o' (codes ".msg") (codes ".msg") refl refl
          (append_cancel_left (codes "/") _ _ tails),
    )

pub offset_path-injective :
    (base : Bytes) (p p' : ℕ) → offset_path base p ≡ offset_path base p' → p ≡ p'
unfolding offset_path is_digit
offset_path-injective base p p' e =
    (partition_file-injective base p p' (codes "/offset.txt") (codes "/offset.txt") refl refl e).0

pub message_path-mark : (base : Bytes) (p o : ℕ) → before_last (message_path base p o) ≡ b's'
unfolding message_path
message_path-mark base p o =
    ap before_last grouped
    ∙ before_last-append
        (base ++ (codes "/partition-" ++ (to_string p ++ (codes "/" ++ zero_padded 20 o)))) b'.'
        b'm' (codes "sg")
  where
    grouped :
        partition_file base p (codes "/" ++ (zero_padded 20 o ++ codes ".msg"))
        ≡ (base ++ (codes "/partition-" ++ (to_string p ++ (codes "/" ++ zero_padded 20 o))))
          ++ codes ".msg"
    grouped = simp append_assoc

pub offset_path-mark : (base : Bytes) (p : ℕ) → before_last (offset_path base p) ≡ b'x'
unfolding offset_path
offset_path-mark base p =
    ap before_last grouped
    ∙ before_last-append (base ++ (codes "/partition-" ++ to_string p)) b'/' b'o'
        (codes "ffset.txt")
  where
    grouped :
        partition_file base p (codes "/offset.txt")
        ≡ (base ++ (codes "/partition-" ++ to_string p)) ++ codes "/offset.txt"
    grouped = simp append_assoc

-- No message is an offset file, in whatever directory.
pub message_path-ne-offset_path :
    (base base' : Bytes) (p p' o : ℕ) → message_path base p o ≢ offset_path base' p'
message_path-ne-offset_path base base' p p' o e =
    absurd (omega (arith, ap before_last e, message_path-mark base p o, offset_path-mark base' p'))

pub stored_offset-insert :
    (k j text : Bytes) (disk : Disk)
    → stored_offset (insert k text disk) j
      ≡ (if beq k j then extract_u64 text else stored_offset disk j)
unfolding stored_offset
stored_offset-insert k j text disk = ground (arith, lookup-insert k j text disk)
