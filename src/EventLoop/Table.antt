-- ===== src/EventLoop/Table.antt =====
-- Maps keyed by file descriptors, as association lists.
use systems_craft.Prelude.{
  ℕ, ◌≡◌, refl, List, [], ◌∷◌, Option, none, some, arith, ◌==◌, if◌then◌else◌,
}

module _ {ℓ} {V : Type ℓ} where
  unfoldable pub find_fd : ℕ → List (ℕ × V) → Option V
  find_fd fd [] = none
  find_fd fd ((k, v) ∷ m) = if k == fd then some v else find_fd fd m

  -- `m[fd] = v`.
  unfoldable pub put_fd : ℕ → V → List (ℕ × V) → List (ℕ × V)
  put_fd fd v [] = (fd, v) ∷ []
  put_fd fd v ((k, w) ∷ m) = if k == fd then (fd, v) ∷ m else (k, w) ∷ put_fd fd v m

  -- `erase(fd)`.
  unfoldable pub erase_fd : ℕ → List (ℕ × V) → List (ℕ × V)
  erase_fd fd [] = []
  erase_fd fd ((k, w) ∷ m) = if k == fd then erase_fd fd m else (k, w) ∷ erase_fd fd m

  pub find_fd-put_fd :
      (fd j : ℕ) (v : V) (m : List (ℕ × V))
      → find_fd j (put_fd fd v m) ≡ (if fd == j then some v else find_fd j m)
  unfolding find_fd put_fd
  find_fd-put_fd fd j v [] = refl
  find_fd-put_fd fd j v ((k, w) ∷ m) = ground (arith, find_fd-put_fd fd j v m)

  pub find_fd-erase_fd :
      (fd j : ℕ) (m : List (ℕ × V))
      → find_fd j (erase_fd fd m) ≡ (if fd == j then none else find_fd j m)
  unfolding find_fd erase_fd
  find_fd-erase_fd fd j [] = ground arith
  find_fd-erase_fd fd j ((k, w) ∷ m) = ground (arith, find_fd-erase_fd fd j m)

  pub put_fd_twice :
      (fd : ℕ) (v w : V) (m : List (ℕ × V)) → put_fd fd v (put_fd fd w m) ≡ put_fd fd v m
  unfolding put_fd
  put_fd_twice fd v w [] = ground arith
  put_fd_twice fd v w ((k, u) ∷ m) = ground (arith, put_fd_twice fd v w m)
