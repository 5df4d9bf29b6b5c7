-- ===== src/Base/TwoTests.antt =====
-- Lemmas on a row that is found by one test and updated or looked up by another.
use Prim.Native.Nat.{◌≤◌}
use mathlib.Core.Path.{◌≡◌, refl}
use mathlib.Core.Logic.{inl, inr}
use mathlib.Core.Bool.{Bool, true, false, not, ◌&&◌}
use mathlib.Core.Option.{none, some}
use mathlib.Core.List.{List, [], ◌∷◌}
use native.Mathlib.Omega.{arith}
use saasmint_core.Base.Tests.{Bool-cases, if◌then◌else◌}
use saasmint_core.Base.Tables.{first, any, count, update, delete}
use saasmint_core.Base.Rows.{first-count, update-none}

module _ {ℓ} {A : Type ℓ} where
  -- The row that a test finds counts for each test that it passes.
  pub first-count_pos :
      (q p : A → Bool) (xs : List A) {x : A} → first q xs ≡ some x → p x ≡ true → 1 ≤ count p xs
  first-count_pos q p [] e h = cc
  first-count_pos q p (y ∷ xs) {x = x} e h = ground (arith, first-count_pos q p xs {x = x})

  pub any-none :
      (q p : A → Bool) (xs : List A) → first p xs ≡ none → any (λ y. not (q y) && p y) xs ≡ false
  any-none q p [] e = refl
  any-none q p (x ∷ xs) e = ground (arith, any-none q p xs)

  -- Where one row passes a test, no row but that one does.
  pub any_other :
      (q p : A → Bool) (xs : List A) {x : A}
      → first p xs ≡ some x
      → q x ≡ true
      → count p xs ≤ 1
      → any (λ y. not (q y) && p y) xs ≡ false
  any_other q p [] e h one = refl
  any_other q p (y ∷ xs) {x = x} e h one =
      ground (arith, any_other q p xs {x = x}, any-none q p xs, first-count p xs)

  -- An update of one row, found by another test that the new row passes.
  pub first-update_one :
      (q p : A → Bool) (f : A → A) (xs : List A) {x : A}
      → first q xs ≡ some x
      → p x ≡ true
      → q (f x) ≡ true
      → count p xs ≤ 1
      → first q (update p f xs) ≡ some (f x)
  first-update_one q p f [] e h k one = cc
  first-update_one q p f (y ∷ xs) {x = x} e h k one =
      ground (arith, first-update_one q p f xs {x = x}, first-count_pos q p xs {x = x})

  -- A test that the found row passes finds a row.
  pub first_of_found :
      (q p : A → Bool) (xs : List A) {x : A}
      → first q xs ≡ some x
      → p x ≡ true
      → (y : A) × (first p xs ≡ some y)
  first_of_found q p [] e h = cc
  first_of_found q p (y ∷ xs) {x = x} e h = elim (Bool-cases (p y)) [
    | inl here ↦ (y, rw here)
    | inr there ↦ elim (Bool-cases (q y)) [
      | inl same ↦ ground arith
      | inr other ↦ rw there (first_of_found q p xs {x = x} (ground arith) h)
    ]
  ]

  -- Where one row passes `p`, a row that passes `p` and is found by `q` is found by `p`.
  pub first_same :
      (q p : A → Bool) (xs : List A) {x : A}
      → first q xs ≡ some x
      → p x ≡ true
      → count p xs ≤ 1
      → first p xs ≡ some x
  first_same q p [] e h one = cc
  first_same q p (y ∷ xs) {x = x} e h one =
      ground (arith, first_same q p xs {x = x}, first-count_pos q p xs {x = x})

  -- An update of one row that it leaves as it is changes nothing.
  pub update_same :
      (p : A → Bool) (f : A → A) (xs : List A) {x : A}
      → first p xs ≡ some x
      → f x ≡ x
      → count p xs ≤ 1
      → update p f xs ≡ xs
  update_same p f [] e h one = refl
  update_same p f (y ∷ xs) {x = x} e h one =
      ground (arith, update_same p f xs {x = x}, update-none p f xs, first-count p xs)

  -- The first row that passes the test of an update, which keeps that test, was updated.
  pub first-update_inv :
      (p : A → Bool) (f : A → A) (xs : List A) {x : A}
      → ((y : A) → p y ≡ true → p (f y) ≡ true)
      → first p (update p f xs) ≡ some x
      → (y : A) × (x ≡ f y)
  first-update_inv p f [] keep e = cc
  first-update_inv p f (y ∷ xs) {x = x} keep e = elim (Bool-cases (p y)) [
    | inl here ↦ (y, ground (arith, keep y))
    | inr there ↦ first-update_inv p f xs {x = x} keep (ground arith)
  ]

  -- An update that keeps a test keeps the place of the row that the test finds.
  pub first-update_at :
      (q p : A → Bool) (f : A → A) (xs : List A) {x : A}
      → ((y : A) → q (f y) ≡ q y)
      → first q xs ≡ some x
      → p x ≡ true
      → first q (update p f xs) ≡ some (f x)
  first-update_at q p f [] keep e h = cc
  first-update_at q p f (y ∷ xs) {x = x} keep e h =
      ground (arith, keep y, first-update_at q p f xs {x = x} keep)

  -- No row that an update has made fail its test passes it.
  pub count-update_clears :
      (p : A → Bool) (f : A → A) (xs : List A)
      → ((y : A) → p y ≡ true → p (f y) ≡ false)
      → count p (update p f xs) ≡ 0
  count-update_clears p f [] clears = refl
  count-update_clears p f (x ∷ xs) clears =
      ground (arith, clears x, count-update_clears p f xs clears)

  -- A row that is found passes a further test with the first one.
  pub first_and :
      (p q : A → Bool) (xs : List A) {x : A}
      → first p xs ≡ some x
      → q x ≡ true
      → first (λ y. p y && q y) xs ≡ some x
  first_and p q [] e h = cc
  first_and p q (y ∷ xs) {x = x} e h = ground (arith, first_and p q xs {x = x})

  -- No row is left of those that were deleted.
  pub first-delete : (p q : A → Bool) (xs : List A) → first (λ y. p y && q y) (delete p xs) ≡ none
  first-delete p q [] = refl
  first-delete p q (y ∷ xs) = ground (arith, first-delete p q xs)

  -- A delete finds no new row.
  pub first-delete-none :
      (p q : A → Bool) (xs : List A) → first q xs ≡ none → first q (delete p xs) ≡ none
  first-delete-none p q [] e = refl
  first-delete-none p q (y ∷ xs) e = ground (arith, first-delete-none p q xs)

  -- An update that keeps a test keeps the place of the row that the test finds, updated or not.
  pub first-update_kept :
      (q p : A → Bool) (f : A → A) (xs : List A) {x : A}
      → ((y : A) → q (f y) ≡ q y)
      → first q xs ≡ some x
      → first q (update p f xs) ≡ some (if p x then f x else x)
  first-update_kept q p f [] keep e = cc
  first-update_kept q p f (y ∷ xs) {x = x} keep e =
      ground (arith, keep y, first-update_kept q p f xs {x = x} keep)
