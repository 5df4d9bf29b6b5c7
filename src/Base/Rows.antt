-- ===== src/Base/Rows.antt =====
-- Lemmas on the rows that a test finds, counts and updates.
use Prim.Native.Nat.{◌+◌, ◌≤◌}
use mathlib.Core.Path.{◌≡◌, refl}
use mathlib.Core.Bool.{Bool, true, false, not, ◌&&◌}
use mathlib.Core.Option.{none, some}
use mathlib.Core.List.{List, [], ◌∷◌, ◌++◌}
use native.Mathlib.Omega.{arith}
use saasmint_core.Base.Tables.{first, any, count, update, All}

module _ {ℓ} {A : Type ℓ} where
  -- What holds of a row that was found.
  pub first-test : (p : A → Bool) (xs : List A) {x : A} → first p xs ≡ some x → p x ≡ true
  first-test p [] e = cc
  first-test p (x ∷ xs) {x = r} e = ground (arith, first-test p xs {x = r})

  pub first-append :
      (p : A → Bool) (xs ys : List A) → first p xs ≡ none → first p (xs ++ ys) ≡ first p ys
  first-append p [] ys e = refl
  first-append p (x ∷ xs) ys e = ground (arith, first-append p xs ys)

  pub first-append_some :
      (p : A → Bool) (xs ys : List A) {x : A} → first p xs ≡ some x → first p (xs ++ ys) ≡ some x
  first-append_some p [] ys e = cc
  first-append_some p (x ∷ xs) ys {x = r} e = ground (arith, first-append_some p xs ys {x = r})

  -- An update that keeps the test on the rows that it changes keeps what the test finds.
  pub first-update :
      (p : A → Bool) (f : A → A) (xs : List A) {x : A}
      → ((y : A) → p y ≡ true → p (f y) ≡ true)
      → first p xs ≡ some x
      → first p (update p f xs) ≡ some (f x)
  first-update p f [] keep e = cc
  first-update p f (x ∷ xs) {x = r} keep e =
      ground (arith, keep x, first-update p f xs {x = r} keep)

  pub count-append : (p : A → Bool) (xs ys : List A) → count p (xs ++ ys) ≡ count p xs + count p ys
  count-append p [] ys = omega arith
  count-append p (x ∷ xs) ys = ground (arith, count-append p xs ys)

  pub count-none : (p : A → Bool) (xs : List A) → first p xs ≡ none → count p xs ≡ 0
  count-none p [] e = refl
  count-none p (x ∷ xs) e = ground (arith, count-none p xs)

  pub first-count : (p : A → Bool) (xs : List A) → count p xs ≡ 0 → first p xs ≡ none
  first-count p [] e = refl
  first-count p (x ∷ xs) e = ground (arith, first-count p xs)

  -- An update that keeps a test keeps the number of rows that pass it.
  pub count-update :
      (q p : A → Bool) (f : A → A) (xs : List A)
      → ((y : A) → p y ≡ true → q (f y) ≡ q y)
      → count q (update p f xs) ≡ count q xs
  count-update q p f [] keep = refl
  count-update q p f (x ∷ xs) keep = ground (arith, keep x, count-update q p f xs keep)

  pub update-none :
      (p : A → Bool) (f : A → A) (xs : List A) → first p xs ≡ none → update p f xs ≡ xs
  update-none p f [] e = refl
  update-none p f (x ∷ xs) e = ground (arith, update-none p f xs)

  pub All-append {κ} : (P : A → Type κ) (xs ys : List A) → All P xs → All P ys → All P (xs ++ ys)
  All-append P [] ys h k = k
  All-append P (x ∷ xs) ys h k = (h.0, All-append P xs ys h.1 k)

  pub any-count : (p : A → Bool) (xs : List A) → any p xs ≡ false → count p xs ≡ 0
  any-count p [] e = refl
  any-count p (x ∷ xs) e = ground (arith, any-count p xs)

  -- An update adds no row that passes a test it makes false.
  pub count-update_drop :
      (q p : A → Bool) (f : A → A) (xs : List A)
      → ((y : A) → p y ≡ true → q (f y) ≡ false)
      → count q (update p f xs) ≤ count q xs
  count-update_drop q p f [] drop = omega arith
  count-update_drop q p f (x ∷ xs) drop = ground (arith, drop x, count-update_drop q p f xs drop)

  -- After an update, the rows that pass a test are untouched rows or updated ones.
  pub count-update_le :
      (q p : A → Bool) (f : A → A) (xs : List A)
      → count q (update p f xs) ≤ count (λ x. not (p x) && q x) xs + count p xs
  count-update_le q p f [] = omega arith
  count-update_le q p f (x ∷ xs) = ground (arith, count-update_le q p f xs)

  -- An update that changes none of the rows that it selects changes nothing.
  pub update_fixed :
      (p : A → Bool) (f : A → A) (xs : List A)
      → All (λ y. p y ≡ true → f y ≡ y) xs
      → update p f xs ≡ xs
  update_fixed p f [] h = refl
  update_fixed p f (x ∷ xs) h = ground (arith, h.0, update_fixed p f xs h.1)

  pub count_split :
      (q p : A → Bool) (xs : List A) → count q xs ≤ count (λ x. not (p x) && q x) xs + count p xs
  count_split q p [] = omega arith
  count_split q p (x ∷ xs) = ground (arith, count_split q p xs)

  -- What is added at most once to a table that has none is there at most once.
  pub count-append_one :
      (q : A → Bool) (xs : List A) (y : A)
      → count q xs ≤ 1
      → (q y ≡ true → count q xs ≡ 0)
      → count q (xs ++ y ∷ []) ≤ 1
  count-append_one q xs y h new = ground (arith, count-append q xs (y ∷ []))
