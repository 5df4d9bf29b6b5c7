-- ===== src/Base/Deletes.antt =====
-- Lemmas on the rows that a delete spares.
use mathlib.Core.Path.{◌≡◌, refl}
use mathlib.Core.Bool.{Bool, true, false}
use mathlib.Core.List.{List, [], ◌∷◌}
use native.Mathlib.Omega.{arith}
use saasmint_core.Base.Tables.{first, any, select, delete, All}

module _ {ℓ} {A : Type ℓ} where
  pub All-map {κ} : (P Q : A → Type κ) (xs : List A) → ((x : A) → P x → Q x) → All P xs → All Q xs
  All-map P Q [] f h = h
  All-map P Q (x ∷ xs) f h = (f x h.0, All-map P Q xs f h.1)

  -- A row that passes a test shows that some row does.
  pub All-any : (P : A → A → Bool) (xs : List A) → All (λ x. P x x ≡ true → any (P x) xs ≡ true) xs
  All-any P [] = tt
  All-any P (x ∷ xs) = (
    (λ h. ground (arith, h)),
    All-map (λ y. P y y ≡ true → any (P y) xs ≡ true) _ xs (λ y k h. ground (arith, k h))
        (All-any P xs),
  )

  -- A delete of rows outside of a selection leaves the selection.
  pub select-delete :
      (q p : A → Bool) (xs : List A)
      → All (λ x. q x ≡ true → p x ≡ false) xs
      → select q (delete p xs) ≡ select q xs
  select-delete q p [] h = refl
  select-delete q p (x ∷ xs) h = ground (arith, h.0, select-delete q p xs h.1)

  pub first-delete_spared :
      (q p : A → Bool) (xs : List A)
      → ((x : A) → q x ≡ true → p x ≡ false)
      → first q (delete p xs) ≡ first q xs
  first-delete_spared q p [] h = refl
  first-delete_spared q p (x ∷ xs) h = ground (arith, h x, first-delete_spared q p xs h)

  pub any-delete_gone :
      (q p : A → Bool) (xs : List A)
      → ((x : A) → q x ≡ true → p x ≡ true)
      → any q (delete p xs) ≡ false
  any-delete_gone q p [] h = refl
  any-delete_gone q p (x ∷ xs) h = ground (arith, h x, any-delete_gone q p xs h)

  pub any-delete_none :
      (q p : A → Bool) (xs : List A) → any q xs ≡ false → any q (delete p xs) ≡ false
  any-delete_none q p [] h = refl
  any-delete_none q p (x ∷ xs) h = ground (arith, any-delete_none q p xs)

  pub each-All {κ} : (P : A → Type κ) (xs : List A) → ((x : A) → P x) → All P xs
  each-All P [] f = tt
  each-All P (x ∷ xs) f = (f x, each-All P xs f)
