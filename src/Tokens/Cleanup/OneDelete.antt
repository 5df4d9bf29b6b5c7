-- ===== src/Tokens/Cleanup/OneDelete.antt =====
-- A cleanup is one delete of the expired rows.
use saasmint_core.Base.{
  ℕ, zero, suc, ◌+◌, ◌<◌, ◌==◌, ltb, Bool, true, false, ◌&&◌, Option, some, List, [], ◌∷◌, ◌≡◌,
  refl, ap, ◌∙◌, arith, inl, inr, Bool-cases, count, delete, length, if◌then◌else◌,
}
use saasmint_core.Python.{DateTime}
use saasmint_core.Domain.{Uuid}
use saasmint_core.Tokens.Cleanup.{is_empty, is_expired, prune, delete_expired_rows}
use saasmint_core.Tokens.Cleanup.Batches.{
  IsDistinct, dead, ids, drop_first, dropped, batch-Drops, delete-drop_first, count-drop_first,
  last_batch, empty_batch, any-drop_first, count-le_length,
}

module _ {A : Type 0} (of : A → Bool) (id : A → Uuid) (expires_at : A → DateTime)
    (now : DateTime) where
  drop_first-IsDistinct :
      (c : ℕ) (xs : List A)
      → IsDistinct of id expires_at xs
      → IsDistinct of id expires_at (drop_first of id expires_at now c xs)
  unfolding drop_first
  drop_first-IsDistinct c [] h = tt
  drop_first-IsDistinct zero (x ∷ xs) h = h
  drop_first-IsDistinct (suc c) (x ∷ xs) h = elim (Bool-cases (dead of id expires_at now x)) [
    | inl old ↦ rw old (drop_first-IsDistinct c xs h.1)
    | inr young ↦ rw young (
      (λ own. any-drop_first of id expires_at now (λ y. of y && id x == id y) (suc c) xs (h.0 own)),
      drop_first-IsDistinct (suc c) xs h.1,
    )
  ]

  -- The loop, from a number of rows that are deleted already.
  prune-one_delete :
      (fuel cap total : ℕ) (xs : List A)
      → 0 < cap
      → count (dead of id expires_at now) xs < fuel
      → IsDistinct of id expires_at xs
      → prune of id expires_at fuel cap now total xs
        ≡ some (total + count (dead of id expires_at now) xs, delete (dead of id expires_at now) xs)
  unfolding prune
  prune-one_delete zero cap total xs pos enough h = absurd (omega arith)
  prune-one_delete (suc fuel) cap total xs pos enough h =
      (λ i.
        step (is_empty (ids of id expires_at now cap xs))
          ((batch-Drops of id expires_at now cap xs h).1 i)
          ((batch-Drops of id expires_at now cap xs h).0 i))
      ∙ cases (is_empty (ids of id expires_at now cap xs)) refl
          (prune-one_delete fuel cap (total + n) l pos)
    where
      n : ℕ
      n = dropped of id expires_at now cap xs

      l : List A
      l = drop_first of id expires_at now cap xs

      step : Bool → ℕ → List A → Option (ℕ × List A)
      step e k left =
          if e
          then some (total, xs)
          else if ltb k cap
          then some (total + k, left)
          else prune of id expires_at fuel cap now (total + k) left

      result : Option (ℕ × List A)
      result =
          some (total + count (dead of id expires_at now) xs, delete (dead of id expires_at now) xs)

      pair :
          {a b : ℕ} {x y : List A}
          → a ≡ b
          → x ≡ y
          → ◌≡◌ {A = Option (ℕ × List A)} (some (a, x)) (some (b, y))
      pair p q i = some (p i, q i)

      cases :
          (e : Bool)
          → is_empty (ids of id expires_at now cap xs) ≡ e
          → (count (dead of id expires_at now) l < fuel
              → IsDistinct of id expires_at l
              → prune of id expires_at fuel cap now (total + n) l
                ≡ some (
                  (total + n) + count (dead of id expires_at now) l,
                  delete (dead of id expires_at now) l,
                ))
          → step e n l ≡ result
      cases true empty rest =
          let (none_left, number) = empty_batch of id expires_at now cap xs pos empty in
          pair (omega (arith, number)) none_left
      cases false more rest = elim (Bool-cases (ltb n cap)) [
        | inl small ↦
            let (left, number) = last_batch of id expires_at now cap xs (ground (arith, small)) in
            rw small (pair (ap (λ k. total + k) number) left)
        | inr full ↦ rw full (
            rest (ground (arith, full, count-drop_first of id expires_at now cap xs))
              (drop_first-IsDistinct cap xs h)
            ∙ pair (omega (arith, count-drop_first of id expires_at now cap xs))
                (delete-drop_first of id expires_at now cap xs))
      ]

  -- The batches of a cleanup delete all expired rows, no other row, and count each of them once,
  -- within the fuel that the loop has, for batches of any positive size and a table in which no two
  -- rows have one id.
  pub cleanup_one_delete :
      (cap : ℕ) (xs : List A)
      → 0 < cap
      → IsDistinct of id expires_at xs
      → delete_expired_rows of id expires_at cap now xs
        ≡ some (
          count (is_expired of id expires_at now) xs,
          delete (is_expired of id expires_at now) xs,
        )
  unfolding delete_expired_rows
  cleanup_one_delete cap xs pos h =
      prune-one_delete (suc (length xs)) cap 0 xs pos
        (omega (arith, count-le_length (is_expired of id expires_at now) xs)) h
      ∙ ap (λ k. some (k, delete (is_expired of id expires_at now) xs)) (omega arith)
