-- ===== src/Tokens/Cleanup/Batches.antt =====
-- The batches of a cleanup delete what one delete would.
use saasmint_core.Base.{
  ℕ, zero, suc, ◌+◌, ◌≤◌, ◌<◌, ◌==◌, Bool, true, false, ◌&&◌, List, [], ◌∷◌, ◌≡◌, refl, sym, ap,
  subst, ◌∙◌, arith, inl, inr, Bool-cases, any, count, delete, length, All, if◌then◌else◌, ==_refl,
}
use saasmint_core.Python.{DateTime}
use saasmint_core.Domain.{Uuid}
use saasmint_core.Tokens.Cleanup.{is_empty, is_expired, batch_ids, has_id_in}

module _ {A : Type 0} where
  -- Tests that agree on the rows delete and count the same rows.
  delete_same : (p q : A → Bool) (xs : List A) → All (λ x. p x ≡ q x) xs → delete p xs ≡ delete q xs
  delete_same p q [] h = refl
  delete_same p q (x ∷ xs) h = ground (arith, h.0, delete_same p q xs h.1)

  count_same : (p q : A → Bool) (xs : List A) → All (λ x. p x ≡ q x) xs → count p xs ≡ count q xs
  count_same p q [] h = refl
  count_same p q (x ∷ xs) h = ground (arith, h.0, count_same p q xs h.1)

  pub count-le_length : (p : A → Bool) (xs : List A) → count p xs ≤ length xs
  count-le_length p [] = omega arith
  count-le_length p (x ∷ xs) = ground (arith, count-le_length p xs)

module _ {A : Type 0} (of : A → Bool) (id : A → Uuid) (expires_at : A → DateTime) where
  -- No two rows of the table have one id.
  abbrev pub IsDistinct : List A → Type 0
  IsDistinct [] = Unit {0}
  IsDistinct (x ∷ xs) = (of x ≡ true → any (λ y. of y && id x == id y) xs ≡ false) × IsDistinct xs

  module _ (now : DateTime) where
    abbrev pub dead : A → Bool
    dead = is_expired of id expires_at now

    abbrev pub ids : ℕ → List A → List Uuid
    ids cap rows = batch_ids of id expires_at cap now rows

    -- The rows without the first expired ones, and how many these are.
    unfoldable pub drop_first : ℕ → List A → List A
    drop_first c [] = []
    drop_first zero (x ∷ xs) = x ∷ xs
    drop_first (suc c) (x ∷ xs) = if dead x then drop_first c xs else x ∷ drop_first (suc c) xs

    unfoldable pub dropped : ℕ → List A → ℕ
    dropped c [] = 0
    dropped zero (x ∷ xs) = 0
    dropped (suc c) (x ∷ xs) = if dead x then suc (dropped c xs) else dropped (suc c) xs

    none-in : (xs : List A) → All (λ x. has_id_in of id expires_at [] x ≡ false) xs
    none-in [] = tt
    none-in (x ∷ xs) = (ground arith, none-in xs)

    delete_none-in : (xs : List A) → delete (has_id_in of id expires_at []) xs ≡ xs
    delete_none-in [] = refl
    delete_none-in (x ∷ xs) = ground (arith, delete_none-in xs)

    count_none-in : (xs : List A) → count (has_id_in of id expires_at []) xs ≡ 0
    count_none-in [] = refl
    count_none-in (x ∷ xs) = ground (arith, count_none-in xs)

    -- An id that no row of the table has changes no test on its rows.
    fresh_same :
        (i : Uuid) (is : List Uuid) (xs : List A)
        → any (λ y. of y && i == id y) xs ≡ false
        → All (λ y. has_id_in of id expires_at (i ∷ is) y ≡ has_id_in of id expires_at is y) xs
    fresh_same i is [] h = tt
    fresh_same i is (x ∷ xs) h = (ground (arith, h), fresh_same i is xs (ground (arith, h)))

    -- The ids of a batch are those of rows of the table.
    fresh-ids :
        (i : Uuid) (c : ℕ) (xs : List A)
        → any (λ y. of y && i == id y) xs ≡ false
        → any (λ j. j == i) (ids c xs) ≡ false
    fresh-ids i zero xs h = refl
    fresh-ids i (suc c) [] h = refl
    fresh-ids i (suc c) (x ∷ xs) h = ground (arith, h, fresh-ids i c xs, fresh-ids i (suc c) xs)

    -- A row that is not in the batch is spared.
    spared :
        (x : A) (xs : List A) (c : ℕ)
        → (of x ≡ true → any (λ y. of y && id x == id y) xs ≡ false)
        → has_id_in of id expires_at (ids (suc c) xs) x ≡ false
    spared x xs c h = elim (Bool-cases (of x)) [
      | inl own ↦ rw own (fresh-ids (id x) (suc c) xs (h own))
      | inr other ↦ rw other refl
    ]

    -- A list of ids deletes the first expired rows, and nothing else.
    abbrev pub Drops : ℕ → List A → List Uuid → Type 0
    Drops c xs is =
        (delete (has_id_in of id expires_at is) xs ≡ drop_first c xs)
        × (count (has_id_in of id expires_at is) xs ≡ dropped c xs)

    old-Drops :
        (c : ℕ) (x : A) (xs : List A) (is : List Uuid)
        → dead x ≡ true
        → any (λ y. of y && id x == id y) xs ≡ false
        → Drops c xs is
        → Drops (suc c) (x ∷ xs) (id x ∷ is)
    unfolding drop_first dropped
    old-Drops c x xs is old fresh (rows, number) =
        let own : of x ≡ true = ground (arith, old) in
        let same = fresh_same (id x) is xs fresh in
        rw (old, own, ==_refl (id x))
          (delete_same _ _ xs same ∙ rows, ap suc (count_same _ _ xs same ∙ number))

    young-Drops :
        (c : ℕ) (x : A) (xs : List A) (is : List Uuid)
        → dead x ≡ false
        → has_id_in of id expires_at is x ≡ false
        → Drops (suc c) xs is
        → Drops (suc c) (x ∷ xs) is
    unfolding drop_first dropped
    young-Drops c x xs is young kept (rows, number) = rw (young, kept) (ap (◌∷◌ x) rows, number)

    pub batch-Drops : (c : ℕ) (xs : List A) → IsDistinct xs → Drops c xs (ids c xs)
    unfolding drop_first dropped
    batch-Drops c [] h = (refl, refl)
    batch-Drops zero (x ∷ xs) h = (delete_none-in (x ∷ xs), count_none-in (x ∷ xs))
    batch-Drops (suc c) (x ∷ xs) h = elim (Bool-cases (dead x)) [
      | inl old ↦
          subst (Drops (suc c) (x ∷ xs)) (sym (ids_old old))
            (old-Drops c x xs (ids c xs) old (h.0 (ground (arith, old))) (batch-Drops c xs h.1))
      | inr young ↦ subst (Drops (suc c) (x ∷ xs)) (sym (ids_young young)) (
          young-Drops c x xs (ids (suc c) xs) young (spared x xs c h.0)
            (batch-Drops (suc c) xs h.1))
    ]
      where
        ids_old : dead x ≡ true → ids (suc c) (x ∷ xs) ≡ id x ∷ ids c xs
        ids_old e = rw e refl

        ids_young : dead x ≡ false → ids (suc c) (x ∷ xs) ≡ ids (suc c) xs
        ids_young e = rw e refl

    -- What is left to delete after a batch, and what was deleted.
    pub delete-drop_first : (c : ℕ) (xs : List A) → delete dead (drop_first c xs) ≡ delete dead xs
    unfolding drop_first
    delete-drop_first c [] = refl
    delete-drop_first zero (x ∷ xs) = refl
    delete-drop_first (suc c) (x ∷ xs) =
        ground (arith, delete-drop_first c xs, delete-drop_first (suc c) xs)

    pub count-drop_first :
        (c : ℕ) (xs : List A) → count dead (drop_first c xs) + dropped c xs ≡ count dead xs
    unfolding drop_first dropped
    count-drop_first c [] = omega arith
    count-drop_first zero (x ∷ xs) = omega arith
    count-drop_first (suc c) (x ∷ xs) =
        ground (arith, count-drop_first c xs, count-drop_first (suc c) xs)

    -- A batch that is not full was the last.
    pub last_batch :
        (c : ℕ) (xs : List A)
        → dropped c xs < c
        → (drop_first c xs ≡ delete dead xs) × (dropped c xs ≡ count dead xs)
    unfolding drop_first dropped
    last_batch c [] h = (refl, refl)
    last_batch zero (x ∷ xs) h = absurd (omega arith)
    last_batch (suc c) (x ∷ xs) h = ground (arith, last_batch c xs, last_batch (suc c) xs)

    -- An empty batch finds nothing.
    pub empty_batch :
        (c : ℕ) (xs : List A)
        → 0 < c
        → is_empty (ids c xs) ≡ true
        → (xs ≡ delete dead xs) × (count dead xs ≡ 0)
    empty_batch zero xs h e = absurd (omega arith)
    empty_batch (suc c) [] h e = (refl, refl)
    empty_batch (suc c) (x ∷ xs) h e = ground (arith, e, empty_batch (suc c) xs)

    pub any-drop_first :
        (p : A → Bool) (c : ℕ) (xs : List A) → any p xs ≡ false → any p (drop_first c xs) ≡ false
    unfolding drop_first
    any-drop_first p c [] h = refl
    any-drop_first p zero (x ∷ xs) h = h
    any-drop_first p (suc c) (x ∷ xs) h =
        ground (arith, h, any-drop_first p c xs, any-drop_first p (suc c) xs)
