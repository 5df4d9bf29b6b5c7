-- ===== src/Repositories/Subscriptions/Keys.antt =====
-- The keys of the table of subscriptions: `id` and `stripe_id` are unique, and `save` keeps them so.
use saasmint_core.Base.{
  ℕ, ◌≤◌, String, true, false, not, ◌&&◌, none, List, [], ◌∷◌, ◌++◌, ◌≡◌, inl, inr, arith, eq_iff,
  first, count, update, Bool-cases, Option-cases, count-append_one, count-none, count_split,
  count-update, count-update_drop, count-update_le, any-count,
}
use saasmint_core.Domain.{Subscription}
use saasmint_core.Python.{DateTime}
use saasmint_core.State.{Db}
use saasmint_core.Repositories.Subscriptions.{has_id, has_stripe_id, violates, overwrite, upsert}

-- No two rows share an id, and no two share a `stripe_id`.
pub record IsKeyed (rows : List Subscription) : Type 0 where
  pub ids : (i : ℕ) → count (has_id i) rows ≤ 1
  pub stripe_ids : (k : String) → count (has_stripe_id k) rows ≤ 1

module _ (s : Subscription) (db : Db) (valid : violates s db ≡ false) where
  -- No other row has the `stripe_id` of a row that may be saved.
  no_other :
      (k : String)
      → has_stripe_id k s ≡ true
      → count (λ row. not (has_id s.id row) && has_stripe_id k row) db.subscriptions ≡ 0
  no_other k same = elim (Option-cases s.stripe_id) [
    | inl e ↦ ground (arith, e)
    | inr (j, e) ↦
        let jk : j ≡ k = ground (arith, e, eq_iff j k) in
        rw (← jk) (
          any-count (λ row. not (has_id s.id row) && has_stripe_id j row) db.subscriptions
            (ground (arith, e)))
  ]

  -- An update of the row with the id of `s` keeps both keys.
  update-IsKeyed :
      IsKeyed db.subscriptions → IsKeyed (update (has_id s.id) (overwrite s) db.subscriptions)
  update-IsKeyed keyed = record {
    ids = λ i.
        rw
          (count-update (has_id i) (has_id s.id) (overwrite s) db.subscriptions
            (λ row h. ground arith))
          (keyed.ids i);
    stripe_ids = λ k. elim (Bool-cases (has_stripe_id k s)) [
      | inl same ↦ omega (
        arith,
        count-update_le (has_stripe_id k) (has_id s.id) (overwrite s) db.subscriptions,
        no_other k same,
        keyed.ids s.id,
      )
      | inr other ↦ omega (
        arith,
        count-update_drop (has_stripe_id k) (has_id s.id) (overwrite s) db.subscriptions
            (λ row h. other),
        keyed.stripe_ids k,
      )
    ];
  }

  -- So does a new row.
  append-IsKeyed :
      (t : DateTime)
      → first (has_id s.id) db.subscriptions ≡ none
      → IsKeyed db.subscriptions
      → IsKeyed (db.subscriptions ++ record s { created_at = t } ∷ [])
  append-IsKeyed t absent keyed = record {
    ids = λ i. count-append_one (has_id i) db.subscriptions _ (keyed.ids i) (λ e.
        let same : s.id ≡ i = ground arith in
        rw (← same) (count-none (has_id s.id) db.subscriptions absent));
    stripe_ids = λ k.
        count-append_one (has_stripe_id k) db.subscriptions _ (keyed.stripe_ids k) (λ e. omega (
          arith,
          count_split (has_stripe_id k) (has_id s.id) db.subscriptions,
          no_other k e,
          count-none (has_id s.id) db.subscriptions absent,
        ));
  }

  -- Saving a row that breaks no constraint keeps both keys.
  pub upsert-IsKeyed :
      (t : DateTime) → IsKeyed db.subscriptions → IsKeyed (upsert s t db.subscriptions)
  upsert-IsKeyed t keyed = elim (Option-cases (first (has_id s.id) db.subscriptions)) [
    | inl absent ↦ rw (absent, upsert) (append-IsKeyed t absent keyed)
    | inr (row, found) ↦ rw (found, upsert) (update-IsKeyed keyed)
  ]
