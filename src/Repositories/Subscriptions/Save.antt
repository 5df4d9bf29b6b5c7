-- ===== src/Repositories/Subscriptions/Save.antt =====
-- What `save` does on each of its branches.
use saasmint_core.Base.{
  true, false, none, some, List, [], ◌∷◌, ◌++◌, ◌≡◌, arith, first, update, inl, inr, Bool-cases,
}
use saasmint_core.Python.{Exn, ok, err}
use saasmint_core.Domain.{Subscription}
use saasmint_core.State.{World}
use saasmint_core.Repositories.Subscriptions.Keys.{IsKeyed, upsert-IsKeyed}
use saasmint_core.Repositories.Subscriptions.{has_id, violates, overwrite, upsert, save}

-- The state with another table of subscriptions.
abbrev pub with_subscriptions : World → List Subscription → World
with_subscriptions w rows = record w { db = record (w.db) { subscriptions = rows } }

module _ (s : Subscription) (w : World) where
  pub save_refused : violates s w.db ≡ true → save s w ≡ (err Exn.integrity_error, w)
  unfolding save
  save_refused e = ground arith

  pub save_valid :
      violates s w.db ≡ false
      → save s w ≡ (ok s, with_subscriptions w (upsert s w.clock w.db.subscriptions))
  unfolding save
  save_valid e = rw e

  pub save_known :
      violates s w.db ≡ false
      → {row : Subscription} → first (has_id s.id) w.db.subscriptions ≡ some row
      → save s w
        ≡ (ok s, with_subscriptions w (update (has_id s.id) (overwrite s) w.db.subscriptions))
  unfolding save
  save_known e found = rw (e, found)

  pub save_new :
      violates s w.db ≡ false
      → first (has_id s.id) w.db.subscriptions ≡ none
      → save s w ≡ (
        ok s,
        with_subscriptions w (w.db.subscriptions ++ record s { created_at = w.clock } ∷ []),
      )
  unfolding save
  save_new e absent = rw (e, absent)

  -- A refused save changes nothing.
  pub save_err : (e : Exn) → (save s w).0 ≡ err e → (save s w).1 ≡ w
  unfolding save
  save_err e h = ground arith

  pub save-IsKeyed : IsKeyed w.db.subscriptions → IsKeyed (save s w).1.db.subscriptions
  save-IsKeyed keyed = elim (Bool-cases (violates s w.db)) [
    | inl bad ↦ rw (save_refused bad) keyed
    | inr good ↦ rw (save_valid good) (upsert-IsKeyed s w.db good w.clock keyed)
  ]
