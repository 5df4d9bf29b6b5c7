-- ===== src/Tokens/Cleanup.antt =====
-- The tasks of apps/users/tasks.py that delete expired tokens, in batches.
pub mod Batches
pub mod OneDelete
use saasmint_core.Base.{
  ℕ, zero, suc, ◌+◌, ◌==◌, ltb, Bool, true, false, ◌&&◌, Option, none, some, List, [], ◌∷◌, map,
  any, select, count, delete, length, if◌then◌else◌,
}
use saasmint_core.Python.{DateTime}
use saasmint_core.Domain.{Uuid, RefreshToken, OneTimeToken, TokenKind, same_kind}
use saasmint_core.State.{Db}

-- `[:n]`
abbrev pub take : ℕ → List Uuid → List Uuid
take zero xs = []
take (suc n) [] = []
take (suc n) (x ∷ xs) = x ∷ take n xs

abbrev pub is_empty : List Uuid → Bool
is_empty [] = true
is_empty (x ∷ xs) = false

-- A table: the rows of a list that are of it, with their id and the time at which they expire.
module _ {A : Type 0} (of : A → Bool) (id : A → Uuid) (expires_at : A → DateTime) where
  -- `filter(expires_at__lt=now)`
  abbrev pub is_expired : DateTime → A → Bool
  is_expired now x = of x && ltb (expires_at x) now

  -- The ids of a batch; the rows stand in the order in which the database gives them.
  abbrev pub batch_ids : (cap : ℕ) → DateTime → List A → List Uuid
  batch_ids cap now rows = take cap (map id (select (is_expired now) rows))

  -- `filter(id__in=ids)`
  abbrev pub has_id_in : List Uuid → A → Bool
  has_id_in ids x = of x && any (λ i. i == id x) ids

  -- The loop of `_delete_expired_rows`, with fuel; `none` is that the fuel is used up. It gives the
  -- number of deleted rows and the rows that are left.
  unfoldable pub prune :
      (fuel cap : ℕ) → DateTime → (total_deleted : ℕ) → List A → Option (ℕ × List A)
  prune zero cap now total_deleted rows = none
  prune (suc fuel) cap now total_deleted rows =
      let ids = batch_ids cap now rows in
      let deleted = count (has_id_in ids) rows in
      let left = delete (has_id_in ids) rows in
      let rest = prune fuel cap now (total_deleted + deleted) left in
      if is_empty ids
      then some (total_deleted, rows)
      else if ltb deleted cap
      then some (total_deleted + deleted, left)
      else rest

  -- `_delete_expired_rows`: each batch but the last deletes a row, so that one more than the number
  -- of rows is enough fuel.
  unfoldable pub delete_expired_rows : (cap : ℕ) → DateTime → List A → Option (ℕ × List A)
  delete_expired_rows cap now rows = prune (suc (length rows)) cap now 0 rows

-- `_EXPIRED_ROW_DELETE_BATCH`
abbrev pub expired_row_delete_batch : ℕ
expired_row_delete_batch = 10000

-- `cleanup_expired_refresh_tokens`
unfoldable pub cleanup_expired_refresh_tokens :
    DateTime → List RefreshToken → Option (ℕ × List RefreshToken)
cleanup_expired_refresh_tokens now rows =
    delete_expired_rows (λ _. true) (λ (t : RefreshToken). t.id)
      (λ (t : RefreshToken). t.expires_at) expired_row_delete_batch now rows

-- `cleanup_expired_social_link_requests`, `cleanup_expired_email_verification_tokens` and
-- `cleanup_expired_password_reset_tokens`
unfoldable pub cleanup_expired_one_time_tokens :
    TokenKind → DateTime → List OneTimeToken → Option (ℕ × List OneTimeToken)
cleanup_expired_one_time_tokens kind now rows =
    delete_expired_rows (λ (t : OneTimeToken). same_kind t.kind kind) (λ (t : OneTimeToken). t.id)
      (λ (t : OneTimeToken). t.expires_at) expired_row_delete_batch now rows
