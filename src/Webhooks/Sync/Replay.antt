-- ===== src/Webhooks/Sync/Replay.antt =====
-- What the upsert stores, and that a replay changes nothing.
use saasmint_core.Base.{
  ℕ, suc, List, Option, none, some, ◌≡◌, refl, ap, ◌∙◌, inl, inr, arith, first, Option-cases,
  first_same, first-update_one, first-append, update_same, str_eq_refl, ==_refl,
}
use saasmint_core.Python.{Json, ok}
use saasmint_core.Domain.{Subscription, StripeCustomer, PlanPrice}
use saasmint_core.State.{Env, World}
use saasmint_core.Repositories.Subscriptions.{has_id, has_stripe_id, overwrite}
use saasmint_core.Repositories.Subscriptions.Keys.{IsKeyed}
use saasmint_core.Repositories.Subscriptions.Save.{with_subscriptions}
use saasmint_core.Webhooks.Read.{Header, Columns, Kept, make_row}
use saasmint_core.Webhooks.Sync.{kept_of, new_kept, sync_subscription_from_data}
use saasmint_core.Webhooks.Sync.Mirror.{
  IsRead, IsOwned, IsParsed, read_header-IsParsed, columns-IsRead,
}
use saasmint_core.Webhooks.Sync.Upsert.{IsKnown, sync_known, sync_new}
use saasmint_core.Webhooks.Sync.Frame.{sync-IsKeyed}

-- The columns that do not come from the data.
abbrev pub kept_for : Option Subscription → World → Kept
kept_for none w = new_kept w.next_draw w.clock
kept_for (some existing) w = kept_of existing

-- Over a row that the upsert has stored, an upsert of the same data changes nothing.
settled :
    (env : Env) (d : Json) (w : World) {h : Header} {customer : StripeCustomer} {price : PlanPrice}
    {columns : Columns} (kept : Kept)
    → IsKnown env d w h customer price columns
    → IsKeyed w.db.subscriptions
    → first (has_stripe_id h.stripe_sub_id) w.db.subscriptions
      ≡ some (make_row h customer price columns kept)
    → sync_subscription_from_data env d w ≡ (ok tt, w)
settled env d w {h} {customer} {price} {columns} kept known keyed found =
    let row : Subscription = make_row h customer price columns kept in
    sync_known env d w known row found (keyed.stripe_ids h.stripe_sub_id)
    ∙ ap (λ rows. (ok tt, with_subscriptions w rows))
        (update_same (has_id kept.id) (overwrite row) w.db.subscriptions
          (first_same (has_stripe_id h.stripe_sub_id) (has_id kept.id) w.db.subscriptions found
            (==_refl kept.id) (keyed.ids kept.id))
          refl (keyed.ids kept.id))

-- The columns that do not come from the data, in the row of an upsert.
kept-IsOwned :
    (h : Header) (customer : StripeCustomer) (price : PlanPrice) (columns : Columns)
    (found : Option Subscription) (w : World)
    → IsOwned customer price found w (make_row h customer price columns (kept_for found w))
kept-IsOwned h customer price columns none w = record {
  stripe_customer_id = refl;
  user_id = refl;
  plan_id = refl;
  id = refl;
  scheduled_plan_id = refl;
  scheduled_change_at = refl;
  created_at = refl;
}
kept-IsOwned h customer price columns (some s) w = record {
  stripe_customer_id = refl;
  user_id = refl;
  plan_id = refl;
  id = refl;
  scheduled_plan_id = refl;
  scheduled_change_at = refl;
  created_at = refl;
}

module _ (env : Env) (d : Json) (w : World) {h : Header} {customer : StripeCustomer}
    {price : PlanPrice} {columns : Columns} (known : IsKnown env d w h customer price columns)
    (keyed : IsKeyed w.db.subscriptions)
    (fresh : first (has_id w.next_draw) w.db.subscriptions ≡ none) where
  -- The row that the look-up by the Stripe id finds afterwards.
  stores_row :
      let (r, w') = sync_subscription_from_data env d w in
      let found = first (has_stripe_id h.stripe_sub_id) w.db.subscriptions in
      (r ≡ ok tt)
      × (first (has_stripe_id h.stripe_sub_id) w'.db.subscriptions
          ≡ some (make_row h customer price columns (kept_for found w)))
  stores_row = elim (Option-cases (first (has_stripe_id h.stripe_sub_id) w.db.subscriptions)) [
    | inl absent ↦
        rw (sync_new env d w known absent fresh, absent)
          (
            refl,
            first-append _ w.db.subscriptions _ absent
                ∙ ground (arith, str_eq_refl h.stripe_sub_id),
          )
    | inr (s, found) ↦
        rw (sync_known env d w known s found (keyed.stripe_ids h.stripe_sub_id), found)
          (
            refl,
            first-update_one (has_stripe_id h.stripe_sub_id) (has_id s.id)
                (overwrite (make_row h customer price columns (kept_of s))) w.db.subscriptions found
                (==_refl s.id) (str_eq_refl h.stripe_sub_id) (keyed.ids s.id),
          )
  ]

  -- An upsert of readable data, for a known customer and a known price, over a table with unique
  -- keys and with an unused next id, returns; the look-up by the Stripe id that the data names then
  -- finds a row with every column as the data, the customer and the price have it, and with the id,
  -- the pending plan change and the creation time of the row that the look-up found before, if it
  -- found one.
  pub sync_stores :
      let (r, w') = sync_subscription_from_data env d w in
      let found = first (has_stripe_id h.stripe_sub_id) w.db.subscriptions in
      (r ≡ ok tt)
      × IsParsed env d h
      × ((row : Subscription) × (first (has_stripe_id h.stripe_sub_id) w'.db.subscriptions
            ≡ some row)
          × IsRead env d h.first_item row
          × IsOwned customer price found w row)
  sync_stores =
      let found = first (has_stripe_id h.stripe_sub_id) w.db.subscriptions in
      let kept = kept_for found w in
      (
        stores_row.0,
        read_header-IsParsed env d h known.header,
        (
          make_row h customer price columns kept,
          stores_row.1,
          columns-IsRead env d h customer price columns kept known.header known.columns_read,
          kept-IsOwned h customer price columns found w,
        ),
      )

  sync-IsKnown : IsKnown env d (sync_subscription_from_data env d w).1 h customer price columns
  sync-IsKnown = elim (Option-cases (first (has_stripe_id h.stripe_sub_id) w.db.subscriptions)) [
    | inl absent ↦ rw (sync_new env d w known absent fresh) (moved (suc w.next_draw) _)
    | inr (s, found) ↦
        rw (sync_known env d w known s found (keyed.stripe_ids h.stripe_sub_id))
          (moved w.next_draw _)
  ]
    where
      moved :
          (n : ℕ) (rows : List Subscription)
          → IsKnown env d
              (record (with_subscriptions w rows) { next_draw = n })
              h
              customer
              price
              columns
      moved n rows = record {
        header = known.header;
        customer_found = known.customer_found;
        price_found = known.price_found;
        columns_read = known.columns_read;
      }

  -- Under the same conditions a replay of the event returns and leaves the whole state as the
  -- first delivery left it.
  pub sync_replay :
      let w' = (sync_subscription_from_data env d w).1 in
      sync_subscription_from_data env d w' ≡ (ok tt, w')
  sync_replay =
      settled env d (sync_subscription_from_data env d w).1
        (kept_for (first (has_stripe_id h.stripe_sub_id) w.db.subscriptions) w) sync-IsKnown
        (sync-IsKeyed env d w keyed) stores_row.1
