-- ===== src/Webhooks/Sync/Upsert.antt =====
-- What `sync_subscription_from_data` does on each of its branches.
use saasmint_core.Base.{
  suc, ◌≤◌, false, none, some, [], ◌∷◌, ◌++◌, ◌≡◌, ◌∙◌, arith, str_eq, first, count, update,
  any-none, any_other, first_of_found, ==_refl,
}
use saasmint_core.Python.{Json, ok}
use saasmint_core.Domain.{Subscription, StripeCustomer, PlanPrice}
use saasmint_core.State.{Env, World}
use saasmint_core.Repositories.Customers
use saasmint_core.Repositories.Subscriptions
use saasmint_core.Repositories.Subscriptions.{has_id, has_stripe_id, overwrite}
use saasmint_core.Repositories.Subscriptions.Save.{with_subscriptions, save_known, save_new}
use saasmint_core.Webhooks.Read.{Header, Columns, read_header, read_columns, make_row}
use saasmint_core.Webhooks.Sync.{
  kept_of, new_kept, build_subscription_row, upsert_found, sync_subscription_from_data,
}

-- The data can be read, and the customer and the price are known.
pub record IsKnown (env : Env) (d : Json) (w : World) (h : Header) (customer : StripeCustomer)
    (price : PlanPrice) (columns : Columns) : Type 0 where
  pub header : read_header env d ≡ ok h
  pub customer_found : first (Customers.has_stripe_id h.customer) w.db.customers ≡ some customer
  pub price_found :
      first (λ row. str_eq row.stripe_price_id h.price_id) w.db.plan_prices ≡ some price
  pub columns_read : read_columns env d h ≡ ok columns

-- The look-ups of the sync, which change nothing.
pub look_up :
    (env : Env) (d : Json) (w : World) {h : Header}
    → read_header env d ≡ ok h
    → sync_subscription_from_data env d w
      ≡ upsert_found env d h
          (first (Customers.has_stripe_id h.customer) w.db.customers)
          (first (λ row. str_eq row.stripe_price_id h.price_id) w.db.plan_prices)
          (first (has_stripe_id h.stripe_sub_id) w.db.subscriptions)
          w
unfolding sync_subscription_from_data
look_up env d w e = rw e

module _ (env : Env) (d : Json) (w : World) (h : Header) (customer : StripeCustomer)
    (price : PlanPrice) {columns : Columns} (columns_read : read_columns env d h ≡ ok columns) where
  store_known :
      (existing : Subscription)
      → let row = make_row h customer price columns (kept_of existing) in
        Subscriptions.violates row w.db ≡ false
        → (found : Subscription) → first (has_id existing.id) w.db.subscriptions ≡ some found
        → upsert_found env d h (some customer) (some price) (some existing) w ≡ (
          ok tt,
          with_subscriptions w (update (has_id existing.id) (overwrite row) w.db.subscriptions),
        )
  unfolding upsert_found build_subscription_row
  store_known existing valid found at =
      let row : Subscription = make_row h customer price columns (kept_of existing) in
      ground (arith, columns_read, save_known row w valid at)

  store_new :
      let row = make_row h customer price columns (new_kept w.next_draw w.clock) in
      Subscriptions.violates row w.db ≡ false
      → first (has_id w.next_draw) w.db.subscriptions ≡ none
      → upsert_found env d h (some customer) (some price) none w ≡ (
        ok tt,
        record (with_subscriptions w (w.db.subscriptions ++ row ∷ [])) {
          next_draw = suc w.next_draw;
        },
      )
  unfolding upsert_found build_subscription_row
  store_new valid fresh =
      let row : Subscription = make_row h customer price columns (new_kept w.next_draw w.clock) in
      ground
        (arith, columns_read, save_new row (record w { next_draw = suc w.next_draw }) valid fresh)

module _ (env : Env) (d : Json) (w : World) {h : Header} {customer : StripeCustomer}
    {price : PlanPrice} {columns : Columns} (known : IsKnown env d w h customer price columns) where
  pub sync_known :
      (existing : Subscription)
      → first (has_stripe_id h.stripe_sub_id) w.db.subscriptions ≡ some existing
      → count (has_stripe_id h.stripe_sub_id) w.db.subscriptions ≤ 1
      → sync_subscription_from_data env d w ≡ (
        ok tt,
        with_subscriptions w (
            update
              (has_id existing.id)
              (overwrite (make_row h customer price columns (kept_of existing)))
              w.db.subscriptions),
      )
  sync_known existing found one =
      let valid : Subscriptions.violates (make_row h customer price columns (kept_of existing)) w.db
          ≡ false =
        ground (
          arith,
          any_other (has_id existing.id) (has_stripe_id h.stripe_sub_id) w.db.subscriptions
              {x = existing},
        ) in
      let at =
        first_of_found (has_stripe_id h.stripe_sub_id) (has_id existing.id) w.db.subscriptions found
          (==_refl existing.id) in
      look_up env d w known.header
      ∙ rw (known.customer_found, known.price_found, found)
          (store_known env d w h customer price known.columns_read existing valid at.0 at.1)

  pub sync_new :
      first (has_stripe_id h.stripe_sub_id) w.db.subscriptions ≡ none
      → first (has_id w.next_draw) w.db.subscriptions ≡ none
      → sync_subscription_from_data env d w ≡ (
        ok tt,
        record (with_subscriptions w (
            w.db.subscriptions
            ++ make_row h customer price columns (new_kept w.next_draw w.clock) ∷ [])) {
              next_draw = suc w.next_draw;
            },
      )
  sync_new absent fresh =
      let valid : Subscriptions.violates
            (make_row h customer price columns (new_kept w.next_draw w.clock)) w.db
          ≡ false =
        ground (
          arith,
          any-none (has_id w.next_draw) (has_stripe_id h.stripe_sub_id) w.db.subscriptions,
        ) in
      look_up env d w known.header
      ∙ rw (known.customer_found, known.price_found, absent)
          (store_new env d w h customer price known.columns_read valid fresh)
