-- ===== src/Webhooks/Sync.antt =====
-- The upsert of a subscription from Stripe's data, and its deletion:
-- `sync_subscription_from_data`, `_build_subscription_row` and `_on_subscription_deleted` of
-- core/saasmint_core/services/webhooks.py.
pub mod Upsert
pub mod Frame
pub mod Mirror
pub mod Deletion
pub mod Replay
use Prim.Native.String
use saasmint_core.Base.{ℕ, Option, none, some, is_some, if◌then◌else◌}
use saasmint_core.Python.{DateTime, Exn, Json, index}
use saasmint_core.Values.{to_text}
use saasmint_core.Domain.{Uuid, Subscription, SubscriptionStatus, StripeCustomer, PlanPrice}
use saasmint_core.State.{Env, Action, pure, raise, lift, draw, now, ◌>>=◌, ◌>>◌}
use saasmint_core.Repositories.Customers
use saasmint_core.Repositories.Subscriptions
use saasmint_core.Webhooks.Read.{Header, Kept, read_header, read_columns, make_row}

-- The columns kept of an existing row.
abbrev pub kept_of : Subscription → Kept
kept_of row = record {
  id = row.id;
  scheduled_plan_id = row.scheduled_plan_id;
  scheduled_change_at = row.scheduled_change_at;
  created_at = row.created_at;
}

-- Those of a new row.
abbrev pub new_kept : Uuid → DateTime → Kept
new_kept i t = record {
  id = i;
  scheduled_plan_id = none;
  scheduled_change_at = none;
  created_at = t;
}

-- `existing.… if existing else …`
unfoldable pub keep : Option Subscription → Action Kept
keep (some row) = pure (kept_of row)
keep none = do i ← draw; t ← now; pure (new_kept i t)

module _ (env : Env) where
  unfoldable pub build_subscription_row :
      Json → Header → StripeCustomer → PlanPrice → Option Subscription → Action Subscription
  unfolding keep
  build_subscription_row sub_data h customer price existing = do
    kept ← keep existing
    columns ← lift (read_columns env sub_data h)
    pure (make_row h customer price columns kept)

  -- What follows the three look-ups.
  unfoldable pub upsert_found :
      Json
      → Header
      → Option StripeCustomer
      → Option PlanPrice
      → Option Subscription
      → Action (Unit {0})
  upsert_found sub_data h none price existing =
      raise (Exn.webhook_data_error (String.◌++◌ "Unknown customer " h.customer))
  upsert_found sub_data h (some customer) none existing =
      raise (Exn.webhook_data_error (String.◌++◌ "Unknown price " h.price_id))
  upsert_found sub_data h (some customer) (some price) existing = do
    row ← build_subscription_row sub_data h customer price existing
    Subscriptions.save row
    pure tt

  unfoldable pub sync_subscription_from_data : Json → Action (Unit {0})
  unfolding Customers.get_by_stripe_id Subscriptions.get_price_by_stripe_id
      Subscriptions.get_by_stripe_id
  sync_subscription_from_data sub_data = do
    h ← lift (read_header env sub_data)
    customer ← Customers.get_by_stripe_id h.customer
    price ← Subscriptions.get_price_by_stripe_id h.price_id
    existing ← Subscriptions.get_by_stripe_id h.stripe_sub_id
    upsert_found sub_data h customer price existing

-- The callback for an org whose subscription ended.
abbrev pub OnCanceled : Type 0
OnCanceled = Option (Uuid → Action (Unit {0}))

abbrev pub call_if_set : OnCanceled → Uuid → Action (Unit {0})
call_if_set none org = pure tt
call_if_set (some callback) org = callback org

-- The callback runs where the customer is an org's.
abbrev pub deactivate : OnCanceled → Option StripeCustomer → Action (Unit {0})
deactivate callback none = pure tt
deactivate callback (some customer) = elim customer.org_id [
  | none ↦ pure tt
  | some org ↦ call_if_set callback org
]

-- The second half of `_on_subscription_deleted`, for a row with no user.
unfoldable pub deactivate_org : OnCanceled → Subscription → Action (Unit {0})
deactivate_org callback existing =
    if is_some existing.user_id then pure tt else elim existing.stripe_customer_id [
      | none ↦ pure tt
      | some id ↦ (do customer ← Customers.get_by_id id; deactivate callback customer)
    ]

-- The row with its end.
abbrev pub canceled_row : Subscription → ℕ → Subscription
canceled_row s t = record s { status = SubscriptionStatus.canceled; canceled_at = some t }

abbrev pub delete_known : OnCanceled → Option Subscription → Action (Unit {0})
delete_known callback none = pure tt
delete_known callback (some existing) = do
  t ← now
  Subscriptions.save (canceled_row existing t)
  deactivate_org callback existing

unfoldable pub on_subscription_deleted : Env → OnCanceled → Json → Action (Unit {0})
on_subscription_deleted env callback sub_data = do
  id ← lift (index sub_data "id")
  existing ← Subscriptions.get_by_stripe_id (to_text env id)
  delete_known callback existing
