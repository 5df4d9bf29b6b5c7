-- ===== src/Tests/Payments.antt =====
-- The theorem on who changes a subscription, at a billing member of an org.
use saasmint_core.Base.{true, none, some, [], ◌∷◌, ◌≡◌, refl}
use saasmint_core.Python.{ok, err, attr}
use saasmint_core.Values.{ts_to_dt}
use saasmint_core.Domain.{PlanContext}
use saasmint_core.Repositories.Customers
use saasmint_core.Repositories.Subscriptions
use saasmint_core.Billing.CancelState.{read_cancel_state}
use saasmint_core.Billing.Cancel.{cancel_now, cancel_subscription, mirror_cancel_state_from_stripe}
use saasmint_core.Payments.Prices.{invalid}
use saasmint_core.Payments.Access.{
  least_member, validate_subscription_context, require_billing_authority, resolve_mutation_context,
  resolve_billing_customer, get_customer_and_paid_subscription,
}
use saasmint_core.Payments.Changes.{
  Update, Prepared, prepare_update, apply_cancel_toggle, apply_update, update_subscription,
}
use saasmint_core.Payments.Late.{late_refusal}
use saasmint_core.Tests.Data.{env, user, customer, subscription, world}

-- The request to cancel the team's subscription.
abbrev cancel : Update
cancel = record {
  plan_price_id = none;
  seat_limit = none;
  cancel_at_period_end = some true;
  prorate = true;
  context = some "team";
  currency = none;
}

-- The same request, in a currency that nobody supports.
abbrev cancel_in_xyz : Update
cancel_in_xyz = record cancel { currency = some "xyz" }

-- The customer of the org and its subscription.
abbrev prepared : Prepared
prepared = record {
  scope = record { context = PlanContext.team; org_id = some 5 };
  plan = none;
  paid = record { customer = customer; sub = subscription; stripe_sub_id = "sub_1" };
}

preparation : prepare_update user cancel_in_xyz world ≡ (ok prepared, world)
unfolding prepare_update resolve_mutation_context validate_subscription_context
    require_billing_authority least_member get_customer_and_paid_subscription
    resolve_billing_customer Customers.get_by_org_id Subscriptions.get_active_for_customer
preparation = refl

cancelled :
    (apply_update env ("usd" ∷ []) (some true) none none true prepared.scope prepared.paid world).0
    ≡ ok tt
unfolding apply_cancel_toggle cancel_subscription cancel_now mirror_cancel_state_from_stripe
    read_cancel_state ts_to_dt attr Subscriptions.get_active_for_customer Subscriptions.save
cancelled = refl

late_refusal_example : update_subscription env ("usd" ∷ []) user cancel_in_xyz world ≡ (
  err invalid,
  (apply_update env ("usd" ∷ []) (some true) none none true prepared.scope prepared.paid world).1,
)
late_refusal_example =
    late_refusal env ("usd" ∷ []) user cancel_in_xyz prepared "xyz" world refl refl refl preparation
      cancelled
