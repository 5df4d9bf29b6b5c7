-- ===== src/Payments/Checkout.antt =====
-- The sessions of Stripe that a user asks for: the checkout of a plan or a product, and the
-- portal, and the balances of credits: apps/billing/views.py.
use saasmint_core.Base.{
  ℕ, ltb, ◌==◌, String, Bool, true, false, ◌&&◌, Option, none, some, List, [], ◌∷◌, first, any,
  if◌then◌else◌,
}
use saasmint_core.Python.{Exn, Json, Fields}
use saasmint_core.Domain.{
  Uuid, StripeCustomer, OrgMember, PlanContext, ProductPrice, Priced, User, Owner, CreditBalance,
}
use saasmint_core.State.{Env, Db, Action, pure, raise, gets, raise_if, ◌>>=◌, ◌>>◌}
use saasmint_core.Orgs.Creation.{is_owner}
use saasmint_core.Billing.{
  field_if_set, get_or_create_customer, create_team_stripe_customer, create_checkout_session,
  create_product_checkout_session, create_billing_portal_session,
}
use saasmint_core.Credits.{same_owner}
use saasmint_core.Payments.Prices.{
  invalid, not_found_error, permission_denied, resolve_billing_currency, resolve_stripe_price_id,
  validate_quantity, get_active_plan_price, get_active_product_price,
}
use saasmint_core.Payments.Access.{
  membership_of, validate_subscription_context, default_subscription_context,
  require_billing_authority, resolve_billing_customer,
}

-- The validated data of `CheckoutRequestSerializer`, with the query of the request.
pub record CheckoutRequest : Type 0 where
  pub plan_price_id : Uuid
  pub seat_limit : ℕ
  pub success_url : String
  pub cancel_url : String
  pub trial_period_days : Option ℕ
  pub org_name : Option String
  pub keep_personal_subscription : Bool
  pub currency : Option String

pub record ProductCheckoutRequest : Type 0 where
  pub product_price_id : Uuid
  pub success_url : String
  pub cancel_url : String
  pub context : Option String
  pub currency : Option String

abbrev pub org_already_owned : Exn
org_already_owned = Exn.api_exception 409 "org_already_owned"

abbrev pub owns : Uuid → OrgMember → Bool
owns u m = m.user_id == u && is_owner m

abbrev pub name_or_invalid : Option String → Action String
name_or_invalid none = raise invalid
name_or_invalid (some name) = pure name

-- `_validate_team_checkout`, which leaves the name of the org.
unfoldable pub validate_team_checkout : Uuid → (org_name : Option String) → Action String
validate_team_checkout u org_name = do
  already_owns_org ← gets (λ db. any (owns u) db.members)
  raise_if already_owns_org org_already_owned
  name_or_invalid org_name

abbrev pub truth : Bool → String
truth true = "true"
truth false = "false"

-- `_build_checkout_metadata` of a team checkout.
abbrev pub checkout_metadata : (org_name : String) → (keep_personal : Bool) → Json
checkout_metadata org_name keep_personal = Json.obj (
    Fields.field "org_name" (Json.str org_name)
      (Fields.field "keep_personal_subscription" (Json.str (truth keep_personal)) Fields.end))

-- `_resolve_product_purchase_context`
abbrev pub org_if_owner : Option OrgMember → Action (Option Uuid)
org_if_owner none = raise invalid
org_if_owner (some m) = if is_owner m then pure (some m.org_id) else raise permission_denied

abbrev pub purchase_in : Option PlanContext → Option OrgMember → Action (Option Uuid)
purchase_in (some PlanContext.personal) m = pure none
purchase_in (some PlanContext.team) m = org_if_owner m
purchase_in none none = pure none
purchase_in none (some m) = org_if_owner (some m)

unfoldable pub resolve_product_purchase_context : Uuid → Option PlanContext → Action (Option Uuid)
resolve_product_purchase_context u context = do
  membership ← gets (λ db. membership_of db u)
  purchase_in context membership

-- The balances that a request shows, with their scope.
abbrev pub shown_balance : Db → Owner → ℕ
shown_balance db o = elim (first (λ (b : CreditBalance). same_owner b.owner o) db.credit_balances) [
  | none ↦ 0
  | some b ↦ b.balance
]

abbrev pub user_entry : Db → Uuid → ℕ × String
user_entry db u = (shown_balance db (Owner.user u), "user")

abbrev pub org_entry : Db → Uuid → ℕ × String
org_entry db o = (shown_balance db (Owner.org o), "org")

abbrev pub entries : Option PlanContext → Option OrgMember → Uuid → Db → Action (List (ℕ × String))
entries (some PlanContext.personal) m u db = pure (user_entry db u ∷ [])
entries (some PlanContext.team) none u db = raise not_found_error
entries (some PlanContext.team) (some m) u db = pure (org_entry db m.org_id ∷ [])
entries none none u db = pure (user_entry db u ∷ [])
entries none (some m) u db = pure (
    if ltb 0 (shown_balance db (Owner.user u))
    then org_entry db m.org_id ∷ user_entry db u ∷ []
    else org_entry db m.org_id ∷ [])

-- `CreditBalanceView.get`
unfoldable pub credit_balances_view : (context : Option String) → Uuid → Action (List (ℕ × String))
credit_balances_view query u = do
  context ← validate_subscription_context query
  membership ← gets (λ db. membership_of db u)
  λ w. entries context membership u w.db w

module _ (env : Env) (billing_currencies : List String) where
  abbrev pub own_customer : User → Action StripeCustomer
  own_customer user =
      get_or_create_customer env (some user.id) none user.email (some user.full_name)
        user.preferred_locale

  -- A checkout of a team's plan: a customer of its own, no trial, and the org in the metadata.
  abbrev pub checkout_for :
      PlanContext
      → User
      → CheckoutRequest
      → (price currency : String) → (quantity : ℕ) → Action String
  checkout_for PlanContext.team user r price currency quantity = do
    name ← validate_team_checkout user.id r.org_name
    customer ←
        create_team_stripe_customer env user.id user.email (some user.full_name)
          user.preferred_locale
    create_checkout_session env customer price (env.uuid_text user.id) currency quantity
        user.preferred_locale r.success_url r.cancel_url none
        (some (checkout_metadata name r.keep_personal_subscription))
  checkout_for PlanContext.personal user r price currency quantity = do
    customer ← own_customer user
    create_checkout_session env customer.stripe_id price (env.uuid_text user.id) currency quantity
        user.preferred_locale r.success_url r.cancel_url r.trial_period_days none

  -- `CheckoutSessionView.post`
  unfoldable pub checkout_session : User → CheckoutRequest → Action String
  checkout_session user r = do
    currencies ← resolve_billing_currency env billing_currencies r.currency user
    p ← get_active_plan_price r.plan_price_id
    quantity ← validate_quantity p.plan.context r.seat_limit
    price ← gets (λ db.
        resolve_stripe_price_id db (Priced.plan_price p.price.id) p.price.stripe_price_id
          currencies.currency)
    checkout_for p.plan.context user r price currencies.currency quantity

  abbrev pub customer_or_404 : Option StripeCustomer → Action String
  customer_or_404 none = raise not_found_error
  customer_or_404 (some c) = pure c.stripe_id

  abbrev pub portal_customer : PlanContext → User → Action String
  portal_customer PlanContext.team user = do
    org ← require_billing_authority user.id PlanContext.team
    customer ← resolve_billing_customer user.id PlanContext.team org
    customer_or_404 customer
  portal_customer PlanContext.personal user = do
    customer ← own_customer user
    pure customer.stripe_id

  abbrev pub or_default_context : Option PlanContext → Uuid → Action PlanContext
  or_default_context none u = default_subscription_context u
  or_default_context (some context) u = pure context

  -- `PortalSessionView.post`
  unfoldable pub portal_session :
      User → (return_url : String) → (query : Option String) → Action String
  portal_session user return_url query = do
    context ← validate_subscription_context query
    effective ← or_default_context context user.id
    customer ← portal_customer effective user
    create_billing_portal_session env customer user.preferred_locale return_url none

  -- The customer and the metadata of a purchase, for the org or for the user.
  abbrev pub buyer : Option Uuid → User → Action StripeCustomer
  buyer none user = own_customer user
  buyer (some org) user =
      get_or_create_customer env none (some org) user.email (some user.full_name)
        user.preferred_locale

  abbrev pub purchase_metadata : ProductPrice → Option Uuid → Json
  purchase_metadata p org = Json.obj (
      Fields.field "product_id" (Json.str (env.uuid_text p.product_id)) (
        field_if_set "org_id"
          (elim org [ none ↦ none | some o ↦ some (Json.str (env.uuid_text o)) ]) Fields.end))

  -- `ProductCheckoutSessionView.post`
  unfoldable pub product_checkout_session : User → ProductCheckoutRequest → Action String
  product_checkout_session user r = do
    context ← validate_subscription_context r.context
    org ← resolve_product_purchase_context user.id context
    currencies ← resolve_billing_currency env billing_currencies r.currency user
    p ← get_active_product_price r.product_price_id
    price ← gets (λ db.
        resolve_stripe_price_id db (Priced.product_price p.id) p.stripe_price_id
          currencies.currency)
    customer ← buyer org user
    create_product_checkout_session env customer.stripe_id price (env.uuid_text user.id)
        currencies.currency user.preferred_locale r.success_url r.cancel_url
        (some (purchase_metadata p org))
