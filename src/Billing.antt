-- ===== src/Billing.antt =====
-- core/saasmint_core/services/billing.py: the Stripe customer, checkout and portal sessions, and
-- cancellation. A value of a Stripe answer that the code stores as it stands is read as the text
-- or the Boolean that Stripe documents.
pub mod CancelState
pub mod CustomerAnswer
pub mod CustomerOnce
pub mod Cancel
use saasmint_core.Base.{
  ℕ, String, Bool, true, false, ◌&&◌, ◌||◌, Option, none, some, List, [], ◌∷◌, is_some, str_eq,
  if◌then◌else◌,
}
use saasmint_core.Python.{
  DateTime, Exn, Result, ok, err, Json, Items, Fields, attr, truthy, is_text,
}
use saasmint_core.Values.{to_text, ts_to_dt, as_text}
use saasmint_core.Domain.{Uuid, Subscription, SubscriptionStatus, StripeCustomer, parse_status}
use saasmint_core.State.{
  Env, Action, StripeCall, pure, raise, lift, draw, now, request, raise_if, ◌>>=◌, ◌>>◌,
}
use saasmint_core.Repositories.Customers
use saasmint_core.Billing.CustomerAnswer.{read_customer}
use saasmint_core.Repositories.Subscriptions

abbrev pub field_if_set : String → Option Json → Fields → Fields
field_if_set k none fs = fs
field_if_set k (some v) fs = Fields.field k v fs

abbrev pub one : String → Json → Json
one k v = Json.obj (Fields.field k v Fields.end)

abbrev pub flag : String → Bool → Json
flag k b = one k (Json.bool b)

-- The params that the two kinds of checkout share, before the optional ones.
abbrev pub checkout_params :
    (mode customer price_id reference currency locale success_url cancel_url : String)
    (quantity : ℕ) (rest : Fields)
    → Json
checkout_params mode customer price_id reference currency locale success_url cancel_url quantity
      rest =
    Json.obj (
      Fields.field "customer" (Json.str customer) (
        Fields.field "client_reference_id" (Json.str reference) (
          Fields.field "mode" (Json.str mode) (
            Fields.field "line_items"
              (Json.arr (
                Items.cons
                  (Json.obj (
                    Fields.field "price" (Json.str price_id)
                      (Fields.field "quantity" (Json.int quantity) Fields.end)))
                  Items.nil))
              (Fields.field "locale" (Json.str locale) (
                Fields.field "success_url" (Json.str success_url) (
                  Fields.field "cancel_url" (Json.str cancel_url) (
                    Fields.field "allow_promotion_codes" (Json.bool true) (
                      Fields.field "adaptive_pricing" (flag "enabled" (str_eq currency "usd")) (
                        Fields.field "automatic_tax" (flag "enabled" true) (
                          Fields.field "customer_update" (one "address" (Json.str "auto"))
                            rest)))))))))))

abbrev pub new_customer :
    Uuid → (user_id org_id : Option Uuid) → String × Bool → DateTime → StripeCustomer
new_customer i user_id org_id read t = record {
  id = i;
  stripe_id = read.0;
  user_id = user_id;
  org_id = org_id;
  livemode = read.1;
  created_at = t;
}

module _ (env : Env) where
  -- `existing = …`
  abbrev pub existing_customer : (user_id org_id : Option Uuid) → Action (Option StripeCustomer)
  existing_customer (some u) org_id = Customers.get_by_user_id u
  existing_customer none (some o) = Customers.get_by_org_id o
  existing_customer none none = raise Exn.value_error

  abbrev pub owner_metadata : (user_id org_id : Option Uuid) → Json
  owner_metadata user_id org_id = Json.obj (
      field_if_set "user_id"
        (elim user_id [ none ↦ none | some u ↦ some (Json.str (env.uuid_text u)) ])
        (field_if_set "org_id"
          (elim org_id [ none ↦ none | some o ↦ some (Json.str (env.uuid_text o)) ]) Fields.end))

  abbrev pub or_create :
      (user_id org_id : Option Uuid) (email : String) (name : Option String) (locale : String)
      → Option StripeCustomer
      → Action StripeCustomer
  or_create user_id org_id email name locale (some existing) = pure existing
  or_create user_id org_id email name locale none = do
    answer ←
        request env (StripeCall.customer_create email name locale (owner_metadata user_id org_id))
    i ← draw
    read ← lift (read_customer answer)
    raise_if (is_some user_id && is_some org_id) Exn.value_error
    t ← now
    Customers.save (new_customer i user_id org_id read t)

  unfoldable pub get_or_create_customer :
      (user_id org_id : Option Uuid) (email : String) (name : Option String) (locale : String)
      → Action StripeCustomer
  get_or_create_customer user_id org_id email name locale = do
    existing ← existing_customer user_id org_id
    or_create user_id org_id email name locale existing

  unfoldable pub create_team_stripe_customer :
      (user_id : Uuid) (email : String) (name : Option String) (locale : String) → Action String
  create_team_stripe_customer user_id email name locale = do
    answer ← request env (
        StripeCall.customer_create email name locale (
          Json.obj (
            Fields.field "user_id" (Json.str (env.uuid_text user_id))
              (Fields.field "scope" (Json.str "team_checkout") Fields.end))))
    id ← lift (attr answer "id")
    lift (as_text id)

  unfoldable pub create_checkout_session :
      (customer price_id reference currency : String) (quantity : ℕ)
      (locale success_url cancel_url : String) (trial_period_days : Option ℕ)
      (metadata : Option Json)
      → Action String
  create_checkout_session customer price_id reference currency quantity locale success_url
        cancel_url trial_period_days metadata =
      do
        session ← request env (
            StripeCall.checkout_session_create (
              checkout_params "subscription" customer price_id reference currency locale success_url
                cancel_url quantity
                (field_if_set "metadata" metadata (
                  field_if_set "subscription_data"
                    (elim trial_period_days [
                      | none ↦ none
                      | some days ↦ some (one "trial_period_days" (Json.int days))
                    ])
                    Fields.end))))
        url ← lift (attr session "url")
        lift (as_text url)

  unfoldable pub create_product_checkout_session :
      (customer price_id reference currency locale success_url cancel_url : String)
      (metadata : Option Json)
      → Action String
  create_product_checkout_session customer price_id reference currency locale success_url cancel_url
        metadata =
      do
        session ← request env (
            StripeCall.checkout_session_create (
              checkout_params "payment" customer price_id reference currency locale success_url
                cancel_url 1 (field_if_set "metadata" metadata Fields.end)))
        url ← lift (attr session "url")
        lift (as_text url)

  unfoldable pub create_billing_portal_session :
      (customer locale return_url : String) (flow_data : Option Json) → Action String
  create_billing_portal_session customer locale return_url flow_data = do
    session ← request env (
        StripeCall.portal_session_create (
          Json.obj (
            Fields.field "customer" (Json.str customer) (
              Fields.field "locale" (Json.str locale) (
                Fields.field "return_url" (Json.str return_url)
                  (field_if_set "flow_data" flow_data Fields.end))))))
    url ← lift (attr session "url")
    lift (as_text url)
