-- ===== src/Payments/Prices.antt =====
-- Currencies, prices and quantities of apps/billing/views.py, with the currencies of
-- core/saasmint_core/services/currency.py. The currencies that Stripe charges in are a setting.
use saasmint_core.Base.{
  ℕ, ltb, ◌==◌, String, Bool, false, ◌&&◌, Option, none, some, List, [], ◌∷◌, str_eq, is_some,
  first, any, if◌then◌else◌,
}
use saasmint_core.Python.{Exn}
use saasmint_core.Domain.{
  Uuid, Plan, PlanContext, PlanPrice, Product, ProductPrice, Priced, LocalizedPrice, User,
}
use saasmint_core.State.{Env, Db, Action, pure, raise, gets, ◌>>=◌}

-- `ValidationError`, `NotFound` and `PermissionDenied`
abbrev pub invalid : Exn
invalid = Exn.api_exception 400 "invalid"

abbrev pub not_found_error : Exn
not_found_error = Exn.api_exception 404 "not_found"

abbrev pub permission_denied : Exn
permission_denied = Exn.api_exception 403 "permission_denied"

-- `SUPPORTED_CURRENCIES`
abbrev pub supported_currencies : List String
supported_currencies =
    "usd" ∷ "eur" ∷ "gbp" ∷ "jpy" ∷ "brl" ∷ "krw" ∷ "sek" ∷ "nok" ∷ "dkk" ∷ "pln" ∷ "try" ∷ "idr"
    ∷ "rub" ∷ "cny" ∷ "twd" ∷ "sar" ∷ "aed" ∷ "chf" ∷ "cad" ∷ "aud" ∷ []

abbrev pub is_in : List String → String → Bool
is_in xs s = any (str_eq s) xs

-- `s or None`
abbrev pub if_full : Option String → Option String
if_full none = none
if_full (some s) = if str_eq s "" then none else some s

-- The first that is given.
abbrev pub first_of : Option String → Option String → String → String
first_of (some s) other s' = s
first_of none (some s) s' = s
first_of none none s' = s'

abbrev pub unless_same : Option String → String → Option String
unless_same none billing = none
unless_same (some pref) billing = if str_eq pref billing then none else some pref

-- The billing currency, and the preferred one where it differs.
pub record Currencies : Type 0 where
  pub currency : String
  pub preferred_currency : Option String

module _ (env : Env) (billing_currencies : List String) where
  abbrev pub user_preference : User → Option String
  user_preference user =
      let candidate = env.lower user.preferred_currency in
      if str_eq user.preferred_currency ""
      then none
      else if is_in supported_currencies candidate
      then some candidate
      else none

  abbrev pub with_target : (target : String) → (user_pref : Option String) → Currencies
  with_target target user_pref =
      let billing = if is_in billing_currencies target then target else "usd" in
      record { currency = billing; preferred_currency = unless_same user_pref billing }

  abbrev pub resolve_requested : Option String → User → Action Currencies
  resolve_requested none user =
      pure (with_target (first_of none (user_preference user) "usd") (user_preference user))
  resolve_requested (some requested) user =
      if is_in supported_currencies (env.lower requested)
      then pure (with_target (env.lower requested) (user_preference user))
      else raise invalid

  -- `_resolve_billing_currency`, for a user who is signed in.
  unfoldable pub resolve_billing_currency : (query : Option String) → User → Action Currencies
  resolve_billing_currency query user = resolve_requested (if_full query) user

abbrev pub same_priced : Priced → Priced → Bool
same_priced (Priced.plan_price i) (Priced.plan_price j) = i == j
same_priced (Priced.product_price i) (Priced.product_price j) = i == j
same_priced _ _ = false

-- The row of a price in a currency, with a Stripe price.
abbrev pub localized_for_currency : Db → Priced → String → Option LocalizedPrice
localized_for_currency db p currency =
    first
      (λ row.
        same_priced row.price p && (str_eq row.currency currency && is_some row.stripe_price_id))
      db.localized_prices

-- The Stripe price of a row, unless it is empty.
abbrev pub stripe_price_of : Option LocalizedPrice → Option String
stripe_price_of none = none
stripe_price_of (some row) = if_full row.stripe_price_id

abbrev pub or_default : Option String → String → String
or_default none d = d
or_default (some s) d = s

-- `_resolve_stripe_price_id`: a missing row falls back to the price in dollars.
unfoldable pub resolve_stripe_price_id : Db → Priced → (usd_id currency : String) → String
resolve_stripe_price_id db p usd_id currency =
    if str_eq currency "usd"
    then usd_id
    else or_default (stripe_price_of (localized_for_currency db p currency)) usd_id

abbrev pub amount_of : Option LocalizedPrice → ℕ
amount_of none = 0
amount_of (some row) = row.amount_minor

abbrev pub localized_or_invalid : Option String → ℕ → Action (String × ℕ)
localized_or_invalid none amount = raise invalid
localized_or_invalid (some id) amount = pure (id, amount)

-- `_resolve_plan_change_price`: no fallback, since a subscription keeps its currency.
unfoldable pub resolve_plan_change_price : PlanPrice → (currency : String) → Action (String × ℕ)
resolve_plan_change_price p currency =
    if str_eq currency "usd" then pure (p.stripe_price_id, p.amount) else (do
      row ← gets (λ db. localized_for_currency db (Priced.plan_price p.id) currency)
      localized_or_invalid (stripe_price_of row) (amount_of row))

abbrev pub min_team_seats : ℕ
min_team_seats = 1

-- `_validate_quantity_for_context`
unfoldable pub validate_quantity : PlanContext → ℕ → Action ℕ
validate_quantity PlanContext.personal quantity = if quantity == 1 then pure 1 else raise invalid
validate_quantity PlanContext.team quantity =
    if ltb quantity min_team_seats then raise invalid else pure quantity

abbrev pub has_plan_id : Uuid → Plan → Bool
has_plan_id i p = p.id == i

-- A price with its plan.
pub record PricedPlan : Type 0 where
  pub price : PlanPrice
  pub plan : Plan

abbrev pub with_plan : PlanPrice → Option Plan → Action PricedPlan
with_plan price none = raise not_found_error
with_plan price (some plan) = pure (record { price = price; plan = plan })

abbrev pub active_plan_of : Option PlanPrice → Action PricedPlan
active_plan_of none = raise not_found_error
active_plan_of (some price) = do
  plan ← gets (λ db. first (λ p. has_plan_id price.plan_id p && p.is_active) db.plans)
  with_plan price plan

-- `_get_active_plan_price`
unfoldable pub get_active_plan_price : Uuid → Action PricedPlan
get_active_plan_price i = do
  price ← gets (λ db. first (λ (p : PlanPrice). p.id == i) db.plan_prices)
  active_plan_of price

abbrev pub is_active_price : Db → Uuid → ProductPrice → Bool
is_active_price db i p =
    p.id == i && any (λ (x : Product). x.id == p.product_id && x.is_active) db.products

abbrev pub product_price_or_404 : Option ProductPrice → Action ProductPrice
product_price_or_404 none = raise not_found_error
product_price_or_404 (some p) = pure p

-- `_get_active_product_price`
unfoldable pub get_active_product_price : Uuid → Action ProductPrice
get_active_product_price i = do
  price ← gets (λ db. first (is_active_price db i) db.product_prices)
  product_price_or_404 price
