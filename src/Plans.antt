-- ===== src/Plans.antt =====
-- Switching subscriptions between prices: core/saasmint_core/services/subscriptions.py.
pub mod Read
pub mod Deferral
use saasmint_core.Base.{
  ℕ, ltb, String, Bool, true, false, not, ◌&&◌, ◌==◌, Option, none, some, is_some, str_eq,
  if◌then◌else◌,
}
use saasmint_core.Python.{
  Exn, Result, ok, err, Json, Items, Fields, index, get, at, attr, or_else, truthy, as_int,
}
use saasmint_core.Values.{to_text, as_text, as_int_value}
use saasmint_core.Domain.{Subscription}
use saasmint_core.State.{Env, Action, StripeCall, pure, raise, lift, request, raise_if, ◌>>=◌, ◌>>◌}
use saasmint_core.Repositories.Subscriptions
use saasmint_core.Plans.Read.{Change, safe_get, first_item, read_change, read_period_field}

-- `quantity if quantity is not None else current_quantity`
abbrev pub the_quantity : Option ℕ → Option ℕ → ℕ
the_quantity (some n) current = n
the_quantity none (some n) = n
the_quantity none none = 1

abbrev pub phase_item : String → ℕ → Json
phase_item price quantity = Json.arr (
    Items.cons
      (Json.obj (
        Fields.field "price" (Json.str price)
          (Fields.field "quantity" (Json.int quantity) Fields.end)))
      Items.nil)

abbrev pub no_proration : Fields
no_proration = Fields.field "proration_behavior" (Json.str "none") Fields.end

-- The current price until the period's end, then the new one.
abbrev pub two_phases : (current new : String) (quantity start end_ : ℕ) → Json
two_phases current new quantity start end_ = Json.arr (
    Items.cons
      (Json.obj (
        Fields.field "items" (phase_item current quantity) (
          Fields.field "start_date" (Json.int start)
            (Fields.field "end_date" (Json.int end_) no_proration))))
      (Items.cons
        (Json.obj (
          Fields.field "items" (phase_item new quantity)
            (Fields.field "start_date" (Json.int end_) no_proration)))
        Items.nil))

abbrev pub proration_of : Bool → String
proration_of true = "create_prorations"
proration_of false = "none"

module _ (env : Env) where
  -- `str(value or "").lower()`
  abbrev pub currency_text : Json → String
  currency_text v = env.lower (to_text env (or_else v (Json.str "")))

  -- Both are set and differ.
  abbrev pub currencies_clash : String → String → Bool
  currencies_clash a b = not (str_eq a "") && (not (str_eq b "") && not (str_eq a b))

  -- The schedule that pins the subscription, or a new one.
  unfoldable pub schedule_to_modify : Json → Action String
  schedule_to_modify sub = do
    existing ← lift (safe_get sub "schedule")
    if truthy existing then pure (to_text env existing) else (do
      id ← lift (index sub "id")
      schedule ← request env (StripeCall.schedule_create (to_text env id))
      schedule_id ← lift (index schedule "id")
      lift (as_text schedule_id))

  unfoldable pub schedule_downgrade_at_period_end : Json → String → ℕ → Action (Unit {0})
  schedule_downgrade_at_period_end sub new_price quantity = do
    item ← lift (first_item sub)
    period_end ← lift (read_period_field sub item "current_period_end")
    period_start ← lift (read_period_field sub item "current_period_start")
    price ← lift (index item "price")
    price_id ← lift (index price "id")
    currency ← lift (get price "currency")
    answer ← request env (StripeCall.price_retrieve new_price)
    new_currency ← lift (attr answer "currency")
    raise_if (currencies_clash (currency_text currency) (currency_text new_currency))
        Exn.value_error
    schedule_id ← schedule_to_modify sub
    request env (
        StripeCall.schedule_modify schedule_id
          (two_phases (to_text env price_id) new_price quantity period_start period_end))
    pure tt

  -- The id of the item to modify: read again after a schedule was released.
  unfoldable pub item_to_modify : Json → String → String → Action String
  item_to_modify existing stripe_subscription_id item_id =
      if truthy existing
      then (do
        request env (StripeCall.schedule_release (to_text env existing))
        sub ← request env (StripeCall.subscription_retrieve stripe_subscription_id)
        item ← lift (first_item sub)
        id ← lift (index item "id")
        pure (to_text env id))
      else pure item_id

  abbrev pub item_params : String → Option String → ℕ → Json
  item_params id price quantity = Json.obj (
      Fields.field "id" (Json.str id) (elim price [
        | none ↦ Fields.field "quantity" (Json.int quantity) Fields.end
        | some p ↦
            Fields.field "price" (Json.str p)
              (Fields.field "quantity" (Json.int quantity) Fields.end)
      ]))

  unfoldable pub apply_immediate_plan_change :
      Json → (stripe_subscription_id item_id new_price : String) → Bool → ℕ → Action (Unit {0})
  apply_immediate_plan_change sub stripe_subscription_id item_id new_price prorate quantity = do
    existing ← lift (safe_get sub "schedule")
    id ← item_to_modify existing stripe_subscription_id item_id
    request env (
        StripeCall.subscription_modify_item stripe_subscription_id
          (item_params id (some new_price) quantity) (proration_of prorate))
    pure tt

  abbrev pub change_or_schedule :
      (is_downgrade : Bool)
      → Json
      → (stripe_subscription_id item_id new_price : String) → Bool
      → ℕ
      → Action (Unit {0})
  change_or_schedule true sub stripe_subscription_id item_id new_price prorate quantity =
      schedule_downgrade_at_period_end sub new_price quantity
  change_or_schedule false sub stripe_subscription_id item_id new_price prorate quantity =
      apply_immediate_plan_change sub stripe_subscription_id item_id new_price prorate quantity

  -- What follows the first retrieve.
  unfoldable pub change_retrieved :
      Json
      → (stripe_subscription_id new_price : String) (amount : Option ℕ) → Bool
      → Option ℕ
      → Action (Unit {0})
  change_retrieved sub stripe_subscription_id new_price amount prorate quantity = do
    c ← lift (read_change env sub amount)
    change_or_schedule c.is_downgrade sub stripe_subscription_id c.item_id new_price prorate
        (the_quantity quantity c.current_quantity)

  unfoldable pub change_plan :
      (stripe_subscription_id new_price : String) (new_price_amount : Option ℕ) (prorate : Bool)
      (quantity : Option ℕ)
      → Action (Unit {0})
  change_plan stripe_subscription_id new_price amount prorate quantity = do
    sub ← request env (StripeCall.subscription_retrieve stripe_subscription_id)
    change_retrieved sub stripe_subscription_id new_price amount prorate quantity

  abbrev pub update_seats_of : Subscription → String → ℕ → Action (Unit {0})
  update_seats_of active stripe_id quantity = do
    sub ← request env (StripeCall.subscription_retrieve stripe_id)
    item ← lift (first_item sub)
    id ← lift (index item "id")
    raw_quantity ← lift (index item "quantity")
    current ← lift (as_int_value raw_quantity)
    request env (
        StripeCall.subscription_modify_item stripe_id (item_params (to_text env id) none quantity)
          (proration_of (ltb current quantity)))
    if active.seat_limit == quantity
        then pure tt
        else (do Subscriptions.save (record active { seat_limit = quantity }); pure tt)

  unfoldable pub update_seat_count : Subscription → ℕ → Action (Unit {0})
  update_seat_count active quantity = do
    raise_if (ltb quantity 1) Exn.value_error
    elim active.stripe_id [
      | none ↦ raise Exn.value_error
      | some id ↦ update_seats_of active id quantity
    ]
