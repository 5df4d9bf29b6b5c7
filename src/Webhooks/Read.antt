-- ===== src/Webhooks/Read.antt =====
-- How core/saasmint_core/services/webhooks.py reads the data of an event: the parts of its
-- functions that neither read nor write the database.
use Prim.Native.String
use saasmint_core.Base.{ℕ, String, not, ◌||◌, Option, none, some, ltb, if◌then◌else◌}
use saasmint_core.Python
use saasmint_core.Python.{
  DateTime, Exn, Result, ok, err, Json, index, get, get_or, at, or_else, or_raise, as_int, is_null,
  truthy, from_timestamp, raise_if, ◌>>=◌, ◌>>◌,
}
use saasmint_core.Values.{to_text, to_int, ts_to_dt}
use saasmint_core.Domain.{
  Uuid, Subscription, SubscriptionStatus, StripeCustomer, PlanPrice, parse_status,
}
use saasmint_core.State.{Env}

-- What `sync_subscription_from_data` reads before it looks into the database.
pub record Header : Type 0 where
  pub customer : String
  pub first_item : Json
  pub price_id : String
  pub stripe_sub_id : String
  pub period_start : ℕ
  pub period_end : ℕ

-- `isinstance(v, int)`, or the error of the window.
abbrev int_or_raise : Json → String → Result ℕ
int_or_raise v id =
    or_raise (as_int v)
      (Exn.webhook_data_error (String.◌++◌ "non-integer current_period_start/end: " id))

unfoldable pub extract_period_window : Json → Json → String → Result (ℕ × ℕ)
extract_period_window sub_data first_item id = do
  outer_start ← get sub_data "current_period_start"
  period_start ← get_or first_item "current_period_start" outer_start
  outer_end ← get sub_data "current_period_end"
  period_end ← get_or first_item "current_period_end" outer_end
  raise_if (is_null period_start || is_null period_end)
      (Exn.webhook_data_error (String.◌++◌ "missing current_period_start/end: " id))
  start ← int_or_raise period_start id
  stop ← int_or_raise period_end id
  ok (start, stop)

-- `first_item["price"].get("currency") or "usd"`
abbrev price_currency : Json → Result Json
price_currency first_item = do
  price ← index first_item "price"
  listed ← get price "currency"
  ok (or_else listed (Json.str "usd"))

-- The columns that `_build_subscription_row` reads from the data.
pub record Columns : Type 0 where
  pub status : SubscriptionStatus
  pub seat_limit : ℕ
  pub trial_ends_at : Option DateTime
  pub current_period_start : DateTime
  pub current_period_end : DateTime
  pub canceled_at : Option DateTime
  pub cancel_at : Option DateTime
  pub currency : String

-- The columns that the upsert takes from the existing row, or makes anew.
pub record Kept : Type 0 where
  pub id : Uuid
  pub scheduled_plan_id : Option Uuid
  pub scheduled_change_at : Option DateTime
  pub created_at : DateTime

module _ (env : Env) where
  -- The count of the items serves only a warning; `items[0]` raises the same where it raises.
  unfoldable pub read_header : Json → Result Header
  unfolding extract_period_window
  read_header sub_data = do
    customer ← index sub_data "customer"
    wrapper ← index sub_data "items"
    items ← index wrapper "data"
    first_item ← at items 0
    price ← index first_item "price"
    price_id ← index price "id"
    id ← index sub_data "id"
    window ← extract_period_window sub_data first_item (to_text env id)
    ok record {
      customer = to_text env customer;
      first_item = first_item;
      price_id = to_text env price_id;
      stripe_sub_id = to_text env id;
      period_start = window.0;
      period_end = window.1;
    }

  -- `str(sub_data.get("currency") or first_item["price"].get("currency") or "usd").lower()`
  unfoldable pub read_currency : Json → Json → Result String
  unfolding to_text
  read_currency sub_data first_item = do
    own ← get sub_data "currency"
    chosen ← if truthy own then ok own else price_currency first_item
    ok (env.lower (to_text env chosen))

  unfoldable pub read_columns : Json → Header → Result Columns
  unfolding read_currency ts_to_dt
  read_columns sub_data h = do
    status_value ← index sub_data "status"
    status ← or_raise (parse_status (to_text env status_value)) Exn.value_error
    quantity ← get h.first_item "quantity"
    seats ← to_int env (or_else quantity (Json.int 1))
    trial_end ← get sub_data "trial_end"
    trial_ends_at ← ts_to_dt env trial_end
    period_start ← from_timestamp h.period_start
    period_end ← from_timestamp h.period_end
    canceled ← get sub_data "canceled_at"
    canceled_at ← ts_to_dt env canceled
    cancel ← get sub_data "cancel_at"
    cancel_at ← ts_to_dt env cancel
    currency ← read_currency sub_data h.first_item
    ok record {
      status = status;
      seat_limit = seats;
      trial_ends_at = trial_ends_at;
      current_period_start = period_start;
      current_period_end = period_end;
      canceled_at = canceled_at;
      cancel_at = cancel_at;
      currency = currency;
    }

-- The row of `_build_subscription_row`.
abbrev pub make_row : Header → StripeCustomer → PlanPrice → Columns → Kept → Subscription
make_row h customer price c kept = record {
  id = kept.id;
  stripe_id = some h.stripe_sub_id;
  stripe_customer_id = some customer.id;
  user_id = customer.user_id;
  status = c.status;
  plan_id = price.plan_id;
  seat_limit = c.seat_limit;
  trial_ends_at = c.trial_ends_at;
  current_period_start = c.current_period_start;
  current_period_end = c.current_period_end;
  canceled_at = c.canceled_at;
  cancel_at = c.cancel_at;
  scheduled_plan_id = kept.scheduled_plan_id;
  scheduled_change_at = kept.scheduled_change_at;
  currency = c.currency;
  created_at = kept.created_at;
}

-- A phase's price: an object with an id, or the id itself.
abbrev price_reference : Json → Result Json
price_reference (Json.obj fs) = get (Json.obj fs) "id"
price_reference v = ok v

-- The time of the change, behind a price that is not empty.
abbrev pending_at : Env → Json → Option DateTime → Option (String × DateTime)
pending_at env price none = none
pending_at env price (some t) = some (to_text env price, t)

-- The price id of the next phase and the time of the change, of two phases.
abbrev read_phases : Env → (current next next_items : Json) → Result (Option (String × DateTime))
read_phases env current next next_items = do
  next_item ← at next_items 0
  price ← get next_item "price"
  price_id ← price_reference price
  if not (truthy price_id) then ok none else (do
    end_date ← get current "end_date"
    start_date ← get next "start_date"
    change_at ← ts_to_dt env (or_else end_date start_date)
    ok (pending_at env price_id change_at))

-- `_parse_schedule_pending_change`; `none` is "nothing to mirror".
unfoldable pub parse_schedule_pending_change : Env → Json → Result (Option (String × DateTime))
parse_schedule_pending_change env schedule = do
  listed ← get schedule "phases"
  let phases = or_else listed (Json.arr Python.Items.nil)
  n ← Python.length phases
  if ltb n 2 then ok none else (do
    current ← at phases 0
    next ← at phases 1
    next_list ← get next "items"
    let next_items = or_else next_list (Json.arr Python.Items.nil)
    if truthy next_items then read_phases env current next next_items else ok none)
