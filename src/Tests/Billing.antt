-- ===== src/Tests/Billing.antt =====
-- The billing theorems at an org's subscription.
use mathlib.Core.Bool.{xor}
use saasmint_core.Base.{true, false, String, none, some, [], ◌≡◌, refl, first, count}
use saasmint_core.Python.{Json, ok, attr, index, at, as_int}
use saasmint_core.Values.{as_text, as_bool, ts_to_dt, to_text}
use saasmint_core.Domain.{StripeCustomer, Subscription}
use saasmint_core.State.{StripeCall}
use saasmint_core.Repositories.Customers
use saasmint_core.Repositories.Subscriptions
use saasmint_core.Billing.{get_or_create_customer}
use saasmint_core.Billing.CustomerAnswer.{read_customer}
use saasmint_core.Billing.CustomerOnce.{customer_once}
use saasmint_core.Repositories.Subscriptions.{has_id}
use saasmint_core.Billing.CancelState.{read_cancel_state}
use saasmint_core.Billing.Cancel.{cancel_now, cancel_subscription, mirror_cancel_state_from_stripe}
use saasmint_core.Billing.Cancel.Answer.{IsAnswered}
use saasmint_core.Billing.Cancel.Calls.{last, cancel_last_call}
use saasmint_core.Billing.Cancel.Mirror.{cancel_stores}
use saasmint_core.Plans.Read.{Change, safe_get, first_item, detect_downgrade, read_change}
use saasmint_core.Plans.{change_plan}
use saasmint_core.Plans.Deferral.{belongs_to_other, change_plan_routes}
use saasmint_core.Tests.Data.{env, sub_data, subscription, world}

canceled : (cancel_subscription env 1 true world).0 ≡ ok tt
unfolding cancel_subscription cancel_now mirror_cancel_state_from_stripe read_cancel_state ts_to_dt
    attr Subscriptions.get_active_for_customer Subscriptions.save
canceled = refl

cancel_last_call_example :
    (s : Subscription) × (id : String) × ((Subscriptions.get_active_for_customer 1 world).0
      ≡ ok (some s))
    × (s.stripe_id ≡ some id)
    × (last (cancel_subscription env 1 true world).1.stripe_calls
        ≡ some (StripeCall.subscription_modify_cancel_at id "min_period_end"))
cancel_last_call_example = cancel_last_call env 1 true world canceled

canceled_now : (cancel_now env false subscription "sub_1" world).0 ≡ ok tt
unfolding cancel_now mirror_cancel_state_from_stripe read_cancel_state ts_to_dt attr
    Subscriptions.save
canceled_now = refl

cancel_stores_example :
    (answer : Json) × (row : Subscription) × (env.respond []
        (StripeCall.subscription_cancel "sub_1" none)
      ≡ ok answer)
    × (first (has_id 4) (cancel_now env false subscription "sub_1" world).1.db.subscriptions
        ≡ some row)
    × IsAnswered env answer subscription row
cancel_stores_example = cancel_stores env false subscription "sub_1" world refl canceled_now

-- To a price of 500, from 900.
abbrev downgrade : Change
downgrade = record { item_id = "si_1"; current_quantity = some 3; is_downgrade = true }

read : read_change env sub_data (some 500) ≡ ok downgrade
unfolding read_change first_item safe_get detect_downgrade index at as_int to_text
read = refl

change_plan_routes_example :
    count
      (belongs_to_other true)
      (change_plan env "sub_1" "price_2" (some 500) true none world).1.stripe_calls
    ≡ 0
change_plan_routes_example =
    change_plan_routes env "sub_1" "price_2" (some 500) true none world sub_data downgrade refl read

abbrev created : StripeCustomer
created = record {
  id = 40;
  stripe_id = "cus_2";
  user_id = some 6;
  org_id = none;
  livemode = true;
  created_at = 500;
}

first_call :
    (get_or_create_customer env (some 6) none "ada@example.org" none "en" world).0 ≡ ok created
unfolding get_or_create_customer Customers.get_by_user_id Customers.save read_customer attr as_text
    as_bool xor
first_call = refl

customer_once_example :
    let w' = (get_or_create_customer env (some 6) none "ada@example.org" none "en" world).1 in
    (row : StripeCustomer) × (get_or_create_customer env
        (some 6)
        none
        "ada@example.net"
        (some "Ada")
        "es"
        w'
      ≡ (ok row, w'))
    × (row.stripe_id ≡ "cus_2")
customer_once_example =
    customer_once env 6 "ada@example.org" "ada@example.net" "en" "es" none (some "Ada") world
      created first_call
