-- ===== src/Tests/Webhooks.antt =====
-- The webhook theorems at an event that updates a known subscription.
use saasmint_core.Base.{String, true, Option, none, some, ◌≡◌, refl, first}
use saasmint_core.Python.{DateTime, Json, ok, index, at, get, get_or, as_int, truthy, lookup}
use saasmint_core.Values.{to_text, to_int, ts_to_dt}
use saasmint_core.Domain.{Subscription, SubscriptionStatus, parse_status}
use saasmint_core.State.{StripeEvent, Task, enqueue}
use saasmint_core.Repositories.Customers
use saasmint_core.Repositories.Events
use saasmint_core.Repositories.Subscriptions
use saasmint_core.Repositories.Subscriptions.{has_stripe_id}
use saasmint_core.Webhooks.Read.{Header, Columns, read_header, read_columns}
use saasmint_core.Webhooks.Checkout.{Callbacks}
use saasmint_core.Webhooks.Sync.{
  keep, build_subscription_row, upsert_found, sync_subscription_from_data, OnCanceled,
  deactivate_org, on_subscription_deleted,
}
use saasmint_core.Webhooks.Sync.Deletion.{deletion_stores}
use saasmint_core.Webhooks.Sync.Mirror.{IsParsed, IsRead, IsOwned}
use saasmint_core.Webhooks.Sync.Upsert.{IsKnown}
use saasmint_core.Webhooks.Sync.Replay.{sync_stores, sync_replay}
use saasmint_core.Webhooks.Dispatch.{payload_object, route, dispatch, process_stored_event}
use saasmint_core.Webhooks.Dispatch.Marks.{IsMarked, process_marks}
use saasmint_core.Tests.Data.{
  env, sub_data, event, customer, price, subscription, world, world-IsKeyed, item_object,
}

abbrev header : Header
header = record {
  customer = "cus_1";
  first_item = item_object;
  price_id = "price_1";
  stripe_sub_id = "sub_1";
  period_start = 100;
  period_end = 200;
}

abbrev columns : Columns
columns = record {
  status = SubscriptionStatus.active;
  seat_limit = 3;
  trial_ends_at = none;
  current_period_start = 100000000;
  current_period_end = 200000000;
  canceled_at = some 150000000;
  cancel_at = some 200000000;
  currency = "usd";
}

known : IsKnown env sub_data world header customer price columns
unfolding read_header read_columns index at get get_or as_int to_text to_int ts_to_dt parse_status
    truthy
known = record { header = refl; customer_found = refl; price_found = refl; columns_read = refl }

sync_stores_example :
    let (r, w') = sync_subscription_from_data env sub_data world in
    (r ≡ ok tt)
    × IsParsed env sub_data header
    × ((row : Subscription) × (first (has_stripe_id "sub_1") w'.db.subscriptions ≡ some row)
        × IsRead env sub_data item_object row
        × IsOwned customer price (some subscription) world row)
sync_stores_example = sync_stores env sub_data world known world-IsKeyed refl

sync_replay_example :
    let w' = (sync_subscription_from_data env sub_data world).1 in
    sync_subscription_from_data env sub_data w' ≡ (ok tt, w')
sync_replay_example = sync_replay env sub_data world known world-IsKeyed refl

-- The callback of an org queues the deletion of the org.
abbrev queue_deletion : OnCanceled
queue_deletion = some (λ org. enqueue (Task.delete_org_on_cancel org))

deleted : (on_subscription_deleted env queue_deletion sub_data world).0 ≡ ok tt
unfolding on_subscription_deleted deactivate_org Customers.get_by_id Subscriptions.get_by_stripe_id
    Subscriptions.save index to_text lookup
deleted = refl

named : index sub_data "id" ≡ ok (Json.str "sub_1")
unfolding index lookup
named = refl

found :
    first (has_stripe_id (to_text env (Json.str "sub_1"))) world.db.subscriptions
    ≡ some subscription
unfolding to_text
found = refl

deletion_stores_example :
    first
      (has_stripe_id (to_text env (Json.str "sub_1")))
      (on_subscription_deleted env queue_deletion sub_data world).1.db.subscriptions
    ≡ some (record subscription { status = SubscriptionStatus.canceled; canceled_at = some 500 })
deletion_stores_example =
    deletion_stores env queue_deletion sub_data (Json.str "sub_1") subscription world named
      world-IsKeyed found (λ org. record { run = λ w h. h }) deleted

abbrev callbacks : Callbacks
callbacks = record {
  on_team_checkout_completed = none;
  on_org_subscription_canceled = none;
  on_product_checkout_completed = none;
}

-- The row of the event, before the delivery and after it.
abbrev event_row : Json → Option DateTime → Option String → StripeEvent
event_row payload processed_at error = record {
  id = 12;
  stripe_id = "evt_1";
  type = "customer.subscription.updated";
  livemode = true;
  payload = payload;
  processed_at = processed_at;
  error = error;
}

left :
    first
      (Events.has_stripe_id "evt_1")
      (process_stored_event env callbacks event "evt_1" world).1.db.events
    ≡ some (event_row event (some 500) none)
unfolding process_stored_event dispatch payload_object route sync_subscription_from_data read_header
    read_columns upsert_found build_subscription_row keep Events.mark_processed Subscriptions.save
    index at get get_or as_int to_text to_int ts_to_dt parse_status truthy
left = refl

process_marks_example :
    IsMarked env callbacks
      (process_stored_event env callbacks event "evt_1" world).0
      (process_stored_event env callbacks event "evt_1" world).1.clock
      (event_row event (some 500) none)
process_marks_example =
    process_marks env callbacks event "evt_1" world (event_row event (some 500) none) left
