-- ===== src/Tests/Intake.antt =====
-- The theorems of the webhook endpoint and its task.
use saasmint_core.Base.{true, none, some, ◌≡◌, refl}
use mathlib.Core.Bool.{xor}
use saasmint_core.Python.{Json, Fields, ok, index, at, get, get_or, as_int, truthy}
use saasmint_core.Values.{to_text, to_int, ts_to_dt}
use saasmint_core.Domain.{parse_status}
use saasmint_core.State.{StripeEvent}
use saasmint_core.Repositories.Subscriptions
use saasmint_core.Webhooks.Read.{read_header, read_columns}
use saasmint_core.Webhooks.Sync.{
  keep, build_subscription_row, upsert_found, sync_subscription_from_data,
}
use saasmint_core.Webhooks.Checkout.{Callbacks}
use saasmint_core.Webhooks.Dispatch.{payload_object, route, dispatch}
use saasmint_core.Webhooks.Intake.{stripe_webhook}
use saasmint_core.Webhooks.Intake.Request.{
  HttpRequest, Gateway, Verification, Incoming, Screening, read_incoming, screen,
}
use saasmint_core.Webhooks.Intake.Redelivery.{redelivery_unchanged}
use saasmint_core.Webhooks.Task.{Run, process_stripe_webhook}
use saasmint_core.Webhooks.Task.Marks.{HasEvent, processed, task_marks}
use saasmint_core.Tests.Data.{env, event, world}

abbrev body : Json
body = Json.obj (
    Fields.field "id" (Json.str "evt_2") (
      Fields.field "type" (Json.str "customer.subscription.updated")
        (Fields.field "livemode" (Json.bool true) Fields.end)))

abbrev incoming : Incoming
incoming = record {
  stripe_id = "evt_2";
  type = "customer.subscription.updated";
  livemode = true;
  payload = body;
}

abbrev gateway : Gateway
gateway = record {
  construct_event = λ payload signature secret. Verification.verified;
  json_loads = λ text. some body;
  webhook_secret = "whsec";
  secret_key = "rk_live_1";
}

abbrev request : HttpRequest
request = record { content_length = some "2"; signature = some "v1"; body = "{}" }

passed : screen env gateway request ≡ Screening.accepted incoming
unfolding screen read_incoming index to_text truthy xor
passed = refl

redelivery_unchanged_example :
    let (r, w') = stripe_webhook env gateway request world in
    stripe_webhook env gateway request w' ≡ (r, w')
redelivery_unchanged_example = redelivery_unchanged env gateway request world

abbrev callbacks : Callbacks
callbacks = record {
  on_team_checkout_completed = none;
  on_org_subscription_canceled = none;
  on_product_checkout_completed = none;
}

abbrev row : StripeEvent
row = record {
  id = 12;
  stripe_id = "evt_1";
  type = "customer.subscription.updated";
  livemode = true;
  payload = event;
  processed_at = none;
  error = some "earlier";
}

returned : (dispatch env callbacks event world).0 ≡ ok tt
unfolding dispatch payload_object route sync_subscription_from_data read_header read_columns
    upsert_found build_subscription_row keep Subscriptions.save index at get get_or as_int to_text
    to_int ts_to_dt parse_status truthy
returned = refl

task_marks_example :
    let (r, w') = process_stripe_webhook env callbacks 0 12 world in
    (r ≡ ok Run.finished) × HasEvent (processed row w') w'
task_marks_example =
    task_marks row env callbacks 0 world (record { team = tt; canceled = tt; product = tt })
      (record { found = refl }) refl returned
