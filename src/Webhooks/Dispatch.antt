-- ===== src/Webhooks/Dispatch.antt =====
-- `process_stored_event` and `_dispatch` of core/saasmint_core/services/webhooks.py.
pub mod Marks
pub mod Frame
use saasmint_core.Base.{String, ◌||◌, if◌then◌else◌}
use saasmint_core.Python.{Exn, Json, index, get, is_text}
use saasmint_core.State.{Env, Action, pure, raise, lift, try_except, ◌>>=◌, ◌>>◌}
use saasmint_core.Repositories.Events.{mark_processed, mark_failed}
use saasmint_core.Webhooks.Checkout.{Callbacks, on_checkout_completed}
use saasmint_core.Webhooks.Sync.{sync_subscription_from_data, on_subscription_deleted}
use saasmint_core.Webhooks.Schedules.{
  on_subscription_schedule_upserted, on_subscription_schedule_cleared,
}

-- `event["data"]["object"]`
unfoldable pub payload_object : Json → Action Json
payload_object event = do wrapper ← lift (index event "data"); lift (index wrapper "object")

-- `_on_invoice_paid` and `_on_invoice_failed` only write to the log.
unfoldable pub on_invoice : Json → Action (Unit {0})
on_invoice invoice = do id ← lift (get invoice "id"); pure tt

-- The cases of `_dispatch`.
pub data Route : Type 0 where
  checkout sync deleted schedule_upserted schedule_cleared invoice unhandled : Route

unfoldable pub route : Json → Route
route kind =
    if is_text kind "checkout.session.completed"
    then Route.checkout
    else if is_text kind "customer.subscription.created"
        || is_text kind "customer.subscription.updated"
    then Route.sync
    else if is_text kind "customer.subscription.deleted"
    then Route.deleted
    else if is_text kind "subscription_schedule.created"
        || is_text kind "subscription_schedule.updated"
    then Route.schedule_upserted
    else if is_text kind "subscription_schedule.released"
        || is_text kind "subscription_schedule.canceled"
        || is_text kind "subscription_schedule.aborted"
    then Route.schedule_cleared
    else if is_text kind "invoice.payment_succeeded" || is_text kind "invoice.payment_failed"
    then Route.invoice
    else Route.unhandled

module _ (env : Env) (callbacks : Callbacks) where
  abbrev pub handle : Route → Json → Action (Unit {0})
  handle Route.checkout event = do
    session ← payload_object event
    on_checkout_completed env callbacks session
  handle Route.sync event = do
    sub_data ← payload_object event
    sync_subscription_from_data env sub_data
  handle Route.deleted event = do
    sub_data ← payload_object event
    on_subscription_deleted env callbacks.on_org_subscription_canceled sub_data
  handle Route.schedule_upserted event = do
    schedule ← payload_object event
    on_subscription_schedule_upserted env schedule
  handle Route.schedule_cleared event = do
    schedule ← payload_object event
    on_subscription_schedule_cleared env schedule
  handle Route.invoice event = do paid ← payload_object event; on_invoice paid
  handle Route.unhandled event = pure tt

  unfoldable pub dispatch : Json → Action (Unit {0})
  unfolding route
  dispatch event = do kind ← lift (index event "type"); handle (route kind) event

  -- The text that is stored: the message of a `WebhookDataError`, else what `env` gives.
  abbrev pub stored_message : Exn → String
  stored_message (Exn.webhook_data_error message) = message
  stored_message e = env.message e

  unfoldable pub process_stored_event : Json → String → Action (Unit {0})
  process_stored_event event id =
      try_except (do dispatch event; mark_processed id)
        (λ e. do mark_failed id (stored_message e); raise e)
