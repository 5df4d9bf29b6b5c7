-- ===== src/Webhooks/Intake.antt =====
-- The endpoint that Stripe calls: `stripe_webhook` of apps/billing/webhook.py.
pub mod Request
pub mod Redelivery
use saasmint_core.Base.{ℕ, Option, none, some, [], ◌∷◌, ◌++◌, first}
use saasmint_core.State.{
  Env, Action, Task, StripeEvent, pure, raise, gets, modify, draw, enqueue, atomic, ◌>>=◌, ◌>>◌,
}
use saasmint_core.Domain.{Uuid}
use saasmint_core.Repositories.Events.{has_stripe_id}
use saasmint_core.Webhooks.Intake.Request.{HttpRequest, Gateway, Incoming, Screening, screen}

-- The row of an event that is new.
abbrev pub event_row : Uuid → Incoming → StripeEvent
event_row i incoming = record {
  id = i;
  stripe_id = incoming.stripe_id;
  type = incoming.type;
  livemode = incoming.livemode;
  payload = incoming.payload;
  processed_at = none;
  error = none;
}

-- What `get_or_create` found decides: a duplicate is skipped, a new event is stored and its task
-- is sent at the commit.
abbrev pub store_unless_known : Option StripeEvent → Incoming → Action ℕ
store_unless_known (some row) incoming = pure 202
store_unless_known none incoming = do
  i ← draw
  modify λ db. record db { events = db.events ++ event_row i incoming ∷ [] }
  enqueue (Task.process_stripe_webhook i)
  pure 202

abbrev pub store_body : Incoming → Action ℕ
store_body incoming = do
  found ← gets (λ db. first (has_stripe_id incoming.stripe_id) db.events)
  store_unless_known found incoming

unfoldable pub store_event : Incoming → Action ℕ
store_event incoming = atomic (store_body incoming)

abbrev pub respond : Screening → Action ℕ
respond (Screening.answer status) = pure status
respond (Screening.raises e) = raise e
respond (Screening.accepted incoming) = store_event incoming

unfoldable pub stripe_webhook : Env → Gateway → HttpRequest → Action ℕ
stripe_webhook env gateway request = respond (screen env gateway request)
