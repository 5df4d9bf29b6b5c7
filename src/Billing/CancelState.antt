-- ===== src/Billing/CancelState.antt =====
-- The cancel state that an answer of Stripe carries: the reading half of
-- `_mirror_cancel_state_from_stripe` of core/saasmint_core/services/billing.py.
use saasmint_core.Base.{Option, none, some}
use saasmint_core.Python.{DateTime, Result, ok, Json, attr, ◌>>=◌}
use saasmint_core.Values.{ts_to_dt}
use saasmint_core.Domain.{Subscription, SubscriptionStatus, parse_status}
use saasmint_core.State.{Env}

-- The `update`; the status is still as it came.
pub record CancelState : Type 0 where
  pub cancel_at : Option DateTime
  pub canceled_at : Option DateTime
  pub status : Json

unfoldable pub read_cancel_state : Env → Json → Result CancelState
read_cancel_state env answer = do
  cancel_at_ts ← attr answer "cancel_at"
  canceled_at_ts ← attr answer "canceled_at"
  status ← attr answer "status"
  cancel_at ← ts_to_dt env cancel_at_ts
  canceled_at ← ts_to_dt env canceled_at_ts
  ok record { cancel_at = cancel_at; canceled_at = canceled_at; status = status }

-- The status of an answer; the old one where it is no text or unknown.
unfoldable pub status_or : SubscriptionStatus → Json → SubscriptionStatus
unfolding parse_status
status_or old (Json.str s) = elim (parse_status s) [ none ↦ old | some new ↦ new ]
status_or old _ = old

-- `active.model_copy(update=update)`
abbrev pub with_cancel_state : Subscription → CancelState → Subscription
with_cancel_state s c = record s {
  cancel_at = c.cancel_at;
  canceled_at = c.canceled_at;
  status = status_or s.status c.status;
}
