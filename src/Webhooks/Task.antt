-- ===== src/Webhooks/Task.antt =====
-- The Celery task `process_stripe_webhook` of apps/billing/tasks.py, one run of it: it ends, raises,
-- or asks Celery for a retry. Celery itself is not in the repository.
pub mod Marks
use saasmint_core.Base.{
  ℕ, zero, suc, ◌*◌, ◌==◌, ltb, Bool, true, false, Option, none, some, first, if◌then◌else◌,
}
use saasmint_core.Python.{Exn, Result, ok, err}
use saasmint_core.Domain.{Uuid}
use saasmint_core.State.{Env, World, Action, StripeEvent, pure, raise, gets, ◌>>=◌}
use saasmint_core.Webhooks.Checkout.{Callbacks}
use saasmint_core.Webhooks.Dispatch.{process_stored_event}

-- How one run of the task ends, when it does not raise; `retry` is Celery's `Retry`, with the
-- seconds to wait.
pub data Run : Type 0 where
  finished : Run
  retry : (countdown : ℕ) → Run

-- `max_retries=3`
abbrev pub max_retries : ℕ
max_retries = 3

-- `2**n`
unfoldable pub power_of_two : ℕ → ℕ
power_of_two zero = 1
power_of_two (suc n) = 2 * power_of_two n

-- `except (stripe.StripeError, ConnectionError, OperationalError)`
abbrev pub is_transient : Exn → Bool
is_transient (Exn.invalid_request code) = true
is_transient Exn.stripe_error = true
is_transient Exn.connection_error = true
is_transient Exn.operational_error = true
is_transient _ = false

-- `self.retry(exc=exc, countdown=2**retries)`, which raises `exc` when no retry is left.
abbrev pub retry_or_raise : (left : Bool) → (retries : ℕ) → Exn → Action Run
retry_or_raise true retries e = pure (Run.retry (power_of_two retries))
retry_or_raise false retries e = raise e

-- The `except` clauses.
abbrev pub on_failure : (transient : Bool) → (retries : ℕ) → Exn → Action Run
on_failure true retries e = retry_or_raise (ltb retries max_retries) retries e
on_failure false retries e = raise e

abbrev pub after_processing : (retries : ℕ) → Result (Unit {0}) → Action Run
after_processing retries (ok _) = pure Run.finished
after_processing retries (err e) = on_failure (is_transient e) retries e

abbrev pub has_event_id : Uuid → StripeEvent → Bool
has_event_id i e = e.id == i

module _ (env : Env) (callbacks : Callbacks) where
  -- The row of the event, `StripeEventModel.objects.get`, is there or raises.
  abbrev pub process_row : (retries : ℕ) → Option StripeEvent → Action Run
  process_row retries none = raise Exn.does_not_exist
  process_row retries (some row) = λ w.
      let (r, w') = process_stored_event env callbacks row.payload row.stripe_id w in
      after_processing retries r w'

  unfoldable pub process_stripe_webhook : (retries : ℕ) → Uuid → Action Run
  process_stripe_webhook retries event = do
    row ← gets (λ db. first (has_event_id event) db.events)
    process_row retries row
