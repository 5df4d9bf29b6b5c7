-- ===== src/Repositories/Events.antt =====
-- `DjangoStripeEventRepository` of apps/billing/repositories.py.
use saasmint_core.Base.{Bool, none, some, String, str_eq, update}
use saasmint_core.State.{StripeEvent, Action, modify, now, ◌>>=◌}

abbrev pub has_stripe_id : String → StripeEvent → Bool
has_stripe_id k e = str_eq e.stripe_id k

unfoldable pub mark_processed : String → Action (Unit {0})
mark_processed k = do
  t ← now
  modify λ db. record db {
    events =
        update (has_stripe_id k) (λ e. record e { processed_at = some t; error = none }) db.events;
  }

unfoldable pub mark_failed : String → String → Action (Unit {0})
mark_failed k message = modify λ db. record db {
  events = update (has_stripe_id k) (λ e. record e { error = some message }) db.events;
}
