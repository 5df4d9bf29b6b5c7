-- ===== src/Billing/CustomerAnswer.antt =====
-- What `get_or_create_customer` of core/saasmint_core/services/billing.py reads of a new Stripe
-- customer.
use saasmint_core.Base.{String, Bool}
use saasmint_core.Python.{Result, ok, Json, attr, ◌>>=◌}
use saasmint_core.Values.{as_text, as_bool}

unfoldable pub read_customer : Json → Result (String × Bool)
read_customer answer = do
  id ← attr answer "id"
  stripe_id ← as_text id
  mode ← attr answer "livemode"
  livemode ← as_bool mode
  ok (stripe_id, livemode)
