-- ===== src/Handler.antt =====
-- The status of the answer to a request that raised: `domain_exception_handler` of
-- middleware/exceptions.py.
use saasmint_core.Base.{ℕ, Option, none, some}
use saasmint_core.Python.{Exn}

-- `exc.http_status or 502`; a status of zero does not occur.
abbrev pub or_bad_gateway : Option ℕ → ℕ
or_bad_gateway none = 502
or_bad_gateway (some status) = status

-- `none` is an exception that the handler leaves to the server. The status that Stripe's SDK puts
-- on its exceptions is a parameter.
unfoldable pub http_status : (stripe_status : Exn → Option ℕ) → Exn → Option ℕ
http_status stripe_status Exn.user_not_found = some 404
http_status stripe_status Exn.org_not_found = some 404
http_status stripe_status Exn.subscription_not_found = some 404
http_status stripe_status Exn.seats_below_member_count = some 400
http_status stripe_status Exn.insufficient_permission = some 403
http_status stripe_status (Exn.webhook_data_error message) = some 400
http_status stripe_status Exn.seat_cap_reached = some 400
http_status stripe_status (Exn.invalid_request code) =
    some (or_bad_gateway (stripe_status (Exn.invalid_request code)))
http_status stripe_status Exn.stripe_error = some (or_bad_gateway (stripe_status Exn.stripe_error))
http_status stripe_status Exn.connection_error =
    some (or_bad_gateway (stripe_status Exn.connection_error))
http_status stripe_status (Exn.auth_failed code) = some 401
http_status stripe_status (Exn.api_exception status code) = some status
http_status stripe_status _ = none
