-- ===== src/Lib.antt =====
-- Verification of the SaaSmint core: the Python code that keeps subscriptions, credits, tokens
-- and org memberships right while Stripe, Celery and concurrent requests call into it.
--
-- The state. `State.World` holds the database (one list of rows per table, the newest last), the
-- clock, the next draw of random values, the requests made to Stripe and the Celery queue. An
-- operation is an `Action`: it takes a state and gives a result, or an exception of `Python.Exn`,
-- and the new state. What was written stays written after an exception, unless the operation is
-- `atomic`. A row is looked up, updated and counted by the operations of Base/Tables. What the
-- repository does not contain is the record `State.Env`: Stripe, which may answer anything, UUID
-- and number parsing, digests, password hashes, JWTs and random texts. Django's cache is a list
-- of entries that expire.
--
--   Base          shared names, Boolean tests (Tests), tables (Tables) and their lemmas
--   Python        decoded JSON and Stripe objects, with the exceptions that reading them raises
--   Domain        the entities: core/saasmint_core/domain and the apps' models.py
--   State, State/Rules   state, monad, and rules that prove what a whole block keeps
--   Values        str, int, UUID and ts_to_dt (core/saasmint_core/services/_stripe_time.py)
--   Repositories  apps/billing/repositories.py, with the unique columns of apps/billing/models.py
--   Webhooks      Intake is the endpoint, apps/billing/webhook.py, and Task the Celery task of
--                 apps/billing/tasks.py with its retries; the rest is
--                 core/saasmint_core/services/webhooks.py: Read reads an event, Sync upserts and
--                 deletes subscriptions, Schedules mirrors plan changes, Checkout hands completed
--                 checkouts to the callbacks, Dispatch is process_stored_event
--   Credits       apps/billing/services.py: the grant behind a product checkout
--   Tokens        apps/users/authentication.py: refresh tokens and one-time tokens;
--                 Cleanup is the batched delete of apps/users/tasks.py
--   Billing       core/saasmint_core/services/billing.py: customers, sessions, cancellation
--   Plans         core/saasmint_core/services/subscriptions.py: plan changes and seats
--   Accounts      apps/users: Users are the rows of managers.py and models.py, Claims and Jwt the
--                 access tokens of authentication.py, Views the views of auth_views.py for
--                 passwords and emails, Providers the answers that oauth.py reads, OAuth the
--                 resolution of services.py and the callback, Exchange the one-time code
--                 of a sign-in; Erasure is core/saasmint_core/services/gdpr.py with the hook of
--                 apps/users/views.py
--   Payments      apps/billing/views.py: Prices (currencies, prices, quantities), Access (whose
--                 subscription, and who may change it), Checkout (sessions), Changes (updates and
--                 cancellations), Redirects (the URLs of apps/billing/serializers.py)
--   Catalog       the task of apps/billing/tasks.py that recomputes prices in other currencies
--                 (Sync), with the amounts of core/saasmint_core/services/currency.py (Amounts);
--                 floats are a parameter
--   Handler       the statuses of middleware/exceptions.py
--   Orgs          core/saasmint_core/services/orgs.py (Roles); the team checkout (Creation, with
--                 Slugs) and accept_invitation (Invitations) of apps/orgs/services.py; the views
--                 of apps/orgs/views.py on members (Access) and invitations (Invites);
--                 cancel_stripe_subs_task of apps/orgs/tasks.py (Cancellation); the deletion of
--                 orgs and members, with what Django deletes along (Deletion)
--   Tests         the theorems at concrete inputs
--
-- A request of Stripe runs `Intake.stripe_webhook`, which stores the event and queues a task; the
-- worker runs the task, and it calls `Dispatch.process_stored_event`, which reads the event with
-- Webhooks/Read, writes through Repositories and calls Credits or Orgs back through
-- `Checkout.Callbacks`; a request of a user runs Payments, which calls Billing and Plans, or Orgs
-- or Accounts; all of them write the same tables.
--
-- Bounds. Numbers are naturals: Stripe's timestamps, quantities and amounts are not negative, and
-- a negative amount is refused where zero is. A moment is a number of microseconds, and
-- `from_timestamp` raises past the year 9999. Loops are recursion on lists; the search for a free
-- slug has as much fuel as there are slugs, and one more, and the cleanup as much as there are
-- rows, and one more. A localized amount that is negative, which `round_friendly` gives for less
-- than a quarter of a unit, is outside of the model. Integers have no upper bound, also where a
-- column has 32 bits. The clock stands still within one operation. Logging and row locks have no
-- effect in the model; requests that race are sequences of database statements where a theorem
-- says so.
--
-- Not modelled: the serializers, whose validated data are the arguments of the views; lists that
-- are only read; the synchronization of Stripe's catalog; avatars, mail, the admin and settings.
-- The limits on the length of columns are left out. A subscription's data has integer timestamps,
-- and texts where Stripe documents texts.
pub mod Base
pub mod Python
pub mod Domain
pub mod State
pub mod Repositories
pub mod Values
pub mod Webhooks
pub mod Credits
pub mod Tokens
pub mod Billing
pub mod Plans
pub mod Payments
pub mod Catalog
pub mod Handler
pub mod Accounts
pub mod Orgs
mod Tests
