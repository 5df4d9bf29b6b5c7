-- ===== src/Repositories/Subscriptions.antt =====
-- `DjangoSubscriptionRepository` and `DjangoPlanRepository` of apps/billing/repositories.py.
pub mod Keys
pub mod Save
use saasmint_core.Base.{
  ◌==◌, ltb, Bool, not, ◌&&◌, ◌||◌, Option, none, some, List, ◌∷◌, [], ◌++◌, String, str_eq,
  option_eq, is_some, first, any, select, update, if◌then◌else◌,
}
use saasmint_core.Python.{DateTime, Exn}
use saasmint_core.Domain.{Uuid, Subscription, PlanPrice, is_active_status}
use saasmint_core.State.{Db, Action, pure, gets, modify, now, raise_if, ◌>>=◌, ◌>>◌}
use saasmint_core.Repositories.Customers

abbrev pub has_id : Uuid → Subscription → Bool
has_id i s = s.id == i

abbrev pub has_stripe_id : String → Subscription → Bool
has_stripe_id k s = option_eq str_eq s.stripe_id (some k)

abbrev pub is_active : Subscription → Bool
is_active s = is_active_status s.status

abbrev pub has_customer : Uuid → Subscription → Bool
has_customer c s = option_eq ◌==◌ s.stripe_customer_id (some c)

abbrev pub has_user : Uuid → Subscription → Bool
has_user u s = option_eq ◌==◌ s.user_id (some u)

-- `max(…, key=created_at)`, which keeps the first of equals.
abbrev later : Subscription → Option Subscription → Subscription
later s none = s
later s (some t) = if ltb s.created_at t.created_at then t else s

-- `.alatest("created_at")` of a query set.
unfoldable pub latest : List Subscription → Option Subscription
latest [] = none
latest (s ∷ rest) = some (later s (latest rest))

unfoldable pub get_by_stripe_id : String → Action (Option Subscription)
get_by_stripe_id k = gets (λ db. first (has_stripe_id k) db.subscriptions)

abbrev pub active_for_customer : Uuid → Subscription → Bool
active_for_customer c s = has_customer c s && is_active s

-- One row, none, or the latest of several.
abbrev pub only_or_latest : List Subscription → Option Subscription
only_or_latest [] = none
only_or_latest (s ∷ []) = some s
only_or_latest (s ∷ t ∷ rest) = latest (s ∷ t ∷ rest)

unfoldable pub get_active_for_customer : Uuid → Action (Option Subscription)
get_active_for_customer c =
    gets (λ db. only_or_latest (select (active_for_customer c) db.subscriptions))

-- The join of a subscription to the user of its customer.
abbrev pub customer_has_user : Db → Uuid → Subscription → Bool
customer_has_user db u s = elim s.stripe_customer_id [
  | none ↦ Bool.false
  | some c ↦ any (λ row. Customers.has_id c row && Customers.has_user u row) db.customers
]

-- The later of two candidates; the first where neither is later.
abbrev pub newest : Option Subscription → Option Subscription → Option Subscription
newest none other = other
newest (some s) other = some (later s other)

unfoldable pub get_active_for_user : Uuid → Action (Option Subscription)
unfolding latest
get_active_for_user u = do
  by_user ← gets (λ db. latest (select (λ s. is_active s && has_user u s) db.subscriptions))
  by_customer ←
      gets (λ db. latest (select (λ s. is_active s && customer_has_user db u s) db.subscriptions))
  pure (newest by_user by_customer)

-- The check `subscription_has_owner`, and the unique `stripe_id` against the other rows.
abbrev pub violates : Subscription → Db → Bool
violates s db = not (is_some s.user_id || is_some s.stripe_customer_id) || elim s.stripe_id [
  | none ↦ Bool.false
  | some k ↦ any (λ row. not (has_id s.id row) && has_stripe_id k row) db.subscriptions
]

-- The `defaults` of `save`: all columns but the creation time.
abbrev pub overwrite : Subscription → Subscription → Subscription
overwrite s row = record s { created_at = row.created_at }

abbrev pub upsert : Subscription → DateTime → List Subscription → List Subscription
upsert s t rows = elim (first (has_id s.id) rows) [
  | none ↦ rows ++ record s { created_at = t } ∷ []
  | some row ↦ update (has_id s.id) (overwrite s) rows
]

-- `aupdate_or_create` by the id.
unfoldable pub save : Subscription → Action Subscription
save s = do
  clash ← gets (violates s)
  raise_if clash Exn.integrity_error
  t ← now
  modify λ db. record db { subscriptions = upsert s t db.subscriptions }
  pure s

unfoldable pub get_price_by_stripe_id : String → Action (Option PlanPrice)
get_price_by_stripe_id p = gets (λ db. first (λ row. str_eq row.stripe_price_id p) db.plan_prices)
