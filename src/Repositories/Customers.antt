-- ===== src/Repositories/Customers.antt =====
-- `DjangoStripeCustomerRepository` of apps/billing/repositories.py. The columns that a row is
-- looked up by are unique in the database.
use saasmint_core.Base.{
  ◌==◌, Bool, not, xor, ◌&&◌, ◌||◌, Option, none, some, ◌∷◌, [], ◌++◌, String, str_eq, option_eq,
  is_some, first, any, update, delete, if◌then◌else◌,
}
use saasmint_core.Python.{DateTime, Exn}
use saasmint_core.Domain.{Uuid, StripeCustomer}
use saasmint_core.State.{Db, Action, pure, gets, modify, draw, now, raise_if, ◌>>=◌, ◌>>◌}

abbrev pub has_id : Uuid → StripeCustomer → Bool
has_id i c = c.id == i

abbrev pub has_stripe_id : String → StripeCustomer → Bool
has_stripe_id s c = str_eq c.stripe_id s

abbrev pub has_user : Uuid → StripeCustomer → Bool
has_user u c = option_eq ◌==◌ c.user_id (some u)

abbrev pub has_org : Uuid → StripeCustomer → Bool
has_org o c = option_eq ◌==◌ c.org_id (some o)

unfoldable pub get_by_id : Uuid → Action (Option StripeCustomer)
get_by_id i = gets (λ db. first (has_id i) db.customers)

unfoldable pub get_by_stripe_id : String → Action (Option StripeCustomer)
get_by_stripe_id s = gets (λ db. first (has_stripe_id s) db.customers)

unfoldable pub get_by_user_id : Uuid → Action (Option StripeCustomer)
get_by_user_id u = gets (λ db. first (has_user u) db.customers)

unfoldable pub get_by_org_id : Uuid → Action (Option StripeCustomer)
get_by_org_id o = gets (λ db. first (has_org o) db.customers)

-- The `lookup` of `save`: by the user, else by the org, else by the id.
abbrev pub matches : StripeCustomer → StripeCustomer → Bool
matches c row = elim c.user_id [
  | some u ↦ has_user u row
  | none ↦ elim c.org_id [ some o ↦ has_org o row | none ↦ has_id c.id row ]
]

-- The `defaults` of `save`, which leave the row's own id and creation time.
abbrev pub overwrite : StripeCustomer → StripeCustomer → StripeCustomer
overwrite c row = record row {
  stripe_id = c.stripe_id;
  user_id = c.user_id;
  org_id = c.org_id;
  livemode = c.livemode;
}

-- The check `stripecustomer_has_owner`, and the unique `stripe_id` against the other rows.
abbrev pub violates : StripeCustomer → Db → Bool
violates c db =
    not (xor (is_some c.user_id) (is_some c.org_id))
    || any (λ row. not (matches c row) && has_stripe_id c.stripe_id row) db.customers

-- A row of the table made by `create`, with an id and a creation time of its own.
abbrev pub fresh_row : Uuid → DateTime → StripeCustomer → StripeCustomer
fresh_row i t c = record c { id = i; created_at = t }

-- What `aupdate_or_create` does with the row that the lookup found. Where the lookup is by the
-- id, a new row takes that id.
abbrev pub put : StripeCustomer → Option StripeCustomer → Action (Unit {0})
put c (some row) =
    modify λ db. record db { customers = update (matches c) (overwrite c) db.customers }
put c none = do
  drawn ← draw
  t ← now
  let i = if is_some c.user_id || is_some c.org_id then drawn else c.id
  modify λ db. record db { customers = db.customers ++ fresh_row i t c ∷ [] }

unfoldable pub save : StripeCustomer → Action StripeCustomer
save c = do
  clash ← gets (violates c)
  raise_if clash Exn.integrity_error
  found ← gets (λ db. first (matches c) db.customers)
  put c found
  pure c

-- The subscriptions of the customer are deleted with it.
unfoldable pub remove : Uuid → Action (Unit {0})
remove i = modify λ db. record db {
  customers = delete (has_id i) db.customers;
  subscriptions = delete (λ s. option_eq ◌==◌ s.stripe_customer_id (some i)) db.subscriptions;
}
