-- ===== src/Accounts/Erasure.antt =====
-- core/saasmint_core/services/gdpr.py, with the hook and the repositories that `AccountView.delete`
-- of apps/users/views.py gives it: the erasure of an account and the export of its data.
pub mod Erased
pub mod CreatedOrgs
use saasmint_core.Base.{Bool, true, false, Option, none, some, String, str_eq, first, delete}
use saasmint_core.Python.{Exn, Json, ok}
use saasmint_core.Domain.{Uuid, Subscription, StripeCustomer, OrgMember, User}
use saasmint_core.State.{
  Env, Db, Action, StripeCall, pure, raise, gets, modify, request, try_except, ◌>>=◌, ◌>>◌,
}
use saasmint_core.Repositories.Customers
use saasmint_core.Repositories.Subscriptions
use saasmint_core.Accounts.Users.{has_id}
use saasmint_core.Orgs.Cancellation.{is_missing, cancel_request}
use saasmint_core.Orgs.Deletion.{delete_users, delete_orgs_created_by_user, just, stripe_id_of}

-- `_load_user_and_customer`
abbrev pub known_with : Option User → Option StripeCustomer → Action (User × Option StripeCustomer)
known_with none customer = raise Exn.user_not_found
known_with (some user) customer = pure (user, customer)

unfoldable pub load_user_and_customer : Uuid → Action (User × Option StripeCustomer)
load_user_and_customer u = do
  user ← gets (λ db. first (has_id u) db.users)
  customer ← Customers.get_by_user_id u
  known_with user customer

-- What the export holds: the user, the customer, and its active subscription.
pub record Export : Type 0 where
  pub user : User
  pub stripe_customer : Option StripeCustomer
  pub subscription : Option Subscription

abbrev pub export_with : User × Option StripeCustomer → Action Export
export_with (user, none) =
    pure (record { user = user; stripe_customer = none; subscription = none })
export_with (user, some c) = do
  active ← Subscriptions.get_active_for_customer c.id
  pure (record { user = user; stripe_customer = some c; subscription = active })

unfoldable pub export_user_data : Uuid → Action Export
export_user_data u = do loaded ← load_user_and_customer u; export_with loaded

-- The rows of the user's memberships, in `_pre_delete`.
abbrev pub drop_own_memberships : Uuid → Db → Db
drop_own_memberships u db = record db {
  members = delete (λ (m : OrgMember). just u m.user_id) db.members;
}

module _ (env : Env) where
  abbrev pub unless_missing : (missing : Bool) → Exn → Action (Unit {0})
  unless_missing true e = pure tt
  unless_missing false e = raise e

  -- `_stripe_request`: what Stripe does not have any more is no failure.
  unfoldable pub stripe_request : StripeCall → Action (Unit {0})
  stripe_request c = try_except (request env c >> pure tt) (λ e. unless_missing (is_missing e) e)

  abbrev pub cancel_if_backed : Option String → Action (Unit {0})
  cancel_if_backed none = pure tt
  cancel_if_backed (some id) = stripe_request (cancel_request id)

  abbrev pub delete_customer : Option StripeCustomer → Action (Unit {0})
  delete_customer none = pure tt
  delete_customer (some c) = do
    stripe_request (StripeCall.customer_delete c.stripe_id)
    Customers.remove c.id

  -- `_pre_delete`
  unfoldable pub pre_delete : Uuid → Action (Unit {0})
  pre_delete u = do delete_orgs_created_by_user env u; modify (drop_own_memberships u)

  -- What follows the look-up of the user.
  abbrev pub erase : Option StripeCustomer → Uuid → Action (Unit {0})
  erase customer u = do
    active ← Subscriptions.get_active_for_user u
    cancel_if_backed (stripe_id_of active)
    delete_customer customer
    pre_delete u
    delete_users (just u)

  unfoldable pub delete_account : Uuid → Action (Unit {0})
  delete_account u = do loaded ← load_user_and_customer u; erase loaded.1 u
