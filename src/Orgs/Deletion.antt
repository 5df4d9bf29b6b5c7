-- ===== src/Orgs/Deletion.antt =====
-- The deletion of orgs and of their members: apps/orgs/services.py, the task of apps/orgs/tasks.py
-- that a cancelled subscription queues, and the removal of a member in apps/orgs/views.py. What
-- Django deletes with a row is written out table by table, from the foreign keys of the models.
pub mod Kept
pub mod Removed
use Prim.Native.String.{◌++◌}
use saasmint_core.Base.{
  ℕ, ◌==◌, ltb, String, Bool, true, false, not, ◌&&◌, ◌||◌, Option, none, some, List, [], ◌∷◌,
  str_eq, option_eq, is_some, first, any, select, update, delete, length, if◌then◌else◌,
}
use saasmint_core.Python.{Exn, ok}
use saasmint_core.Domain.{
  Uuid, Subscription, StripeCustomer, Owner, Org, OrgMember, OrgRole, Invitation, InvitationStatus,
  User, SocialAccount, RefreshToken, OneTimeToken, CreditBalance, CreditTransaction,
}
use saasmint_core.State.{
  Env, World, Db, Action, Task, CacheKey, CacheEntry, pure, raise, lift, raise_if, gets, modify,
  enqueue, atomic, ◌>>=◌, ◌>>◌,
}
use saasmint_core.Repositories.Customers
use saasmint_core.Repositories.Subscriptions
use saasmint_core.Orgs.Roles.{check_can_manage_member}
use saasmint_core.Orgs.Creation.{has_org_id, is_member, is_owner}
use saasmint_core.Orgs.Invitations.{customer_has_org}
use saasmint_core.Orgs.Access.{admin_or_above, owner_only, get_org_and_member, member_or_404}

-- The test of `id__in`: a set of ids is a test on ids.
abbrev pub IdSet : Type 0
IdSet = Uuid → Bool

abbrev pub holds : IdSet → Option Uuid → Bool
holds s none = false
holds s (some i) = s i

abbrev pub owner_user_in : IdSet → Owner → Bool
owner_user_in s (Owner.user i) = s i
owner_user_in s (Owner.org i) = false

abbrev pub owner_org_in : IdSet → Owner → Bool
owner_org_in s (Owner.user i) = false
owner_org_in s (Owner.org i) = s i

-- The customers that pass a test go, and their subscriptions with them.
abbrev pub drop_customers : (StripeCustomer → Bool) → Db → Db
drop_customers p db = record db {
  customers = delete p db.customers;
  subscriptions =
      delete
        (λ s.
          holds (λ i. any (λ row. p row && Customers.has_id i row) db.customers)
            s.stripe_customer_id)
        db.subscriptions;
}

-- The subscriptions and credits that point to the users.
abbrev pub drop_billing_of_users : IdSet → Db → Db
drop_billing_of_users s db = record db {
  subscriptions = delete (λ (row : Subscription). holds s row.user_id) db.subscriptions;
  credit_balances = delete (λ (row : CreditBalance). owner_user_in s row.owner) db.credit_balances;
  credit_transactions =
      delete (λ (row : CreditTransaction). owner_user_in s row.owner) db.credit_transactions;
}

-- The memberships of the users; an org forgets who created it, and an invitation who sent it.
abbrev pub drop_memberships : IdSet → Db → Db
drop_memberships s db = record db {
  members = delete (λ (m : OrgMember). s m.user_id) db.members;
  orgs =
      update (λ (o : Org). holds s o.created_by) (λ (o : Org). record o { created_by = none })
        db.orgs;
  invitations =
      update (λ (i : Invitation). holds s i.invited_by)
        (λ (i : Invitation). record i { invited_by = none }) db.invitations;
}

-- The sessions, one-time tokens and linked accounts of the users.
abbrev pub drop_tokens : IdSet → Db → Db
drop_tokens s db = record db {
  refresh_tokens = delete (λ (t : RefreshToken). s t.user_id) db.refresh_tokens;
  one_time_tokens = delete (λ (t : OneTimeToken). s t.user_id) db.one_time_tokens;
  social_accounts = delete (λ (a : SocialAccount). s a.user_id) db.social_accounts;
}

abbrev pub drop_users : IdSet → Db → Db
drop_users s db =
    let rest = drop_tokens s (
      drop_memberships s (
        drop_billing_of_users s (drop_customers (λ (c : StripeCustomer). holds s c.user_id) db))) in
    record rest { users = delete (λ (u : User). s u.id) rest.users }

-- The deletion of users, with the signal that drops each cached copy.
abbrev pub is_cached_user : IdSet → List User → CacheEntry → Bool
is_cached_user s users e = elim e.key [
  | CacheKey.auth_user i ↦ s i && any (λ (u : User). u.id == i) users
  | _ ↦ false
]

abbrev pub delete_users : IdSet → Action (Unit {0})
delete_users s w = (
  ok tt,
  record w { db = drop_users s w.db; cache = delete (is_cached_user s w.db.users) w.cache },
)

-- The rows of orgs go with their members, invitations, customers and credits.
abbrev pub drop_orgs : IdSet → Db → Db
drop_orgs s db =
    let rest = drop_customers (λ (c : StripeCustomer). holds s c.org_id) db in
    record rest {
      members = delete (λ (m : OrgMember). s m.org_id) rest.members;
      invitations = delete (λ (i : Invitation). s i.org_id) rest.invitations;
      credit_balances =
          delete (λ (row : CreditBalance). owner_org_in s row.owner) rest.credit_balances;
      credit_transactions =
          delete (λ (row : CreditTransaction). owner_org_in s row.owner) rest.credit_transactions;
      orgs = delete (λ (o : Org). s o.id) rest.orgs;
    }

-- An active subscription of the user's own: `_personal_subs_outer_ref_qs`.
abbrev pub has_personal_sub : Db → Uuid → Bool
has_personal_sub db u =
    any
      (λ s.
        Subscriptions.has_user u s
        && (Subscriptions.customer_has_user db u s && Subscriptions.is_active s))
      db.subscriptions

-- A membership outside of the orgs.
abbrev pub has_other : IdSet → Db → Uuid → Bool
has_other orgs db u = any (λ (m : OrgMember). m.user_id == u && not (orgs m.org_id)) db.members

-- `deletable_user_ids`
unfoldable pub deletable : IdSet → Db → IdSet
deletable orgs db u =
    any (λ (m : OrgMember). orgs m.org_id && m.user_id == u) db.members
    && (not (has_other orgs db u) && not (has_personal_sub db u))

abbrev pub is_pending_of : IdSet → Invitation → Bool
is_pending_of orgs i =
    orgs i.org_id && (elim i.status [ InvitationStatus.pending ↦ true | _ ↦ false ])

abbrev pub cancel_pending : IdSet → Db → Db
cancel_pending orgs db = record db {
  invitations =
      update (is_pending_of orgs) (λ row. record row { status = InvitationStatus.cancelled })
        db.invitations;
}

abbrev pub drop_members : IdSet → Db → Db
drop_members orgs db = record db { members = delete (λ (m : OrgMember). orgs m.org_id) db.members }

-- The transaction that deletes the rows of orgs.
abbrev pub delete_rows : IdSet → Action (Unit {0})
delete_rows orgs = do
  modify (cancel_pending orgs)
  users ← gets (deletable orgs)
  delete_users users
  modify (drop_members orgs)
  modify (drop_orgs orgs)

abbrev pub just : Uuid → IdSet
just org i = i == org

-- `_delete_org_db_only`
unfoldable pub delete_org_db_only : Uuid → Action (Unit {0})
delete_org_db_only org = atomic (delete_rows (just org))

abbrev pub is_active_of_org : Db → Uuid → Subscription → Bool
is_active_of_org db org s =
    customer_has_org db org s && (Subscriptions.is_active s && is_some s.stripe_id)

-- `_get_active_stripe_sub`
unfoldable pub get_active_stripe_sub : Uuid → Action (Option Subscription)
get_active_stripe_sub org =
    gets (λ db. Subscriptions.latest (select (is_active_of_org db org) db.subscriptions))

abbrev pub stripe_id_of : Option Subscription → Option String
stripe_id_of none = none
stripe_id_of (some s) = s.stripe_id

abbrev pub put_id : Option String → List String → List String
put_id none ids = ids
put_id (some id) ids = id ∷ ids

-- The Celery task is queued where there is something to cancel.
abbrev pub cancel_in_stripe : List String → (label : String) → Action (Unit {0})
cancel_in_stripe [] label = pure tt
cancel_in_stripe (id ∷ ids) label = enqueue (Task.cancel_stripe_subs (id ∷ ids) label)

abbrev pub created_by : Uuid → Org → Bool
created_by user o = option_eq ◌==◌ o.created_by (some user)

abbrev pub one_of : List Org → IdSet
one_of orgs i = any (has_org_id i) orgs

-- `pending_stripe_sub_ids`: of each org, the Stripe id of its latest active subscription.
unfoldable pub pending_ids : Db → List Org → List String
pending_ids db [] = []
pending_ids db (o ∷ orgs) =
    put_id
      (stripe_id_of (Subscriptions.latest (select (is_active_of_org db o.id) db.subscriptions)))
      (pending_ids db orgs)

module _ (env : Env) where
  unfoldable pub delete_org : Uuid → Action (Unit {0})
  delete_org org = do
    active ← get_active_stripe_sub org
    delete_org_db_only org
    cancel_in_stripe (put_id (stripe_id_of active) []) (env.uuid_text org)

  abbrev pub delete_orgs : List Org → (user : Uuid) → Action (Unit {0})
  delete_orgs [] user = pure tt
  delete_orgs (o ∷ orgs) user = do
    ids ← gets (λ db. pending_ids db (o ∷ orgs))
    atomic (delete_rows (one_of (o ∷ orgs)))
    cancel_in_stripe ids ("user:" ++ env.uuid_text user)

  unfoldable pub delete_orgs_created_by_user : Uuid → Action (Unit {0})
  delete_orgs_created_by_user user = do
    orgs ← gets (λ db. select (created_by user) db.orgs)
    delete_orgs orgs user

-- `OrgDetailView.delete`
unfoldable pub delete_org_view : Env → (user org : Uuid) → Action (Unit {0})
delete_org_view env user org = do
  caller ← get_org_and_member user org owner_only
  delete_org env caller.0.id

-- `delete_org_on_subscription_cancel_task`; a missing org is a no-op.
abbrev pub delete_if_found : Option Org → Action (Unit {0})
delete_if_found none = pure tt
delete_if_found (some o) = delete_org_db_only o.id

unfoldable pub delete_org_on_subscription_cancel_task : Uuid → Action (Unit {0})
delete_org_on_subscription_cancel_task org = do
  found ← gets (λ db. first (has_org_id org) db.orgs)
  delete_if_found found

-- `OrgMemberDetailView.delete`
unfoldable pub remove_member : (user org member : Uuid) → Action (Unit {0})
remove_member user org member = do
  caller ← get_org_and_member user org admin_or_above
  found ← gets (λ db. first (is_member org member) db.members)
  target ← member_or_404 found
  raise_if (is_owner target) Exn.insufficient_permission
  lift (check_can_manage_member caller.1.role target.role)
  delete_users (just target.user_id)
