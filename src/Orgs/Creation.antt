-- ===== src/Orgs/Creation.antt =====
-- What a completed team checkout sets off: `on_team_checkout_completed` of apps/orgs/services.py.
pub mod Redelivery
use saasmint_core.Base.{
  ◌==◌, Bool, true, false, ◌&&◌, Option, none, some, List, [], ◌∷◌, ◌++◌, String, str_eq, first,
  any, map, if◌then◌else◌,
}
use saasmint_core.Python.{Exn, DateTime}
use saasmint_core.Domain.{Uuid, User, Org, OrgMember, OrgRole, StripeCustomer}
use saasmint_core.State.{
  Env, Db, Action, StripeCall, pure, raise, gets, modify, draw, now, request, atomic, try_except,
  ◌>>=◌, ◌>>◌,
}
use saasmint_core.Repositories.Customers
use saasmint_core.Webhooks.Sync.{sync_subscription_from_data}
use saasmint_core.Webhooks.Checkout.{TeamCheckout}
use saasmint_core.Billing.Cancel.{cancel_subscription}
use saasmint_core.Tokens.{user_of}
use saasmint_core.Orgs.Slugs.{base_of, free_slug}

abbrev pub has_org_id : Uuid → Org → Bool
has_org_id i o = o.id == i

abbrev pub has_slug : String → Org → Bool
has_slug s o = str_eq o.slug s

-- The membership of a user in an org.
abbrev pub is_member : (org user : Uuid) → OrgMember → Bool
is_member org user m = m.org_id == org && m.user_id == user

abbrev pub is_owner : OrgMember → Bool
is_owner m = elim m.role [ OrgRole.owner ↦ true | _ ↦ false ]

-- The org that a customer points to and the user's membership in it.
abbrev pub org_and_member : Db → (user : Uuid) → Option Org → Option (Org × OrgMember)
org_and_member db user none = none
org_and_member db user (some org) = elim (first (is_member org.id user) db.members) [
  | none ↦ none
  | some m ↦ some (org, m)
]

abbrev pub org_of_customer : Db → (user : Uuid) → Option StripeCustomer → Option (Org × OrgMember)
org_of_customer db user none = none
org_of_customer db user (some c) = elim c.org_id [
  | none ↦ none
  | some i ↦ org_and_member db user (first (has_org_id i) db.orgs)
]

-- The lookup of the short-circuit.
abbrev pub already : Db → (user : Uuid) → Option String → Option (Org × OrgMember)
already db user none = none
already db user (some customer) =
    org_of_customer db user (first (Customers.has_stripe_id customer) db.customers)

-- The inserts; each raises where its row breaks a unique constraint.
abbrev pub insert_org : (clash : Bool) → Org → Action Org
insert_org true org = raise Exn.integrity_error
insert_org false org = do modify λ db. record db { orgs = db.orgs ++ org ∷ [] }; pure org

abbrev pub insert_owner : (clash : Bool) → OrgMember → Action OrgMember
insert_owner true m = raise Exn.integrity_error
insert_owner false m = do modify λ db. record db { members = db.members ++ m ∷ [] }; pure m

abbrev pub insert_customer : (clash : Bool) → StripeCustomer → Action (Unit {0})
insert_customer true c = raise Exn.integrity_error
insert_customer false c = modify λ db. record db { customers = db.customers ++ c ∷ [] }

-- The row of an org's customer.
abbrev pub org_customer :
    Uuid → DateTime → String → (livemode : Bool) → (org : Uuid) → StripeCustomer
org_customer i t stripe_id livemode org = record {
  id = i;
  stripe_id = stripe_id;
  user_id = none;
  org_id = some org;
  livemode = livemode;
  created_at = t;
}

abbrev pub customer_if_given : Option String → (livemode : Bool) → (org : Uuid) → Action (Unit {0})
customer_if_given none livemode org = pure tt
customer_if_given (some stripe_id) livemode org = do
  i ← draw
  t ← now
  clash ← gets (λ db. any (Customers.has_stripe_id stripe_id) db.customers)
  insert_customer clash (org_customer i t stripe_id livemode org)

abbrev pub owner_row : Uuid → (org user : Uuid) → OrgMember
owner_row i org user = record {
  id = i;
  org_id = org;
  user_id = user;
  role = OrgRole.owner;
  is_billing = true;
}

abbrev pub add_customer :
    Option String → (livemode : Bool) → Org → OrgMember → Action (Org × OrgMember)
add_customer customer livemode org member = do
  customer_if_given customer livemode org.id
  pure (org, member)

abbrev pub add_owner :
    (user : Uuid) → Option String → (livemode : Bool) → Org → Action (Org × OrgMember)
add_owner user customer livemode org = do
  i ← draw
  owns ← gets (λ db. any (λ m. is_owner m && m.user_id == user) db.members)
  member ← insert_owner owns (owner_row i org.id user)
  add_customer customer livemode org member

abbrev pub org_row : Uuid → (name slug : String) → (user : Uuid) → Org
org_row i name slug user = record { id = i; name = name; slug = slug; created_by = some user }

-- The org, its owner and its customer, under a slug that the generator has found.
abbrev pub create_with :
    Option String
    → (user : Uuid) → (org_name : String) → Option String
    → (livemode : Bool) → Action (Org × OrgMember)
create_with none user org_name customer livemode = raise Exn.value_error
create_with (some slug) user org_name customer livemode = do
  i ← draw
  taken ← gets (λ db. any (has_slug slug) db.orgs)
  org ← insert_org taken (org_row i org_name slug user)
  add_owner user customer livemode org

module _ (slugify : String → String) where
  abbrev pub create_unless_known :
      Option (Org × OrgMember)
      → (user : Uuid) → (org_name : String) → Option String
      → (livemode : Bool) → Action (Org × OrgMember)
  create_unless_known (some known) user org_name customer livemode = pure known
  create_unless_known none user org_name customer livemode = do
    slug ← gets (λ db. free_slug (base_of slugify org_name) (map (λ (o : Org). o.slug) db.orgs))
    create_with slug user org_name customer livemode

  -- `_create_org_with_owner`
  unfoldable pub create_org_with_owner :
      (user : Uuid)
      → (org_name : String) → (customer : Option String) → (livemode : Bool)
      → Action (Org × OrgMember)
  create_org_with_owner user org_name customer livemode = atomic (do
    known ← gets (λ db. already db user customer)
    create_unless_known known user org_name customer livemode)

  module _ (env : Env) where
    -- `_persist_team_subscription`
    unfoldable pub persist_team_subscription : String → Action (Unit {0})
    persist_team_subscription id = do
      sub ← request env (StripeCall.subscription_retrieve id)
      sync_subscription_from_data env sub

    abbrev pub persist_if_given : Option String → Action (Unit {0})
    persist_if_given none = pure tt
    persist_if_given (some id) = persist_team_subscription id

    -- `except SubscriptionNotFoundError: return`
    abbrev pub unless_not_found : Exn → Action (Unit {0})
    unless_not_found Exn.subscription_not_found = pure tt
    unless_not_found e = raise e

    abbrev pub cancel_for : Option StripeCustomer → Action (Unit {0})
    cancel_for none = pure tt
    cancel_for (some c) = try_except (cancel_subscription env c.id true) unless_not_found

    -- `_schedule_personal_cancel_at_period_end`
    unfoldable pub schedule_personal_cancel : (user : Uuid) → Action (Unit {0})
    schedule_personal_cancel user = do personal ← Customers.get_by_user_id user; cancel_for personal

    abbrev pub cancel_unless_kept : (kept : Bool) → (user : Uuid) → Action (Unit {0})
    cancel_unless_kept true user = pure tt
    cancel_unless_kept false user = schedule_personal_cancel user

    unfoldable pub on_team_checkout_completed : TeamCheckout → Action (Unit {0})
    on_team_checkout_completed t = do
      user ← user_of t.user_id
      created ← create_org_with_owner user.id t.org_name (some t.stripe_customer_id) t.livemode
      persist_if_given t.subscription_id
      cancel_unless_kept t.keep_personal_subscription t.user_id
