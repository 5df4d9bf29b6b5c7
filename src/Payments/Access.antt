-- ===== src/Payments/Access.antt =====
-- Whose subscription a request is about, and who may change it: the guards of
-- apps/billing/views.py.
use saasmint_core.Base.{
  ℕ, ltb, ◌==◌, String, Bool, true, false, ◌&&◌, Option, none, some, List, [], ◌∷◌, str_eq, any,
  select, count, if◌then◌else◌,
}
use saasmint_core.Python.{Exn}
use saasmint_core.Domain.{Uuid, Subscription, StripeCustomer, OrgMember, PlanContext}
use saasmint_core.State.{Db, Action, pure, raise, gets, raise_if, ◌>>=◌}
use saasmint_core.Repositories.Customers
use saasmint_core.Repositories.Subscriptions
use saasmint_core.Orgs.Invitations.{in_org}
use saasmint_core.Payments.Prices.{invalid, not_found_error, permission_denied}

-- `_validate_subscription_context`
unfoldable pub validate_subscription_context : Option String → Action (Option PlanContext)
validate_subscription_context none = pure none
validate_subscription_context (some value) =
    if str_eq value ""
    then pure none
    else if str_eq value "team"
    then pure (some PlanContext.team)
    else if str_eq value "personal"
    then pure (some PlanContext.personal)
    else raise invalid

abbrev pub of_user : Uuid → OrgMember → Bool
of_user u m = m.user_id == u

abbrev pub is_billing_of : Uuid → OrgMember → Bool
is_billing_of u m = m.user_id == u && m.is_billing

abbrev pub lesser : OrgMember → Option OrgMember → OrgMember
lesser m none = m
lesser m (some n) = if ltb n.id m.id then n else m

-- `.first()` of a query set that is not ordered orders it by the key.
unfoldable pub least_member : List OrgMember → Option OrgMember
least_member [] = none
least_member (m ∷ rest) = some (lesser m (least_member rest))

abbrev pub membership_of : Db → Uuid → Option OrgMember
membership_of db u = least_member (select (of_user u) db.members)

-- `_default_subscription_context`
unfoldable pub default_subscription_context : Uuid → Action PlanContext
default_subscription_context u =
    gets (λ db. if any (of_user u) db.members then PlanContext.team else PlanContext.personal)

abbrev pub org_of : Option OrgMember → Option Uuid
org_of none = none
org_of (some m) = some m.org_id

abbrev pub customer_of_org : Option Uuid → Action (Option StripeCustomer)
customer_of_org none = pure none
customer_of_org (some o) = Customers.get_by_org_id o

abbrev pub team_customer : Uuid → (org : Option Uuid) → Action (Option StripeCustomer)
team_customer u (some o) = Customers.get_by_org_id o
team_customer u none = do org ← gets (λ db. org_of (membership_of db u)); customer_of_org org

-- `_resolve_billing_customer`, with a context.
unfoldable pub resolve_billing_customer :
    Uuid → PlanContext → (org : Option Uuid) → Action (Option StripeCustomer)
resolve_billing_customer u PlanContext.team org = team_customer u org
resolve_billing_customer u PlanContext.personal org = Customers.get_by_user_id u

pub record Paid : Type 0 where
  pub customer : StripeCustomer
  pub sub : Subscription
  pub stripe_sub_id : String

abbrev pub backed_by : StripeCustomer → Subscription → Option String → Action Paid
backed_by c s none = raise not_found_error
backed_by c s (some id) = pure (record { customer = c; sub = s; stripe_sub_id = id })

abbrev pub paid_of : StripeCustomer → Option Subscription → Action Paid
paid_of c none = raise not_found_error
paid_of c (some s) = backed_by c s s.stripe_id

abbrev pub paid_by : Option StripeCustomer → Action Paid
paid_by none = raise not_found_error
paid_by (some c) = do active ← Subscriptions.get_active_for_customer c.id; paid_of c active

-- `_get_customer_and_paid_subscription`
unfoldable pub get_customer_and_paid_subscription :
    Uuid → PlanContext → (org : Option Uuid) → Action Paid
get_customer_and_paid_subscription u context org = do
  customer ← resolve_billing_customer u context org
  paid_by customer

-- The scope of a change: the context, and the org of a team.
pub record Scope : Type 0 where
  pub context : PlanContext
  pub org_id : Option Uuid

abbrev pub team_of : Option OrgMember → Action (Option Uuid)
team_of none = raise permission_denied
team_of (some m) = pure (some m.org_id)

-- `_require_billing_authority` and its async variant.
unfoldable pub require_billing_authority : Uuid → PlanContext → Action (Option Uuid)
require_billing_authority u PlanContext.personal = pure none
require_billing_authority u PlanContext.team = do
  member ← gets (λ db. least_member (select (is_billing_of u) db.members))
  team_of member

abbrev pub if_billing : (is_billing : Bool) → Uuid → Action Scope
if_billing false org = raise permission_denied
if_billing true org = pure (record { context = PlanContext.team; org_id = some org })

abbrev pub default_scope : Option OrgMember → Action Scope
default_scope none = pure (record { context = PlanContext.personal; org_id = none })
default_scope (some m) = if_billing m.is_billing m.org_id

abbrev pub scope_in : Uuid → Option PlanContext → Action Scope
scope_in u (some context) = do
  org ← require_billing_authority u context
  pure (record { context = context; org_id = org })
scope_in u none = do member ← gets (λ db. membership_of db u); default_scope member

-- `_resolve_mutation_context`
unfoldable pub resolve_mutation_context : (query : Option String) → Uuid → Action Scope
resolve_mutation_context query u = do
  explicit ← validate_subscription_context query
  scope_in u explicit

-- `_reject_seat_limit_below_member_count`
unfoldable pub reject_seat_limit_below_member_count : Uuid → ℕ → Action (Unit {0})
reject_seat_limit_below_member_count org seat_limit = do
  member_count ← gets (λ db. count (in_org org) db.members)
  raise_if (ltb seat_limit member_count) Exn.seats_below_member_count
