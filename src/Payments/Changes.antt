-- ===== src/Payments/Changes.antt =====
-- Changes of a subscription: `SubscriptionView` and `ScheduledChangeView` of apps/billing/views.py.
use saasmint_core.Base.{
  ℕ, ◌==◌, String, Bool, true, false, not, ◌&&◌, ◌||◌, Option, none, some, List, [], ◌∷◌, first,
  any, select, if◌then◌else◌,
}
use saasmint_core.Python.{Exn}
use saasmint_core.Domain.{Uuid, Subscription, StripeCustomer, OrgMember, Plan, PlanContext, User}
use saasmint_core.State.{Env, Db, Action, Task, pure, raise, gets, enqueue, ◌>>=◌, ◌>>◌}
use saasmint_core.Repositories.Customers
use saasmint_core.Repositories.Subscriptions
use saasmint_core.Orgs.Invitations.{customer_has_org}
use saasmint_core.Accounts.Users.{has_id}
use saasmint_core.Billing.Cancel.{
  cancel_subscription, resume_subscription, release_pending_schedule_for_customer,
}
use saasmint_core.Plans.{change_plan, update_seat_count}
use saasmint_core.Payments.Prices.{
  PricedPlan, not_found_error, has_plan_id, resolve_billing_currency, resolve_plan_change_price,
  validate_quantity, get_active_plan_price,
}
use saasmint_core.Payments.Access.{
  Paid, Scope, membership_of, get_customer_and_paid_subscription, resolve_mutation_context,
  reject_seat_limit_below_member_count,
}

-- The validated data of `UpdateSubscriptionSerializer`, with the query of the request.
pub record Update : Type 0 where
  pub plan_price_id : Option Uuid
  pub seat_limit : Option ℕ
  pub cancel_at_period_end : Option Bool
  pub prorate : Bool
  pub context : Option String
  pub currency : Option String

-- The subscription that the org's members see, and the caller's own.
abbrev pub team_sub : Db → Option OrgMember → Option Subscription
team_sub db none = none
team_sub db (some m) =
    Subscriptions.latest
      (select (λ s. Subscriptions.is_active s && customer_has_org db m.org_id s) db.subscriptions)

abbrev pub personal_sub : Db → Uuid → Option Subscription
personal_sub db u = Subscriptions.latest (
    select
      (λ s.
        Subscriptions.is_active s
        && (Subscriptions.has_user u s || Subscriptions.customer_has_user db u s))
      db.subscriptions)

abbrev pub both : Option Subscription → Option Subscription → List Subscription
both none none = []
both none (some p) = p ∷ []
both (some t) none = t ∷ []
both (some t) (some p) = if p.id == t.id then t ∷ [] else t ∷ p ∷ []

-- `_get_active_subscriptions_for_user`
unfoldable pub get_active_subscriptions_for_user : Db → Uuid → List Subscription
get_active_subscriptions_for_user db u = both (team_sub db (membership_of db u)) (personal_sub db u)

-- The customer of a subscription has an org.
abbrev pub is_of_team : Db → Subscription → Bool
is_of_team db s = elim s.stripe_customer_id [
  | none ↦ false
  | some c ↦
      any
        (λ (row : StripeCustomer).
          Customers.has_id c row && (elim row.org_id [ none ↦ false | some o ↦ true ]))
        db.customers
]

abbrev pub in_context : Db → PlanContext → Subscription → Bool
in_context db PlanContext.team s = is_of_team db s
in_context db PlanContext.personal s = not (is_of_team db s)

abbrev pub sub_or_404 : Option Subscription → Action Subscription
sub_or_404 none = raise not_found_error
sub_or_404 (some s) = pure s

-- `_refetch_subscription_after_mutation`
unfoldable pub refetch_subscription : Uuid → PlanContext → Action Subscription
refetch_subscription u context = do
  found ← gets (λ db. first (in_context db context) (get_active_subscriptions_for_user db u))
  sub_or_404 found

abbrev pub emails_of : Db → List OrgMember → List String
emails_of db [] = []
emails_of db (m ∷ ms) = elim (first (has_id m.user_id) db.users) [
  | none ↦ emails_of db ms
  | some u ↦ u.email ∷ emails_of db ms
]

-- `_billing_notice_recipients`
unfoldable pub billing_notice_recipients : Db → User → (org : Option Uuid) → List String
billing_notice_recipients db user none = user.email ∷ []
billing_notice_recipients db user (some o) =
    emails_of db (select (λ (m : OrgMember). m.org_id == o && m.is_billing) db.members)

abbrev pub plan_name_of : Option Plan → Action String
plan_name_of none = raise Exn.does_not_exist
plan_name_of (some p) = pure p.name

-- `sub.plan.name`
abbrev pub plan_name : Subscription → Action String
plan_name s = do plan ← gets (λ db. first (has_plan_id s.plan_id) db.plans); plan_name_of plan

-- The notice is queued where it has a recipient.
abbrev pub notify : List String → (action : String) → Subscription → Action (Unit {0})
notify [] action s = pure tt
notify (r ∷ rs) action s = do
  name ← plan_name s
  enqueue (Task.send_cancel_notice (r ∷ rs) name action)

abbrev pub action_of : (cancel_at_period_end : Bool) → String
action_of true = "scheduled"
action_of false = "resumed"

abbrev pub notify_of_toggle :
    Option Bool → User → (org : Option Uuid) → Subscription → Action (Unit {0})
notify_of_toggle none user org s = pure tt
notify_of_toggle (some cancel) user org s = do
  recipients ← gets (λ db. billing_notice_recipients db user org)
  notify recipients (action_of cancel) s

-- The plan that a request names.
abbrev pub plan_if_given : Option Uuid → Action (Option PricedPlan)
plan_if_given none = pure none
plan_if_given (some i) = do p ← get_active_plan_price i; pure (some p)

abbrev pub check_quantity : Option PricedPlan → (seat_limit : Option ℕ) → Action (Unit {0})
check_quantity (some p) (some seats) = do validate_quantity p.plan.context seats; pure tt
check_quantity _ _ = pure tt

abbrev pub check_seats : (seat_limit : Option ℕ) → (org : Option Uuid) → Action (Unit {0})
check_seats (some seats) (some o) = reject_seat_limit_below_member_count o seats
check_seats _ _ = pure tt

abbrev pub check_plan_seats : Option Plan → ℕ → Action (Unit {0})
check_plan_seats none seats = raise Exn.does_not_exist
check_plan_seats (some p) seats = do validate_quantity p.context seats; pure tt

-- What a change starts from: its scope, its plan and the subscription.
pub record Prepared : Type 0 where
  pub scope : Scope
  pub plan : Option PricedPlan
  pub paid : Paid

unfoldable pub prepare_update : User → Update → Action Prepared
prepare_update user u = do
  scope ← resolve_mutation_context u.context user.id
  plan ← plan_if_given u.plan_price_id
  check_quantity plan u.seat_limit
  paid ← get_customer_and_paid_subscription user.id scope.context scope.org_id
  pure (record { scope = scope; plan = plan; paid = paid })

-- The scope and the subscription of a request without data.
unfoldable pub prepare : User → (context : Option String) → Action Prepared
prepare user context = do
  scope ← resolve_mutation_context context user.id
  paid ← get_customer_and_paid_subscription user.id scope.context scope.org_id
  pure (record { scope = scope; plan = none; paid = paid })

module _ (env : Env) (billing_currencies : List String) where
  -- `_apply_cancel_toggle`
  unfoldable pub apply_cancel_toggle : StripeCustomer → Bool → Action (Unit {0})
  apply_cancel_toggle c true = cancel_subscription env c.id true
  apply_cancel_toggle c false = resume_subscription env c.id

  -- `_apply_plan_change`
  unfoldable pub apply_plan_change :
      Paid
      → PricedPlan
      → (seat_limit : Option ℕ) → (prorate : Bool) → (org : Option Uuid) → Action (Unit {0})
  apply_plan_change paid p seat_limit prorate org = do
    new ← resolve_plan_change_price p.price paid.sub.currency
    check_seats seat_limit org
    change_plan env paid.stripe_sub_id new.0 (some new.1) prorate seat_limit

  -- `_apply_seat_only`
  unfoldable pub apply_seat_only : Paid → ℕ → (org : Option Uuid) → Action (Unit {0})
  apply_seat_only paid seats org = do
    plan ← gets (λ db. first (has_plan_id paid.sub.plan_id) db.plans)
    check_plan_seats plan seats
    check_seats (some seats) org
    update_seat_count env paid.sub seats

  -- The branches of `_do`.
  abbrev pub apply_update :
      (cancel : Option Bool)
      → Option PricedPlan
      → (seat_limit : Option ℕ) → (prorate : Bool) → Scope
      → Paid
      → Action (Unit {0})
  apply_update (some cancel) p seat_limit prorate scope paid =
      apply_cancel_toggle paid.customer cancel
  apply_update none (some p) seat_limit prorate scope paid =
      apply_plan_change paid p seat_limit prorate scope.org_id
  apply_update none none (some seats) prorate scope paid = apply_seat_only paid seats scope.org_id
  apply_update none none none prorate scope paid = pure tt

  -- The request once its subscription is known.
  unfoldable pub finish_update : User → Update → Prepared → Action Subscription
  finish_update user u p = do
    apply_update u.cancel_at_period_end p.plan u.seat_limit u.prorate p.scope p.paid
    resolve_billing_currency env billing_currencies u.currency user
    sub ← refetch_subscription user.id p.scope.context
    notify_of_toggle u.cancel_at_period_end user p.scope.org_id sub
    pure sub

  -- `SubscriptionView.patch`
  unfoldable pub update_subscription : User → Update → Action Subscription
  update_subscription user u = do p ← prepare_update user u; finish_update user u p

  abbrev pub notify_of_cancel :
      List String → User → (currency : Option String) → Scope → Action (Unit {0})
  notify_of_cancel [] user currency scope = pure tt
  notify_of_cancel (r ∷ rs) user currency scope = do
    resolve_billing_currency env billing_currencies currency user
    sub ← refetch_subscription user.id scope.context
    notify (r ∷ rs) "scheduled" sub

  unfoldable pub finish_cancel : User → (currency : Option String) → Prepared → Action (Unit {0})
  finish_cancel user currency p = do
    cancel_subscription env p.paid.customer.id true
    recipients ← gets (λ db. billing_notice_recipients db user p.scope.org_id)
    notify_of_cancel recipients user currency p.scope

  -- `SubscriptionView.delete`
  unfoldable pub delete_subscription : User → (context currency : Option String) → Action (Unit {0})
  delete_subscription user context currency = do
    p ← prepare user context
    finish_cancel user currency p

  unfoldable pub finish_release : Prepared → Action (Unit {0})
  finish_release p = release_pending_schedule_for_customer env p.paid.customer.id

  -- `ScheduledChangeView.delete`
  unfoldable pub delete_scheduled_change : User → (context : Option String) → Action (Unit {0})
  delete_scheduled_change user context = do p ← prepare user context; finish_release p
