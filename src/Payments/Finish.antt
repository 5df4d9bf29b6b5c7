-- ===== src/Payments/Finish.antt =====
-- What the views do once the subscription is known is confined to it.
use saasmint_core.Base.{
  ℕ, String, Bool, true, false, Option, none, some, is_some, List, [], ◌∷◌, ◌≡◌, ap, sym, subst,
  ◌∙◌, select,
}
use saasmint_core.Python.{Result, ok, err}
use saasmint_core.Domain.{Uuid, Subscription, Plan, PlanContext, User}
use saasmint_core.State.{Env, World, Action, Task, enqueue, pure, gets, ◌>>=◌, ◌>>◌}
use saasmint_core.State.Rules.{Keeps, keeps}
use saasmint_core.Repositories.Subscriptions
use saasmint_core.Billing.Cancel.{
  backed, cancel_found, resume_found, release_found, cancel_subscription, resume_subscription,
  release_pending_schedule_for_customer,
}
use saasmint_core.Plans.{update_seat_count}
use saasmint_core.Payments.Prices.{
  PricedPlan, validate_quantity, resolve_billing_currency, resolve_requested,
  resolve_plan_change_price, localized_or_invalid, if_full,
}
use saasmint_core.Payments.Access.{Paid, Scope, reject_seat_limit_below_member_count}
use saasmint_core.Payments.Biller.{IsCurrent}
use saasmint_core.Payments.Confined.{IsConfined}
use saasmint_core.Payments.Confinement.{
  P, start, cancel-Keeps, resume-Keeps, release_found-Keeps, change_plan-Keeps, seat_count-Keeps,
}
use saasmint_core.Payments.Changes.{
  Update, Prepared, billing_notice_recipients, refetch_subscription, sub_or_404, plan_name_of,
  notify, notify_of_toggle, notify_of_cancel, check_seats, check_plan_seats, apply_cancel_toggle,
  apply_plan_change, apply_seat_only, apply_update, finish_update, finish_cancel, finish_release,
}

-- A block after a first action, from a certain state.
module _ {A B : Type 0} (Q : World → Type 0) (f : A → Action B) (k : (a : A) → Keeps Q (f a)) where
  then-holds : (r : Result A) (w w0 : World) → Q w → Q (((λ _. (r, w)) >>= f) w0).1
  then-holds (ok a) w w0 h = (k a).run w h
  then-holds (err e) w w0 h = h

module _ (env : Env) (currencies : List String) (w : World) (paid : Paid) where
  abbrev Q : World → Type 0
  Q = P w paid.sub paid.stripe_sub_id

  enqueue-Keeps : (t : Task) → Keeps Q (enqueue t)
  enqueue-Keeps t = record {
    run = λ u h. record { spared = h.spared; tables = h.tables; requests = h.requests };
  }

  -- What only reads, raises or queues a notice.
  currency-Keeps :
      (query : Option String) (user : User)
      → Keeps Q (resolve_billing_currency env currencies query user)
  unfolding resolve_billing_currency
  currency-Keeps query user = go (if_full query)
    where
      go : (o : Option String) → Keeps Q (resolve_requested env currencies o user)
      go none = search keeps
      go (some c) = search keeps

  sub-Keeps : (o : Option Subscription) → Keeps Q (sub_or_404 o)
  sub-Keeps none = search keeps
  sub-Keeps (some s) = search keeps

  refetch-Keeps : (u : Uuid) (context : PlanContext) → Keeps Q (refetch_subscription u context)
  unfolding refetch_subscription
  refetch-Keeps u context = search (keeps, sub-Keeps)

  name-Keeps : (o : Option Plan) → Keeps Q (plan_name_of o)
  name-Keeps none = search keeps
  name-Keeps (some p) = search keeps

  notify-Keeps :
      (rs : List String) (action : String) (s : Subscription) → Keeps Q (notify rs action s)
  notify-Keeps [] action s = search keeps
  notify-Keeps (r ∷ rs) action s = search (keeps, name-Keeps, enqueue-Keeps)

  toggle-Keeps :
      (o : Option Bool) (user : User) (org : Option Uuid) (s : Subscription)
      → Keeps Q (notify_of_toggle o user org s)
  toggle-Keeps none user org s = search keeps
  toggle-Keeps (some b) user org s = search (keeps, notify-Keeps)

  canceled-Keeps :
      (rs : List String) (user : User) (query : Option String) (scope : Scope)
      → Keeps Q (notify_of_cancel env currencies rs user query scope)
  canceled-Keeps [] user query scope = search keeps
  canceled-Keeps (r ∷ rs) user query scope =
      search (keeps, currency-Keeps, refetch-Keeps, notify-Keeps) depth 20

  members-Keeps : (o : Uuid) (n : ℕ) → Keeps Q (reject_seat_limit_below_member_count o n)
  unfolding reject_seat_limit_below_member_count
  members-Keeps o n = search keeps

  seats-Keeps : (n : Option ℕ) (o : Option Uuid) → Keeps Q (check_seats n o)
  seats-Keeps (some n) (some o) = members-Keeps o n
  seats-Keeps (some n) none = search keeps
  seats-Keeps none (some o) = search keeps
  seats-Keeps none none = search keeps

  quantity-Keeps : (context : PlanContext) (n : ℕ) → Keeps Q (validate_quantity context n)
  unfolding validate_quantity
  quantity-Keeps PlanContext.personal n = search keeps
  quantity-Keeps PlanContext.team n = search keeps

  plan_seats-Keeps : (o : Option Plan) (n : ℕ) → Keeps Q (check_plan_seats o n)
  plan_seats-Keeps none n = search keeps
  plan_seats-Keeps (some p) n = search (keeps, quantity-Keeps)

  localized-Keeps : (o : Option String) (n : ℕ) → Keeps Q (localized_or_invalid o n)
  localized-Keeps none n = search keeps
  localized-Keeps (some i) n = search keeps

  price-Keeps : (p : _) (c : String) → Keeps Q (resolve_plan_change_price p c)
  unfolding resolve_plan_change_price
  price-Keeps p c = search (keeps, localized-Keeps)

  -- The branches that change.
  plan-Keeps :
      (p : PricedPlan) (n : Option ℕ) (b : Bool) (o : Option Uuid)
      → Keeps Q (apply_plan_change env currencies paid p n b o)
  unfolding apply_plan_change
  plan-Keeps p n b o = search (keeps, price-Keeps, seats-Keeps, change_plan-Keeps) depth 20

  module _ (current : IsCurrent w paid) where
    count-Keeps : (n : ℕ) → Keeps Q (update_seat_count env paid.sub n)
    count-Keeps = seat_count-Keeps w paid.sub paid.stripe_sub_id env current.in_stripe

    seat_only-Keeps : (n : ℕ) (o : Option Uuid) → Keeps Q (apply_seat_only env currencies paid n o)
    unfolding apply_seat_only
    seat_only-Keeps n o = search (keeps, plan_seats-Keeps, seats-Keeps, count-Keeps) depth 20

    -- The customer's subscription is the one that was looked up.
    active_backed :
        backed (
          Subscriptions.only_or_latest
            (select (Subscriptions.active_for_customer paid.customer.id) w.db.subscriptions))
        ≡ some (paid.sub, paid.stripe_sub_id)
    active_backed =
        ap backed current.active
        ∙ ap (λ k. elim k [ none ↦ none | some i ↦ some (paid.sub, i) ]) current.in_stripe

    cancel-holds : (b : Bool) → Q (cancel_subscription env paid.customer.id b w).1
    unfolding cancel_subscription Subscriptions.get_active_for_customer
    cancel-holds b =
        subst (λ o. Q (cancel_found env b o w).1) (sym active_backed)
          ((cancel-Keeps w paid.sub paid.stripe_sub_id env b
              (is_some paid.sub.scheduled_plan_id)).run
            w (start w paid.sub paid.stripe_sub_id))

    resume-holds : Q (resume_subscription env paid.customer.id w).1
    unfolding resume_subscription Subscriptions.get_active_for_customer
    resume-holds =
        subst (λ o. Q (resume_found env o w).1) (sym active_backed)
          ((resume-Keeps w paid.sub paid.stripe_sub_id env).run w
            (start w paid.sub paid.stripe_sub_id))

    release-holds : Q (release_pending_schedule_for_customer env paid.customer.id w).1
    unfolding release_pending_schedule_for_customer Subscriptions.get_active_for_customer
    release-holds =
        subst (λ o. Q (release_found env o w).1) (sym active_backed)
          ((release_found-Keeps w paid.sub paid.stripe_sub_id env).run w
            (start w paid.sub paid.stripe_sub_id))

    update-holds :
        (cancel : Option Bool) (plan : Option PricedPlan) (seats : Option ℕ) (prorate : Bool)
        (scope : Scope)
        → Q (apply_update env currencies cancel plan seats prorate scope paid w).1
    unfolding apply_cancel_toggle
    update-holds (some true) plan seats prorate scope = cancel-holds true
    update-holds (some false) plan seats prorate scope = resume-holds
    update-holds none (some p) seats prorate scope =
        (plan-Keeps p seats prorate scope.org_id).run w (start w paid.sub paid.stripe_sub_id)
    update-holds none none (some n) prorate scope =
        (seat_only-Keeps n scope.org_id).run w (start w paid.sub paid.stripe_sub_id)
    update-holds none none none prorate scope = start w paid.sub paid.stripe_sub_id

-- What each of the views does once the subscription is known.
module _ (env : Env) (currencies : List String) (w : World) (p : Prepared)
    (current : IsCurrent w p.paid) where
  pub finish_update-IsConfined :
      (user : User) (r : Update)
      → IsConfined p.paid.sub.id p.paid.stripe_sub_id w (finish_update env currencies user r p w).1
  unfolding finish_update
  finish_update-IsConfined user r =
      then-holds (Q env currencies w p.paid) rest
        (λ _. search (keeps, currency-Keeps, refetch-Keeps, toggle-Keeps) depth 20) change.0
        change.1 w
        (update-holds env currencies w p.paid current r.cancel_at_period_end p.plan r.seat_limit
          r.prorate p.scope)
    where
      change : Result (Unit {0}) × World
      change =
          apply_update env currencies r.cancel_at_period_end p.plan r.seat_limit r.prorate p.scope
            p.paid w

      rest : Unit {0} → Action Subscription
      rest _ = do
        resolve_billing_currency env currencies r.currency user
        sub ← refetch_subscription user.id p.scope.context
        notify_of_toggle r.cancel_at_period_end user p.scope.org_id sub
        pure sub

  pub finish_cancel-IsConfined :
      (user : User) (query : Option String)
      → IsConfined p.paid.sub.id p.paid.stripe_sub_id w
          (finish_cancel env currencies user query p w).1
  unfolding finish_cancel
  finish_cancel-IsConfined user query =
      then-holds (Q env currencies w p.paid) rest (λ _. search (keeps, canceled-Keeps) depth 20)
        (cancel_subscription env p.paid.customer.id true w).0
        (cancel_subscription env p.paid.customer.id true w).1 w
        (cancel-holds env currencies w p.paid current true)
    where
      rest : Unit {0} → Action (Unit {0})
      rest _ = do
        recipients ← gets (λ db. billing_notice_recipients db user p.scope.org_id)
        notify_of_cancel env currencies recipients user query p.scope

  pub finish_release-IsConfined :
      IsConfined p.paid.sub.id p.paid.stripe_sub_id w (finish_release env currencies p w).1
  unfolding finish_release
  finish_release-IsConfined = release-holds env currencies w p.paid current
