-- ===== src/Payments/Biller.antt =====
-- Whose customer a change of a subscription bills.
use saasmint_core.Base.{
  String, true, Option, none, some, ◌≡◌, refl, subst, first, any, select, first-test,
}
use saasmint_core.Domain.{Uuid, Subscription, StripeCustomer, PlanContext}
use saasmint_core.State.{World}
use saasmint_core.State.Finds.{Finds, >>=-Finds, pure-Finds, raise-Finds, gets-Finds}
use saasmint_core.Repositories.Customers
use saasmint_core.Repositories.Subscriptions
use saasmint_core.Payments.Access.{
  Paid, Scope, resolve_billing_customer, paid_by, paid_of, backed_by,
  get_customer_and_paid_subscription,
}
use saasmint_core.Payments.Authority.{is_billing_in, IsAllowed, own, billing}
use saasmint_core.Payments.Changes.{Prepared}

-- The user may bill a customer: it is the user's own, or that of the org of the scope, of which the
-- user is a billing member.
pub data IsBiller (u : Uuid) (w : World) (org : Option Uuid) (c : StripeCustomer) : Type 0 where
  by_self : Customers.has_user u c ≡ true → IsBiller u w org c
  by_org :
      (o : Uuid)
      → org ≡ some o
      → Customers.has_org o c ≡ true
      → any (is_billing_in u o) w.db.members ≡ true
      → IsBiller u w org c

-- The subscription is the active one of the customer, and it is Stripe's.
pub record IsCurrent (w : World) (p : Paid) : Type 0 where
  pub active :
      Subscriptions.only_or_latest
        (select (Subscriptions.active_for_customer p.customer.id) w.db.subscriptions)
      ≡ some p.sub
  pub in_stripe : p.sub.stripe_id ≡ some p.stripe_sub_id

pub record MayChange (u : Uuid) (w : World) (p : Prepared) : Type 0 where
  pub biller : IsBiller u w p.scope.org_id p.paid.customer
  pub current : IsCurrent w p.paid

module _ (u : Uuid) (w : World) where
  abbrev IsBillerIf : Option Uuid → Option StripeCustomer → Type 0
  IsBillerIf org none = Unit {0}
  IsBillerIf org (some c) = IsBiller u w org c

  own-IsBillerIf :
      (org : Option Uuid) (o : Option StripeCustomer)
      → first (Customers.has_user u) w.db.customers ≡ o
      → IsBillerIf org o
  own-IsBillerIf org none e = tt
  own-IsBillerIf org (some c) e = by_self (first-test (Customers.has_user u) w.db.customers e)

  org-IsBillerIf :
      (i : Uuid)
      → any (is_billing_in u i) w.db.members ≡ true
      → (o : Option StripeCustomer) → first (Customers.has_org i) w.db.customers ≡ o
      → IsBillerIf (some i) o
  org-IsBillerIf i h none e = tt
  org-IsBillerIf i h (some c) e =
      by_org i refl (first-test (Customers.has_org i) w.db.customers e) h

  customer-Finds :
      (context : PlanContext) (org : Option Uuid)
      → IsAllowed u w (record { context = context; org_id = org })
      → Finds (IsBillerIf org) (resolve_billing_customer u context org) w
  unfolding resolve_billing_customer Customers.get_by_user_id Customers.get_by_org_id
  customer-Finds PlanContext.personal org h =
      gets-Finds (λ db. first (Customers.has_user u) db.customers) (own-IsBillerIf org _ refl)
  customer-Finds PlanContext.team (some i) (own e) = absurd (cc)
  customer-Finds PlanContext.team (some i) (billing o c e h) =
      gets-Finds (λ db. first (Customers.has_org i) db.customers)
        (org-IsBillerIf i (subst (λ x. any (is_billing_in u x) w.db.members ≡ true) (cc) h) _ refl)
  customer-Finds PlanContext.team none (own e) = absurd (cc)
  customer-Finds PlanContext.team none (billing o c e h) = absurd (cc)

  abbrev pub IsPaid : Option Uuid → Paid → Type 0
  IsPaid org p = IsBiller u w org p.customer × IsCurrent w p

  backed-Finds :
      (org : Option Uuid) (c : StripeCustomer) (s : Subscription)
      → IsBiller u w org c
      → Subscriptions.only_or_latest
          (select (Subscriptions.active_for_customer c.id) w.db.subscriptions)
        ≡ some s
      → (k : Option String) → s.stripe_id ≡ k
      → Finds (IsPaid org) (backed_by c s k) w
  backed-Finds org c s h e none k = raise-Finds _
  backed-Finds org c s h e (some id) k =
      pure-Finds (record { customer = c; sub = s; stripe_sub_id = id })
        (h, record { active = e; in_stripe = k })

  paid_of-Finds :
      (org : Option Uuid) (c : StripeCustomer)
      → IsBiller u w org c
      → (o : Option Subscription)
      → Subscriptions.only_or_latest
          (select (Subscriptions.active_for_customer c.id) w.db.subscriptions)
        ≡ o
      → Finds (IsPaid org) (paid_of c o) w
  paid_of-Finds org c h none e = raise-Finds _
  paid_of-Finds org c h (some s) e = backed-Finds org c s h e s.stripe_id refl

  paid_by-Finds :
      (org : Option Uuid) (o : Option StripeCustomer)
      → IsBillerIf org o
      → Finds (IsPaid org) (paid_by o) w
  unfolding Subscriptions.get_active_for_customer
  paid_by-Finds org none h = raise-Finds _
  paid_by-Finds org (some c) h =
      >>=-Finds (Subscriptions.get_active_for_customer c.id) (paid_of c)
        (gets-Finds
          {Q = λ o.
            Subscriptions.only_or_latest
              (select (Subscriptions.active_for_customer c.id) w.db.subscriptions)
            ≡ o}
          _ refl)
        (paid_of-Finds org c h)

  pub customer_and_sub-Finds :
      (s : Scope)
      → IsAllowed u w s
      → Finds (IsPaid s.org_id) (get_customer_and_paid_subscription u s.context s.org_id) w
  unfolding get_customer_and_paid_subscription
  customer_and_sub-Finds s h =
      >>=-Finds (resolve_billing_customer u s.context s.org_id) paid_by
        (customer-Finds s.context s.org_id h) (paid_by-Finds s.org_id)
