-- ===== src/Webhooks/Dispatch/Frame.antt =====
-- What the saves, the kept columns and the callbacks keep, every event keeps.
use saasmint_core.Base.{ℕ, Option-cases, String, Option, none, some, inl, inr}
use saasmint_core.Python.{Json}
use saasmint_core.Domain.{Uuid, Subscription, StripeCustomer, PlanPrice}
use saasmint_core.State.{Env, World, Action}
use saasmint_core.State.Rules.{Keeps, keeps}
use saasmint_core.Repositories.Customers
use saasmint_core.Repositories.Subscriptions
use saasmint_core.Webhooks.Sync.{
  OnCanceled, keep, call_if_set, deactivate, deactivate_org, delete_known, on_subscription_deleted,
}
use saasmint_core.Webhooks.Sync.Frame.{sync-Keeps}
use saasmint_core.Webhooks.Schedules.{
  mirror, mirror_price, mirror_pending, clear, on_subscription_schedule_upserted,
  on_subscription_schedule_cleared,
}
use saasmint_core.Webhooks.Dispatch.{Route, payload_object, on_invoice, handle, dispatch}
use saasmint_core.Webhooks.Checkout.{
  Callbacks, TeamCheckout, call_back, grant, grant_to, read_user, team_checkout,
  on_product_checkout_completed, on_checkout_completed,
}

-- The callback, if it is set, keeps `P`.
abbrev pub CallbackKeeps : (World → Type 0) → {A : Type 0} → Option (A → Action (Unit {0})) → Type 0
CallbackKeeps P none = Unit
CallbackKeeps P {A} (some callback) = (a : A) → Keeps P (callback a)

-- Every callback that is set keeps `P`.
pub record CallbacksKeep (P : World → Type 0) (c : Callbacks) : Type 0 where
  pub team : CallbackKeeps P c.on_team_checkout_completed
  pub canceled : CallbackKeeps P c.on_org_subscription_canceled
  pub product : CallbackKeeps P c.on_product_checkout_completed

module _ (P : World → Type 0) (saves : (s : Subscription) → Keeps P (Subscriptions.save s))
    (kept : (existing : Option Subscription) → Keeps P (keep existing)) where
  module _ (env : Env) where
    mirror-Keeps :
        (plan at : ℕ) (existing : Option Subscription) → Keeps P (mirror plan at existing)
    mirror-Keeps plan at none = search keeps
    mirror-Keeps plan at (some s) = search (keeps, saves)

    mirror_price-Keeps :
        (id : String) (at : ℕ) (price : Option PlanPrice) → Keeps P (mirror_price id at price)
    unfolding Subscriptions.get_by_stripe_id
    mirror_price-Keeps id at none = search keeps
    mirror_price-Keeps id at (some price) = search (keeps, mirror-Keeps)

    mirror_pending-Keeps :
        (id : String) (pending : Option (String × ℕ)) → Keeps P (mirror_pending id pending)
    unfolding Subscriptions.get_price_by_stripe_id
    mirror_pending-Keeps id none = search keeps
    mirror_pending-Keeps id (some (price_id, at)) = search (keeps, mirror_price-Keeps)

    upserted-Keeps : (d : Json) → Keeps P (on_subscription_schedule_upserted env d)
    unfolding on_subscription_schedule_upserted
    upserted-Keeps d = search (keeps, mirror_pending-Keeps)

    clear-Keeps : (existing : Option Subscription) → Keeps P (clear existing)
    clear-Keeps none = search keeps
    clear-Keeps (some s) = search (keeps, saves)

    cleared-Keeps : (d : Json) → Keeps P (on_subscription_schedule_cleared env d)
    unfolding on_subscription_schedule_cleared Subscriptions.get_by_stripe_id
    cleared-Keeps d = search (keeps, clear-Keeps)

  call_back-Keeps :
      {A : Type 0} (callback : Option (A → Action (Unit {0}))) (a : A)
      → CallbackKeeps P callback
      → Keeps P (call_back callback a)
  call_back-Keeps none a h = search keeps
  call_back-Keeps (some callback) a h = h a

  module _ (callback : OnCanceled) (keeps_it : CallbackKeeps P callback) where
    call_if_set-Keeps : (org : Uuid) → Keeps P (call_if_set callback org)
    call_if_set-Keeps org = go callback keeps_it
      where
        go : (c : OnCanceled) → CallbackKeeps P c → Keeps P (call_if_set c org)
        go none h = search keeps
        go (some f) h = h org

    deactivate-Keeps : (c : Option StripeCustomer) → Keeps P (deactivate callback c)
    deactivate-Keeps none = search keeps
    deactivate-Keeps (some c) = elim (Option-cases c.org_id) [
      | inl e ↦ rw e (search keeps)
      | inr (org, e) ↦ rw e (call_if_set-Keeps org)
    ]

    deactivate_org-Keeps : (s : Subscription) → Keeps P (deactivate_org callback s)
    unfolding deactivate_org Customers.get_by_id
    deactivate_org-Keeps s = elim (Option-cases s.stripe_customer_id) [
      | inl e ↦ rw e (search keeps)
      | inr (i, e) ↦ rw e (search (keeps, deactivate-Keeps))
    ]

    delete_known-Keeps : (s : Option Subscription) → Keeps P (delete_known callback s)
    delete_known-Keeps none = search keeps
    delete_known-Keeps (some s) = search (keeps, saves, deactivate_org-Keeps)

    deleted-Keeps : (env : Env) (d : Json) → Keeps P (on_subscription_deleted env callback d)
    unfolding on_subscription_deleted Subscriptions.get_by_stripe_id
    deleted-Keeps env d = search (keeps, delete_known-Keeps)

  module _ (env : Env) (c : Callbacks) (held : CallbacksKeep P c) where
    grant-Keeps :
        (session : String) (ids : Option (Uuid × Uuid)) (org : Option (Option Uuid))
        → Keeps P (grant env c session ids org)
    grant-Keeps session none org = search keeps
    grant-Keeps session (some (p, u)) none = search keeps
    grant-Keeps session (some (p, u)) (some org) =
        call_back-Keeps c.on_product_checkout_completed _ held.product

    grant_to-Keeps :
        (session : String) (metadata : Json) (ids : Option (Uuid × Uuid))
        → Keeps P (grant_to env c session metadata ids)
    grant_to-Keeps session metadata none = search keeps
    grant_to-Keeps session metadata (some ids) = search (keeps, grant-Keeps)

    read_user-Keeps : (p : Option Uuid) (v : Json) → Keeps P (read_user env c p v)
    read_user-Keeps none v = search keeps
    read_user-Keeps (some p) v = search keeps

    product-Keeps : (session : Json) → Keeps P (on_product_checkout_completed env c session)
    unfolding on_product_checkout_completed
    product-Keeps session = search (keeps, read_user-Keeps, grant_to-Keeps) depth 20

    team-Keeps :
        (session metadata org_name client_ref : Json)
        → Keeps P (team_checkout env c session metadata org_name client_ref)
    team-Keeps session metadata org_name client_ref =
        search
          (keeps, λ (t : TeamCheckout). call_back-Keeps c.on_team_checkout_completed t held.team)
          depth 20

    checkout-Keeps : (session : Json) → Keeps P (on_checkout_completed env c session)
    unfolding on_checkout_completed
    checkout-Keeps session = search (keeps, product-Keeps, team-Keeps) depth 20

    object-Keeps : (event : Json) → Keeps P (payload_object event)
    unfolding payload_object
    object-Keeps event = search keeps

    handle-Keeps : (r : Route) (event : Json) → Keeps P (handle env c r event)
    unfolding on_invoice
    handle-Keeps Route.checkout event = search (keeps, object-Keeps, checkout-Keeps)
    handle-Keeps Route.sync event = search (keeps, object-Keeps, sync-Keeps P saves kept env)
    handle-Keeps Route.deleted event =
        search (keeps, object-Keeps, deleted-Keeps c.on_org_subscription_canceled held.canceled env)
    handle-Keeps Route.schedule_upserted event = search (keeps, object-Keeps, upserted-Keeps)
    handle-Keeps Route.schedule_cleared event = search (keeps, object-Keeps, cleared-Keeps)
    handle-Keeps Route.invoice event = search (keeps, object-Keeps)
    handle-Keeps Route.unhandled event = search keeps

    pub dispatch-Keeps : (event : Json) → Keeps P (dispatch env c event)
    unfolding dispatch
    dispatch-Keeps event = search (keeps, handle-Keeps)
