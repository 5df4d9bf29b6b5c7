-- ===== src/Webhooks/Sync/Frame.antt =====
-- What the upsert keeps, and that it changes nothing when it raises.
use saasmint_core.Base.{Option, none, some, ◌≡◌, refl, ap}
use saasmint_core.Python.{Exn, Json, err}
use saasmint_core.Domain.{Subscription, StripeCustomer, PlanPrice}
use saasmint_core.State.{Env, World}
use saasmint_core.State.Rules.{
  Keeps, IsReadOnly, IsClean, >>=-IsClean, >>=-IsClean_last, pure-IsTotal, keeps, reads, cleans,
}
use saasmint_core.Repositories.Subscriptions
use saasmint_core.Repositories.Subscriptions.{has_id, has_stripe_id, overwrite}
use saasmint_core.Repositories.Subscriptions.Keys.{IsKeyed}
use saasmint_core.Repositories.Subscriptions.Save.{save_err, save-IsKeyed}
use saasmint_core.Webhooks.Read.{Header}
use saasmint_core.Webhooks.Sync.{
  keep, build_subscription_row, upsert_found, sync_subscription_from_data,
}

-- The keys of the subscriptions of a state.
abbrev pub Keyed : World → Type 0
Keyed w = IsKeyed w.db.subscriptions

keep-IsReadOnly : (existing : Option Subscription) → IsReadOnly (keep existing)
unfolding keep
keep-IsReadOnly none = record { run = λ w. refl }
keep-IsReadOnly (some s) = record { run = λ w. refl }

pub keep-Keeps : (existing : Option Subscription) → Keeps Keyed (keep existing)
unfolding keep
keep-Keeps none = record { run = λ w k. k }
keep-Keeps (some s) = record { run = λ w k. k }

pub save-Keeps : (s : Subscription) → Keeps Keyed (Subscriptions.save s)
save-Keeps s = record { run = save-IsKeyed s }

pub save-IsClean : (s : Subscription) → IsClean (Subscriptions.save s)
save-IsClean s = record { run = λ w e q. ap (λ (x : World). x.db) (save_err s w e q) }

-- What the saves and the kept columns keep, the upsert keeps.
module _ (P : World → Type 0) (saves : (s : Subscription) → Keeps P (Subscriptions.save s))
    (kept : (existing : Option Subscription) → Keeps P (keep existing)) (env : Env) (d : Json) where
  build-Keeps :
      (h : Header) (c : StripeCustomer) (p : PlanPrice) (existing : Option Subscription)
      → Keeps P (build_subscription_row env d h c p existing)
  unfolding build_subscription_row
  build-Keeps h c p existing = search (keeps, kept)

  upsert_found-Keeps :
      (h : Header) (c : Option StripeCustomer) (p : Option PlanPrice)
      (existing : Option Subscription)
      → Keeps P (upsert_found env d h c p existing)
  unfolding upsert_found
  upsert_found-Keeps h none p existing = search keeps
  upsert_found-Keeps h (some c) none existing = search keeps
  upsert_found-Keeps h (some c) (some p) existing = search (keeps, build-Keeps, saves)

  pub sync-Keeps : Keeps P (sync_subscription_from_data env d)
  unfolding sync_subscription_from_data
  sync-Keeps = search (keeps, upsert_found-Keeps)

module _ (env : Env) (d : Json) where
  build-IsReadOnly :
      (h : Header) (c : StripeCustomer) (p : PlanPrice) (existing : Option Subscription)
      → IsReadOnly (build_subscription_row env d h c p existing)
  unfolding build_subscription_row
  build-IsReadOnly h c p existing = search (reads, keep-IsReadOnly)

  upsert_found-IsClean :
      (h : Header) (c : Option StripeCustomer) (p : Option PlanPrice)
      (existing : Option Subscription)
      → IsClean (upsert_found env d h c p existing)
  unfolding upsert_found
  upsert_found-IsClean h none p existing = search cleans
  upsert_found-IsClean h (some c) none existing = search cleans
  upsert_found-IsClean h (some c) (some p) existing =
      search (>>=-IsClean, build-IsReadOnly, >>=-IsClean_last, save-IsClean, pure-IsTotal)

  sync-IsClean : IsClean (sync_subscription_from_data env d)
  unfolding sync_subscription_from_data
  sync-IsClean = search (cleans, upsert_found-IsClean)

  -- Whatever the data, and whether or not the upsert raises, it keeps the ids and the Stripe ids
  -- of the subscriptions unique.
  pub sync-IsKeyed :
      (w : World)
      → IsKeyed w.db.subscriptions
      → IsKeyed (sync_subscription_from_data env d w).1.db.subscriptions
  sync-IsKeyed w keyed = (sync-Keeps Keyed save-Keeps keep-Keeps env d).run w keyed

  -- An upsert that raises leaves the database as it was.
  pub sync_err_unchanged :
      (w : World) (e : Exn)
      → (sync_subscription_from_data env d w).0 ≡ err e
      → (sync_subscription_from_data env d w).1.db ≡ w.db
  sync_err_unchanged w e raised = sync-IsClean.run w e raised
