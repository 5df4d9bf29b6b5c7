-- ===== src/Webhooks/Sync/Deletion.antt =====
-- What the deletion of a subscription stores.
use saasmint_core.Base.{
  Option, none, some, ◌≡◌, refl, sym, subst, ap, ◌∙◌, String, first, inl, inr, Bool-cases, false,
  is_some, first_same, first-update_one, first-test, ==_refl,
}
use saasmint_core.Python.{Json, Result, ok, err, index}
use saasmint_core.Values.{to_text}
use saasmint_core.Domain.{Uuid, Subscription, SubscriptionStatus, StripeCustomer}
use saasmint_core.State.{Env, World, pure, lift, gets, ◌>>=◌, ◌>>◌}
use saasmint_core.State.Rules.{Keeps, keeps, if-Keeps}
use saasmint_core.Repositories.Customers
use saasmint_core.Repositories.Subscriptions
use saasmint_core.Repositories.Subscriptions.{has_id, has_stripe_id, overwrite, violates}
use saasmint_core.Repositories.Subscriptions.Keys.{IsKeyed}
use saasmint_core.Repositories.Subscriptions.Save.{save_refused, save_known}
use saasmint_core.Webhooks.Sync.{
  OnCanceled, call_if_set, deactivate, deactivate_org, canceled_row, delete_known,
  on_subscription_deleted,
}

-- The row under a Stripe id.
abbrev pub Has : String → Subscription → World → Type 0
Has key row w = first (has_stripe_id key) w.db.subscriptions ≡ some row

module _ (callback : OnCanceled) (Q : World → Type 0)
    (kept : (org : Uuid) → Keeps Q (call_if_set callback org)) where
  customer-Keeps : (o : Option StripeCustomer) → Keeps Q (deactivate callback o)
  customer-Keeps none = search keeps
  customer-Keeps (some c) = go c.org_id
    where
      go :
          (o : Option Uuid)
          → Keeps {A = Unit {0}} Q (elim o [ none ↦ pure tt | some org ↦ call_if_set callback org ])
      go none = search keeps
      go (some org) = kept org

  deactivate-Keeps : (s : Subscription) → Keeps Q (deactivate_org callback s)
  unfolding deactivate_org Customers.get_by_id
  deactivate-Keeps s = if-Keeps (is_some s.user_id) (search keeps) (go s.stripe_customer_id)
    where
      go :
          (o : Option Uuid)
          → Keeps {A = Unit {0}} Q (elim o [
            | none ↦ pure tt
            | some id ↦ (do customer ← Customers.get_by_id id; deactivate callback customer)
          ])
      go none = search keeps
      go (some id) = search (keeps, customer-Keeps)

module _ (callback : OnCanceled) (key : String) (s : Subscription) (w : World)
    (keyed : IsKeyed w.db.subscriptions)
    (found : first (has_stripe_id key) w.db.subscriptions ≡ some s)
    (kept : (org : Uuid)
      → Keeps
          (Has key (record s { status = SubscriptionStatus.canceled; canceled_at = some w.clock }))
          (call_if_set callback org)) where
  abbrev row : Subscription
  row = canceled_row s w.clock

  saved : violates row w.db ≡ false → Has key row (Subscriptions.save row w).1
  saved good =
      ap (λ (p : Result Subscription × World). first (has_stripe_id key) p.1.db.subscriptions)
        (save_known row w good by_id)
      ∙ first-update_one (has_stripe_id key) (has_id s.id) (overwrite row) w.db.subscriptions found
          (==_refl s.id) (first-test (has_stripe_id key) w.db.subscriptions found) (keyed.ids s.id)
    where
      by_id : first (has_id s.id) w.db.subscriptions ≡ some s
      by_id =
          first_same (has_stripe_id key) (has_id s.id) w.db.subscriptions found (==_refl s.id)
            (keyed.ids s.id)

  stored :
      (delete_known callback (some s) w).0 ≡ ok tt
      → Has key row (delete_known callback (some s) w).1
  stored = go (Subscriptions.save row w) refl
    where
      after_save : Result Subscription × World → Result (Unit {0}) × World
      after_save p = ((λ _. p) >> deactivate_org callback s) w

      go :
          (p : Result Subscription × World)
          → Subscriptions.save row w ≡ p
          → (after_save p).0 ≡ ok tt
          → Has key row (after_save p).1
      go (err x, u) e q = cc
      go (ok x, u) e q = elim (Bool-cases (violates row w.db)) [
        | inl bad ↦ let refused = save_refused row w bad in cc
        | inr good ↦
            (deactivate-Keeps callback (Has key row) kept s).run u
              (subst (λ p. Has key row p.1) e (saved good))
      ]

-- A deletion that returns, of a subscription that is in a table with unique keys, leaves its row
-- canceled, at the time of the deletion, and otherwise as it was, if the callback of an org keeps
-- that row.
pub deletion_stores :
    (env : Env) (callback : OnCanceled) (d id : Json) (s : Subscription) (w : World)
    → index d "id" ≡ ok id
    → IsKeyed w.db.subscriptions
    → first (has_stripe_id (to_text env id)) w.db.subscriptions ≡ some s
    → ((org : Uuid)
        → Keeps
            (Has
              (to_text env id)
              (record s { status = SubscriptionStatus.canceled; canceled_at = some w.clock }))
            (call_if_set callback org))
    → (on_subscription_deleted env callback d w).0 ≡ ok tt
    → first
        (has_stripe_id (to_text env id))
        (on_subscription_deleted env callback d w).1.db.subscriptions
      ≡ some (record s { status = SubscriptionStatus.canceled; canceled_at = some w.clock })
unfolding on_subscription_deleted Subscriptions.get_by_stripe_id
deletion_stores env callback d id s w named keyed found kept returned =
    subst
      (λ (p : Result (Unit {0}) × World).
        p.0 ≡ ok tt → Has (to_text env id) (canceled_row s w.clock) p.1)
      (sym run) (stored callback (to_text env id) s w keyed found kept) returned
  where
    from : Result Json → Result (Unit {0}) × World
    from r =
        (lift r >>= (λ v.
            gets (λ db. first (has_stripe_id (to_text env v)) db.subscriptions)
            >>= delete_known callback))
          w

    run : from (index d "id") ≡ delete_known callback (some s) w
    run = ap from named ∙ ap (λ o. delete_known callback o w) found
