-- ===== src/Payments/Confined.antt =====
-- What a change of a subscription leaves alone: the other subscriptions, the other tables, and at
-- Stripe the subscriptions of others.
use saasmint_core.Base.{
  ℕ, String, false, ◌==◌, Option, none, some, List, [], ◌∷◌, ◌++◌, ◌≡◌, refl, arith, first, update,
  All,
}
use saasmint_core.Domain.{Uuid, Subscription}
use saasmint_core.State.{World, StripeCall}
use saasmint_core.Repositories.Subscriptions.{has_id, overwrite, upsert}

-- A request that changes or reads a subscription is about this one. A schedule belongs to the
-- subscription that Stripe's answers name.
abbrev pub IsAbout : String → StripeCall → Type 0
IsAbout id (StripeCall.subscription_retrieve i) = i ≡ id
IsAbout id (StripeCall.subscription_modify_cancel_at i cancel_at) = i ≡ id
IsAbout id (StripeCall.subscription_modify_item i item proration) = i ≡ id
IsAbout id (StripeCall.subscription_cancel i prorate) = i ≡ id
IsAbout id (StripeCall.customer_create email name locale metadata) = ⊥
IsAbout id (StripeCall.customer_delete i) = ⊥
IsAbout id (StripeCall.checkout_session_create params) = ⊥
IsAbout id (StripeCall.portal_session_create params) = ⊥
IsAbout id (StripeCall.schedule_retrieve i) = Unit {0}
IsAbout id (StripeCall.schedule_release i) = Unit {0}
IsAbout id (StripeCall.schedule_create i) = Unit {0}
IsAbout id (StripeCall.schedule_modify i phases) = Unit {0}
IsAbout id (StripeCall.price_retrieve i) = Unit {0}

-- From one state to another, of the database only a subscription with one id changed, and the new
-- requests to Stripe are about one subscription.
pub record IsConfined (row : Uuid) (id : String) (w w' : World) : Type 0 where
  pub spared :
      (i : Uuid)
      → (row == i) ≡ false
      → first (has_id i) w'.db.subscriptions ≡ first (has_id i) w.db.subscriptions
  pub tables : record w'.db { subscriptions = w.db.subscriptions } ≡ w.db
  pub requests :
      (calls : List StripeCall) × (w'.stripe_calls ≡ w.stripe_calls ++ calls)
      × All (IsAbout id) calls

-- A save leaves the rows with other ids.
append-other :
    (i : Uuid) (s : Subscription) (rows : List Subscription)
    → (s.id == i) ≡ false
    → first (has_id i) (rows ++ s ∷ []) ≡ first (has_id i) rows
append-other i s [] e = ground (arith, e)
append-other i s (x ∷ rows) e = ground (arith, append-other i s rows e)

update-other :
    (i : Uuid) (s : Subscription) (rows : List Subscription)
    → (s.id == i) ≡ false
    → first (has_id i) (update (has_id s.id) (overwrite s) rows) ≡ first (has_id i) rows
update-other i s [] e = refl
update-other i s (x ∷ rows) e = ground (arith, e, update-other i s rows e)

pub upsert-other :
    (i : Uuid) (s : Subscription) (t : ℕ) (rows : List Subscription)
    → (s.id == i) ≡ false
    → first (has_id i) (upsert s t rows) ≡ first (has_id i) rows
upsert-other i s t rows e = go (first (has_id s.id) rows)
  where
    go :
        (o : Option Subscription)
        → first (has_id i) (elim o [
          | none ↦ rows ++ record s { created_at = t } ∷ []
          | some row ↦ update (has_id s.id) (overwrite s) rows
        ])
          ≡ first (has_id i) rows
    go none = append-other i (record s { created_at = t }) rows e
    go (some row) = update-other i s rows e
