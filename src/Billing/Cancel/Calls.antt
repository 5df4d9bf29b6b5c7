-- ===== src/Billing/Cancel/Calls.antt =====
-- What cancellation asks of Stripe.
use saasmint_core.Base.{
  Bool, true, false, Option, none, some, List, [], ◌∷◌, ◌++◌, ◌≡◌, refl, String, is_some, ◌∙◌, ap,
  if◌then◌else◌,
}
use saasmint_core.Python.{Json, Result, ok, err}
use saasmint_core.Domain.{Uuid, Subscription}
use saasmint_core.State.{Env, World, Db, StripeCall, modify, ◌>>=◌, ◌>>◌}
use saasmint_core.State.Rules.{Keeps, keeps}
use saasmint_core.Repositories.Subscriptions
use saasmint_core.Billing.Cancel.{
  backed, mirror_cancel_state_from_stripe, release_pending_schedule, cancel_call, cancel_now,
  release_then, cancel_found, cancel_subscription,
}

-- The requests that have been made.
abbrev pub HasAsked : List StripeCall → World → Type 0
HasAsked calls w = w.stripe_calls ≡ calls

-- The newest request.
abbrev pub last : List StripeCall → Option StripeCall
last [] = none
last (c ∷ []) = some c
last (c ∷ d ∷ calls) = last (d ∷ calls)

pub last-append : (calls : List StripeCall) (c : StripeCall) → last (calls ++ c ∷ []) ≡ some c
last-append [] c = refl
last-append (d ∷ []) c = refl
last-append (d ∷ e ∷ calls) c = last-append (e ∷ calls) c

modify-Keeps : {calls : List StripeCall} (f : Db → Db) → Keeps (HasAsked calls) (modify f)
modify-Keeps f = record { run = λ w h. h }

save-Keeps :
    {calls : List StripeCall} (s : Subscription) → Keeps (HasAsked calls) (Subscriptions.save s)
unfolding Subscriptions.save
save-Keeps s = search (keeps, modify-Keeps)

module _ (env : Env) where
  mirror-Keeps :
      {calls : List StripeCall} (s : Subscription) (answer : Json)
      → Keeps (HasAsked calls) (mirror_cancel_state_from_stripe env s answer)
  unfolding mirror_cancel_state_from_stripe
  mirror-Keeps s answer = search (keeps, save-Keeps)

  -- The request that cancels is the newest, whether or not it succeeds.
  cancel_now-last :
      (at_period_end : Bool) (s : Subscription) (id : String) (w : World)
      → last (cancel_now env at_period_end s id w).1.stripe_calls
        ≡ some (cancel_call env at_period_end id)
  unfolding cancel_now
  cancel_now-last at_period_end s id w =
      ap last (go (env.respond w.stripe_calls call)) ∙ last-append w.stripe_calls call
    where
      call : StripeCall
      call = cancel_call env at_period_end id

      calls : List StripeCall
      calls = w.stripe_calls ++ call ∷ []

      u : World
      u = record w { stripe_calls = calls }

      go :
          (r : Result Json)
          → (((λ _. (r, u)) >>= mirror_cancel_state_from_stripe env s) u).1.stripe_calls ≡ calls
      go (ok answer) = (mirror-Keeps s answer).run u refl
      go (err e) = refl

  release_then-last :
      (pending at_period_end : Bool) (s : Subscription) (id : String) (w : World)
      → (release_then env pending at_period_end s id w).0 ≡ ok tt
      → last (release_then env pending at_period_end s id w).1.stripe_calls
        ≡ some (cancel_call env at_period_end id)
  release_then-last true at_period_end s id w =
      go (release_pending_schedule env id w).0 (release_pending_schedule env id w).1
    where
      go :
          (r : Result (Unit {0})) (u : World)
          → (((λ _. (r, u)) >> cancel_now env at_period_end s id) w).0 ≡ ok tt
          → last (((λ _. (r, u)) >> cancel_now env at_period_end s id) w).1.stripe_calls
            ≡ some (cancel_call env at_period_end id)
      go (ok x) u e = cancel_now-last at_period_end s id u
      go (err x) u e = cc
  release_then-last false at_period_end s id w = λ e. cancel_now-last at_period_end s id w

  cancel_found-last :
      (active : Option Subscription) (at_period_end : Bool) (w : World)
      → (cancel_found env at_period_end (backed active) w).0 ≡ ok tt
      → (s : Subscription) × (id : String) × (active ≡ some s)
        × (s.stripe_id ≡ some id)
        × (last (cancel_found env at_period_end (backed active) w).1.stripe_calls
            ≡ some (cancel_call env at_period_end id))
  cancel_found-last none at_period_end w = λ e. cc
  cancel_found-last (some s) at_period_end w = go s.stripe_id refl
    where
      go :
          (k : Option String)
          → s.stripe_id ≡ k
          → (cancel_found env at_period_end (elim k [ none ↦ none | some id ↦ some (s, id) ]) w).0
            ≡ ok tt
          → (t : Subscription) × (id : String) × (some s ≡ some t)
            × (t.stripe_id ≡ some id)
            × (last
                  (cancel_found env at_period_end
                    (elim k [ none ↦ none | some id ↦ some (s, id) ])
                    w).1.stripe_calls
                ≡ some (cancel_call env at_period_end id))
      go none q e = cc
      go (some id) q e =
          (s, id, refl, q, release_then-last (is_some s.scheduled_plan_id) at_period_end s id w e)

  -- The two requests, as Stripe's API has them: a modification of `cancel_at`, or a cancellation.
  pub call-asked :
      (at_period_end : Bool) (id : String)
      → cancel_call env at_period_end id ≡ (
          if at_period_end
          then StripeCall.subscription_modify_cancel_at id "min_period_end"
          else StripeCall.subscription_cancel id none)
  call-asked true id = refl
  call-asked false id = refl

  -- A cancellation that returns has found an active subscription with a Stripe id, and its last
  -- request to Stripe is about that id: to cancel at `min_period_end` where the caller asked for
  -- the period's end, and to cancel now, without a word on proration, where not.
  pub cancel_last_call :
      (customer : Uuid) (at_period_end : Bool) (w : World)
      → (cancel_subscription env customer at_period_end w).0 ≡ ok tt
      → (s : Subscription) × (id : String) × ((Subscriptions.get_active_for_customer customer w).0
          ≡ ok (some s))
        × (s.stripe_id ≡ some id)
        × (last (cancel_subscription env customer at_period_end w).1.stripe_calls
            ≡ some (
                if at_period_end
                then StripeCall.subscription_modify_cancel_at id "min_period_end"
                else StripeCall.subscription_cancel id none))
  unfolding cancel_subscription Subscriptions.get_active_for_customer
  cancel_last_call customer at_period_end w returned =
      let (s, id, found, backed_by, newest) = cancel_found-last _ at_period_end w returned in
      (s, id, ap ok found, backed_by, newest ∙ ap some (call-asked at_period_end id))
