-- ===== src/Billing/Cancel.antt =====
-- Cancellation, resumption and pending schedules: the rest of
-- core/saasmint_core/services/billing.py.
pub mod Answer
pub mod Calls
pub mod Mirror
use saasmint_core.Base.{String, Bool, true, false, ◌||◌, Option, none, some, is_some, if◌then◌else◌}
use saasmint_core.Python.{Exn, Json, attr, truthy, is_text}
use saasmint_core.Values.{to_text}
use saasmint_core.Domain.{Uuid, Subscription}
use saasmint_core.State.{Env, Action, StripeCall, pure, raise, lift, request, ◌>>=◌, ◌>>◌}
use saasmint_core.Repositories.Subscriptions
use saasmint_core.Billing.CancelState.{read_cancel_state, with_cancel_state}

-- The subscription and its Stripe id, where it has one.
abbrev pub backed : Option Subscription → Option (Subscription × String)
backed none = none
backed (some s) = elim s.stripe_id [ none ↦ none | some id ↦ some (s, id) ]

abbrev pub without_schedule : Subscription → Subscription
without_schedule s = record s { scheduled_plan_id = none; scheduled_change_at = none }

module _ (env : Env) where
  unfoldable pub mirror_cancel_state_from_stripe : Subscription → Json → Action (Unit {0})
  mirror_cancel_state_from_stripe s answer = do
    state ← lift (read_cancel_state env answer)
    Subscriptions.save (with_cancel_state s state)
    pure tt

  -- Only a schedule that is not started or active can be released.
  abbrev pub release_if_open : Json → Action (Unit {0})
  release_if_open schedule = do
    status ← lift (attr schedule "status")
    if is_text status "not_started" || is_text status "active"
        then (do
          id ← lift (attr schedule "id")
          request env (StripeCall.schedule_release (to_text env id))
          pure tt)
        else pure tt

  unfoldable pub release_pending_schedule : String → Action (Unit {0})
  release_pending_schedule stripe_subscription_id = do
    sub ← request env (StripeCall.subscription_retrieve stripe_subscription_id)
    schedule_id ← lift (attr sub "schedule")
    if truthy schedule_id
        then (do
          schedule ← request env (StripeCall.schedule_retrieve (to_text env schedule_id))
          release_if_open schedule)
        else pure tt

  -- The request that cancels.
  abbrev pub cancel_call : (at_period_end : Bool) → String → StripeCall
  cancel_call true id = StripeCall.subscription_modify_cancel_at id "min_period_end"
  cancel_call false id = StripeCall.subscription_cancel id none

  unfoldable pub cancel_now : (at_period_end : Bool) → Subscription → String → Action (Unit {0})
  cancel_now at_period_end s id = do
    stripe_sub ← request env (cancel_call at_period_end id)
    mirror_cancel_state_from_stripe s stripe_sub

  -- A plan change that is pending is released first.
  abbrev pub release_then :
      (pending : Bool) → (at_period_end : Bool) → Subscription → String → Action (Unit {0})
  release_then true at_period_end s id = do
    release_pending_schedule id
    cancel_now at_period_end s id
  release_then false at_period_end s id = cancel_now at_period_end s id

  abbrev pub cancel_found :
      (at_period_end : Bool) → Option (Subscription × String) → Action (Unit {0})
  cancel_found at_period_end none = raise Exn.subscription_not_found
  cancel_found at_period_end (some (s, id)) =
      release_then (is_some s.scheduled_plan_id) at_period_end s id

  unfoldable pub cancel_subscription :
      (stripe_customer_id : Uuid) (at_period_end : Bool) → Action (Unit {0})
  cancel_subscription stripe_customer_id at_period_end = do
    active ← Subscriptions.get_active_for_customer stripe_customer_id
    cancel_found at_period_end (backed active)

  abbrev pub release_found : Option (Subscription × String) → Action (Unit {0})
  release_found none = raise Exn.subscription_not_found
  release_found (some (s, id)) = do
    release_pending_schedule id
    if is_some s.scheduled_plan_id || is_some s.scheduled_change_at
        then (do Subscriptions.save (without_schedule s); pure tt)
        else pure tt

  unfoldable pub release_pending_schedule_for_customer :
      (stripe_customer_id : Uuid) → Action (Unit {0})
  release_pending_schedule_for_customer stripe_customer_id = do
    active ← Subscriptions.get_active_for_customer stripe_customer_id
    release_found (backed active)

  abbrev pub resume_found : Option (Subscription × String) → Action (Unit {0})
  resume_found none = raise Exn.subscription_not_found
  resume_found (some (s, id)) = do
    stripe_sub ← request env (StripeCall.subscription_modify_cancel_at id "")
    mirror_cancel_state_from_stripe s stripe_sub

  unfoldable pub resume_subscription : (stripe_customer_id : Uuid) → Action (Unit {0})
  resume_subscription stripe_customer_id = do
    active ← Subscriptions.get_active_for_customer stripe_customer_id
    resume_found (backed active)
