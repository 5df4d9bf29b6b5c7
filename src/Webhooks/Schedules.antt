-- ===== src/Webhooks/Schedules.antt =====
-- The mirror of a pending plan change: `_on_subscription_schedule_upserted` and
-- `_on_subscription_schedule_cleared` of core/saasmint_core/services/webhooks.py.
use saasmint_core.Base.{
  String, Bool, not, ◌&&◌, ◌||◌, ◌==◌, Option, none, some, option_eq, is_some, if◌then◌else◌,
}
use saasmint_core.Python.{DateTime, Json, get, truthy}
use saasmint_core.Values.{to_text}
use saasmint_core.Domain.{Uuid, Subscription, PlanPrice}
use saasmint_core.State.{Env, Action, pure, lift, ◌>>=◌, ◌>>◌}
use saasmint_core.Repositories.Subscriptions
use saasmint_core.Webhooks.Read.{parse_schedule_pending_change}

-- `model_copy` with the pending change.
abbrev pub with_schedule : Option Uuid → Option DateTime → Subscription → Subscription
with_schedule plan at s = record s { scheduled_plan_id = plan; scheduled_change_at = at }

-- The mirror is already correct.
abbrev pub is_mirrored : Uuid → DateTime → Subscription → Bool
is_mirrored plan at s =
    option_eq ◌==◌ s.scheduled_plan_id (some plan) && option_eq ◌==◌ s.scheduled_change_at (some at)

abbrev pub mirror : Uuid → DateTime → Option Subscription → Action (Unit {0})
mirror plan at none = pure tt
mirror plan at (some existing) =
    if is_mirrored plan at existing
    then pure tt
    else (do Subscriptions.save (with_schedule (some plan) (some at) existing); pure tt)

abbrev pub mirror_price : String → DateTime → Option PlanPrice → Action (Unit {0})
mirror_price id at none = pure tt
mirror_price id at (some price) = do
  existing ← Subscriptions.get_by_stripe_id id
  mirror price.plan_id at existing

abbrev pub mirror_pending : String → Option (String × DateTime) → Action (Unit {0})
mirror_pending id none = pure tt
mirror_pending id (some (price_id, at)) = do
  price ← Subscriptions.get_price_by_stripe_id price_id
  mirror_price id at price

unfoldable pub on_subscription_schedule_upserted : Env → Json → Action (Unit {0})
on_subscription_schedule_upserted env schedule = do
  id ← lift (get schedule "subscription")
  if not (truthy id) then pure tt else (do
    pending ← lift (parse_schedule_pending_change env schedule)
    mirror_pending (to_text env id) pending)

abbrev pub clear : Option Subscription → Action (Unit {0})
clear none = pure tt
clear (some existing) =
    if is_some existing.scheduled_plan_id || is_some existing.scheduled_change_at
    then (do Subscriptions.save (with_schedule none none existing); pure tt)
    else pure tt

unfoldable pub on_subscription_schedule_cleared : Env → Json → Action (Unit {0})
on_subscription_schedule_cleared env schedule = do
  id ← lift (get schedule "subscription")
  if not (truthy id)
      then pure tt
      else (do existing ← Subscriptions.get_by_stripe_id (to_text env id); clear existing)
