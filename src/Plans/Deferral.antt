-- ===== src/Plans/Deferral.antt =====
-- A downgrade waits for the end of the period.
use saasmint_core.Base.{
  ℕ, Bool, true, false, Option, [], ◌∷◌, ◌≡◌, refl, String, ◌∙◌, arith, count, count-append,
}
use saasmint_core.Python.{Json, ok}
use saasmint_core.State.{Env, World, StripeCall, request}
use saasmint_core.State.Rules.{Keeps, keeps}
use saasmint_core.Plans.Read.{Change, read_change}
use saasmint_core.Plans.{
  schedule_downgrade_at_period_end, apply_immediate_plan_change, schedule_to_modify, item_to_modify,
  change_or_schedule, change_retrieved, change_plan, the_quantity,
}

-- A request that the other kind of change makes: one that changes the item now, where the change
-- is a downgrade, and one that writes a schedule, where it is none.
abbrev pub belongs_to_other : (is_downgrade : Bool) → StripeCall → Bool
belongs_to_other true (StripeCall.subscription_modify_item id item proration) = true
belongs_to_other false (StripeCall.schedule_create id) = true
belongs_to_other false (StripeCall.schedule_modify id phases) = true
belongs_to_other _ _ = false

-- The number of such requests is `n`.
abbrev Counts : Bool → ℕ → World → Type 0
Counts b n w = count (belongs_to_other b) w.stripe_calls ≡ n

module _ (env : Env) {n : ℕ} where
  asks :
      (b : Bool) (c : StripeCall)
      → belongs_to_other b c ≡ false
      → Keeps (Counts b n) (request env c)
  asks b c harmless = record {
    run = λ w h.
        count-append (belongs_to_other b) w.stripe_calls (c ∷ []) ∙ ground (arith, harmless, h);
  }

  retrieve-Keeps :
      (b : Bool) {id : String}
      → Keeps (Counts b n) (request env (StripeCall.subscription_retrieve id))
  retrieve-Keeps true = asks true _ refl
  retrieve-Keeps false = asks false _ refl

  price-Keeps : {id : String} → Keeps (Counts true n) (request env (StripeCall.price_retrieve id))
  price-Keeps = asks true _ refl

  create-Keeps : {id : String} → Keeps (Counts true n) (request env (StripeCall.schedule_create id))
  create-Keeps = asks true _ refl

  schedule-Keeps :
      {id : String} {phases : Json}
      → Keeps (Counts true n) (request env (StripeCall.schedule_modify id phases))
  schedule-Keeps = asks true _ refl

  release-Keeps :
      {id : String} → Keeps (Counts false n) (request env (StripeCall.schedule_release id))
  release-Keeps = asks false _ refl

  item-Keeps :
      {id proration : String} {item : Json}
      → Keeps (Counts false n) (request env (StripeCall.subscription_modify_item id item proration))
  item-Keeps = asks false _ refl

  to_modify-Keeps : (sub : Json) → Keeps (Counts true n) (schedule_to_modify env sub)
  unfolding schedule_to_modify
  to_modify-Keeps sub = search (keeps, create-Keeps) depth 20

  downgrade-Keeps :
      (sub : Json) (new_price : String) (quantity : ℕ)
      → Keeps (Counts true n) (schedule_downgrade_at_period_end env sub new_price quantity)
  unfolding schedule_downgrade_at_period_end
  downgrade-Keeps sub new_price quantity =
      search (keeps, to_modify-Keeps, price-Keeps, schedule-Keeps) depth 30

  item_id-Keeps :
      (existing : Json) (id item_id : String)
      → Keeps (Counts false n) (item_to_modify env existing id item_id)
  unfolding item_to_modify
  item_id-Keeps existing id item_id = search (keeps, release-Keeps, retrieve-Keeps) depth 20

  upgrade-Keeps :
      (sub : Json) (id item_id new_price : String) (prorate : Bool) (quantity : ℕ)
      → Keeps
          (Counts false n)
          (apply_immediate_plan_change env sub id item_id new_price prorate quantity)
  unfolding apply_immediate_plan_change
  upgrade-Keeps sub id item_id new_price prorate quantity =
      search (keeps, item_id-Keeps, item-Keeps) depth 20

  either-Keeps :
      (b : Bool) (sub : Json) (id item_id new_price : String) (prorate : Bool) (quantity : ℕ)
      → Keeps (Counts b n) (change_or_schedule env b sub id item_id new_price prorate quantity)
  either-Keeps true sub id item_id new_price prorate quantity =
      downgrade-Keeps sub new_price quantity
  either-Keeps false sub id item_id new_price prorate quantity =
      upgrade-Keeps sub id item_id new_price prorate quantity

-- Where Stripe answers with a readable subscription, a plan change that is a downgrade makes no
-- request that changes the item now, and any other plan change writes no schedule, whether or not
-- the change returns.
pub change_plan_routes :
    (env : Env) (id new_price : String) (amount : Option ℕ) (prorate : Bool) (quantity : Option ℕ)
    (w : World) (sub : Json) (c : Change)
    → env.respond w.stripe_calls (StripeCall.subscription_retrieve id) ≡ ok sub
    → read_change env sub amount ≡ ok c
    → count
        (belongs_to_other c.is_downgrade)
        (change_plan env id new_price amount prorate quantity w).1.stripe_calls
      ≡ count (belongs_to_other c.is_downgrade) w.stripe_calls
unfolding change_plan change_retrieved
change_plan_routes env id new_price amount prorate quantity w sub c answered read =
    rw (answered, read)
      ((either-Keeps env c.is_downgrade sub id c.item_id new_price prorate
          (the_quantity quantity c.current_quantity)).run
        _ ((retrieve-Keeps env c.is_downgrade {id = id}).run w refl))
