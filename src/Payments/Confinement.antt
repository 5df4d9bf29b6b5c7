-- ===== src/Payments/Confinement.antt =====
-- The changes of a subscription are confined to it.
use mathlib.Core.List.{append_assoc, append-nil}
use saasmint_core.Base.{
  ℕ, ltb, ◌==◌, String, Bool, true, false, Option, none, some, [], ◌∷◌, ◌++◌, ◌≡◌, refl, ap, sym,
  subst, ◌∙◌, All-append,
}
use saasmint_core.Python.{Exn, Json}
use saasmint_core.Domain.{Subscription}
use saasmint_core.State.{
  Env, World, Action, StripeCall, pure, raise, now, modify, request, raise_if, ◌>>=◌, ◌>>◌,
}
use saasmint_core.State.Rules.{Keeps, keeps}
use saasmint_core.Repositories.Subscriptions
use saasmint_core.Repositories.Subscriptions.{violates, upsert}
use saasmint_core.Billing.CancelState.{CancelState, with_cancel_state}
use saasmint_core.Billing.Cancel.{
  mirror_cancel_state_from_stripe, release_pending_schedule, cancel_call, cancel_now, release_then,
  resume_found, release_found, without_schedule,
}
use saasmint_core.Plans.{
  schedule_to_modify, schedule_downgrade_at_period_end, item_to_modify, apply_immediate_plan_change,
  change_or_schedule, change_retrieved, change_plan, update_seats_of, update_seat_count,
}
use saasmint_core.Payments.Confined.{IsAbout, IsConfined, upsert-other}

module _ (w0 : World) (s0 : Subscription) (id : String) where
  abbrev pub P : World → Type 0
  P = IsConfined s0.id id w0

  pub start : P w0
  start = record {
    spared = λ i e. refl;
    tables = refl;
    requests = ([], sym (append-nil w0.stripe_calls), tt);
  }

  saved :
      (s : Subscription)
      → s.id ≡ s0.id
      → (t : ℕ) → (w : World) → P w
      → P (record w { db = record w.db { subscriptions = upsert s t w.db.subscriptions } })
  saved s same t w h = record {
    spared = λ i e.
        upsert-other i s t w.db.subscriptions (subst (λ j. (j == i) ≡ false) (sym same) e)
        ∙ h.spared i e;
    tables = h.tables;
    requests = h.requests;
  }

  pub save-Keeps : (s : Subscription) → s.id ≡ s0.id → Keeps P (Subscriptions.save s)
  unfolding Subscriptions.save
  save-Keeps s same = record { run = λ w h. go (violates s w.db) w h }
    where
      store : Action Subscription
      store = do
        t ← now
        modify λ db. record db { subscriptions = upsert s t db.subscriptions }
        pure s

      go : (b : Bool) (w : World) → P w → P ((raise_if b Exn.integrity_error >> store) w).1
      go true w h = h
      go false w h = saved s same w.clock w h

  module _ (env : Env) where
    request-Keeps : (c : StripeCall) → IsAbout id c → Keeps P (request env c)
    request-Keeps c about = record {
      run = λ w h. record {
        spared = h.spared;
        tables = h.tables;
        requests = (
          h.requests.0 ++ c ∷ [],
          ap (λ xs. xs ++ c ∷ []) h.requests.1 ∙ append_assoc w0.stripe_calls h.requests.0 (c ∷ []),
          All-append (IsAbout id) h.requests.0 (c ∷ []) h.requests.2 (about, tt),
        );
      };
    }

    -- The requests, and the saves, of a change.
    retrieve-Keeps : Keeps P (request env (StripeCall.subscription_retrieve id))
    retrieve-Keeps = request-Keeps (StripeCall.subscription_retrieve id) refl

    cancel_at-Keeps :
        (t : String) → Keeps P (request env (StripeCall.subscription_modify_cancel_at id t))
    cancel_at-Keeps t = request-Keeps (StripeCall.subscription_modify_cancel_at id t) refl

    cancel_call-Keeps : (b : Bool) → Keeps P (request env (cancel_call env b id))
    cancel_call-Keeps true = cancel_at-Keeps "min_period_end"
    cancel_call-Keeps false = request-Keeps (StripeCall.subscription_cancel id none) refl

    item-Keeps :
        (item : Json) (proration : String)
        → Keeps P (request env (StripeCall.subscription_modify_item id item proration))
    item-Keeps item proration =
        request-Keeps (StripeCall.subscription_modify_item id item proration) refl

    retrieve_schedule-Keeps : (i : String) → Keeps P (request env (StripeCall.schedule_retrieve i))
    retrieve_schedule-Keeps i = request-Keeps (StripeCall.schedule_retrieve i) tt

    release-Keeps : (i : String) → Keeps P (request env (StripeCall.schedule_release i))
    release-Keeps i = request-Keeps (StripeCall.schedule_release i) tt

    create-Keeps : (i : String) → Keeps P (request env (StripeCall.schedule_create i))
    create-Keeps i = request-Keeps (StripeCall.schedule_create i) tt

    modify-Keeps :
        (i : String) (phases : Json) → Keeps P (request env (StripeCall.schedule_modify i phases))
    modify-Keeps i phases = request-Keeps (StripeCall.schedule_modify i phases) tt

    price-Keeps : (i : String) → Keeps P (request env (StripeCall.price_retrieve i))
    price-Keeps i = request-Keeps (StripeCall.price_retrieve i) tt

    state-Keeps : (c : CancelState) → Keeps P (Subscriptions.save (with_cancel_state s0 c))
    state-Keeps c = save-Keeps (with_cancel_state s0 c) refl

    schedule-Keeps : Keeps P (Subscriptions.save (without_schedule s0))
    schedule-Keeps = save-Keeps (without_schedule s0) refl

    seats-Keeps : (n : ℕ) → Keeps P (Subscriptions.save (record s0 { seat_limit = n }))
    seats-Keeps n = save-Keeps (record s0 { seat_limit = n }) refl

    ruleset steps = (
      keeps, retrieve-Keeps, cancel_at-Keeps, cancel_call-Keeps, item-Keeps,
      retrieve_schedule-Keeps, release-Keeps, create-Keeps, modify-Keeps, price-Keeps, state-Keeps,
      schedule-Keeps, seats-Keeps,
    )

    mirror-Keeps : (answer : Json) → Keeps P (mirror_cancel_state_from_stripe env s0 answer)
    unfolding mirror_cancel_state_from_stripe
    mirror-Keeps answer = search steps depth 20

    release_pending-Keeps : Keeps P (release_pending_schedule env id)
    unfolding release_pending_schedule
    release_pending-Keeps = search steps depth 30

    cancel_now-Keeps : (b : Bool) → Keeps P (cancel_now env b s0 id)
    unfolding cancel_now
    cancel_now-Keeps b = search (steps, mirror-Keeps) depth 20

    pub cancel-Keeps : (b pending : Bool) → Keeps P (release_then env pending b s0 id)
    cancel-Keeps b true = search (steps, release_pending-Keeps, cancel_now-Keeps) depth 20
    cancel-Keeps b false = cancel_now-Keeps b

    pub resume-Keeps : Keeps P (resume_found env (some (s0, id)))
    resume-Keeps = search (steps, mirror-Keeps) depth 20

    pub release_found-Keeps : Keeps P (release_found env (some (s0, id)))
    release_found-Keeps = search (steps, release_pending-Keeps) depth 20

    to_modify-Keeps : (sub : Json) → Keeps P (schedule_to_modify env sub)
    unfolding schedule_to_modify
    to_modify-Keeps sub = search steps depth 20

    downgrade-Keeps :
        (sub : Json) (price : String) (n : ℕ)
        → Keeps P (schedule_downgrade_at_period_end env sub price n)
    unfolding schedule_downgrade_at_period_end
    downgrade-Keeps sub price n = search (steps, to_modify-Keeps) depth 40

    item_to_modify-Keeps :
        (existing : Json) (item : String) → Keeps P (item_to_modify env existing id item)
    unfolding item_to_modify
    item_to_modify-Keeps existing item = search steps depth 20

    immediate-Keeps :
        (sub : Json) (item price : String) (b : Bool) (n : ℕ)
        → Keeps P (apply_immediate_plan_change env sub id item price b n)
    unfolding apply_immediate_plan_change
    immediate-Keeps sub item price b n = search (steps, item_to_modify-Keeps) depth 20

    either-Keeps :
        (down : Bool) (sub : Json) (item price : String) (b : Bool) (n : ℕ)
        → Keeps P (change_or_schedule env down sub id item price b n)
    either-Keeps true sub item price b n = downgrade-Keeps sub price n
    either-Keeps false sub item price b n = immediate-Keeps sub item price b n

    pub change_plan-Keeps :
        (price : String) (amount : Option ℕ) (b : Bool) (n : Option ℕ)
        → Keeps P (change_plan env id price amount b n)
    unfolding change_plan change_retrieved
    change_plan-Keeps price amount b n = search (steps, either-Keeps) depth 20

    seats_of-Keeps : (n : ℕ) → Keeps P (update_seats_of env s0 id n)
    seats_of-Keeps n = search steps depth 30

    pub seat_count-Keeps : s0.stripe_id ≡ some id → (n : ℕ) → Keeps P (update_seat_count env s0 n)
    unfolding update_seat_count
    seat_count-Keeps backed n = go s0.stripe_id backed
      where
        go :
            (k : Option String)
            → k ≡ some id
            → Keeps {A = Unit {0}} P (
                raise_if (ltb n 1) Exn.value_error
                >> (elim k [ none ↦ raise Exn.value_error | some i ↦ update_seats_of env s0 i n ]))
        go none e = cc
        go (some i) e =
            subst (λ j. Keeps P (raise_if (ltb n 1) Exn.value_error >> update_seats_of env s0 j n))
              (ap (λ o. elim o [ none ↦ id | some j ↦ j ]) (sym e))
              (search (steps, seats_of-Keeps) depth 20)
