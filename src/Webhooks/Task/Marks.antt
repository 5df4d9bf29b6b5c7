-- ===== src/Webhooks/Task/Marks.antt =====
-- A stored event is processed by its task.
use saasmint_core.Base.{ℕ, inl, inr, Option, none, some, ◌≡◌, refl, first, first-update, Bool-cases}
use saasmint_core.Python.{Result, ok, err}
use saasmint_core.Domain.{Subscription}
use saasmint_core.State.{Env, World, StripeEvent, raise, try_except, ◌>>◌}
use saasmint_core.State.Rules.{Keeps}
use saasmint_core.Repositories.Events.{has_stripe_id, mark_processed, mark_failed}
use saasmint_core.Repositories.Subscriptions
use saasmint_core.Repositories.Subscriptions.{violates}
use saasmint_core.Repositories.Subscriptions.Save.{save_refused, save_valid}
use saasmint_core.Webhooks.Sync.{keep}
use saasmint_core.Webhooks.Checkout.{Callbacks}
use saasmint_core.Webhooks.Dispatch.{dispatch, process_stored_event, stored_message}
use saasmint_core.Webhooks.Dispatch.Frame.{CallbacksKeep, dispatch-Keeps}
use saasmint_core.Webhooks.Task.{Run, has_event_id, after_processing, process_stripe_webhook}

-- The row is the one that its Stripe id finds.
pub record HasEvent (row : StripeEvent) (w : World) : Type 0 where
  pub found : first (has_stripe_id row.stripe_id) w.db.events ≡ some row

module _ (row : StripeEvent) where
  save-Keeps : (s : Subscription) → Keeps (HasEvent row) (Subscriptions.save s)
  save-Keeps s = record {
    run = λ w h. elim (Bool-cases (violates s w.db)) [
      | inl bad ↦ rw (save_refused s w bad) h
      | inr good ↦ rw (save_valid s w good) (record { found = h.found })
    ];
  }

  keep-Keeps : (existing : Option Subscription) → Keeps (HasEvent row) (keep existing)
  unfolding keep
  keep-Keeps none = record { run = λ w h. record { found = h.found } }
  keep-Keeps (some s) = record { run = λ w h. record { found = h.found } }

  -- The event, with the marks of a success.
  abbrev pub processed : World → StripeEvent
  processed w = record row { processed_at = some w.clock; error = none }

  -- What the mark of a success leaves.
  marked : (u : World) → HasEvent row u → HasEvent (processed u) (mark_processed row.stripe_id u).1
  unfolding mark_processed
  marked u h = record {
    found =
        first-update (has_stripe_id row.stripe_id)
          (λ e. record e { processed_at = some u.clock; error = none }) u.db.events {x = row}
          (λ y same. same) h.found;
  }

  -- A run of the task on a stored event whose handler returns is finished, and the event is then
  -- marked as processed, with no error and otherwise as it was, if the callbacks that are set keep
  -- the row.
  pub task_marks :
      (env : Env) (callbacks : Callbacks) (retries : ℕ) (w : World)
      → CallbacksKeep (HasEvent row) callbacks
      → HasEvent row w
      → first (has_event_id row.id) w.db.events ≡ some row
      → (dispatch env callbacks row.payload w).0 ≡ ok tt
      → let (r, w') = process_stripe_webhook env callbacks retries row.id w in
        (r ≡ ok Run.finished) × HasEvent (processed w') w'
  unfolding process_stripe_webhook process_stored_event mark_processed
  task_marks env callbacks retries w held stored found returned = rw found (
      go (dispatch env callbacks row.payload w).0 (dispatch env callbacks row.payload w).1 returned
        ((dispatch-Keeps (HasEvent row) save-Keeps keep-Keeps env callbacks held row.payload).run w
          stored))
    where
      go :
          (r : Result (Unit {0})) (u : World)
          → r ≡ ok tt
          → HasEvent row u
          → let p : Result (Unit {0}) × World =
              try_except
                (λ _. elim r [ ok a ↦ mark_processed row.stripe_id u | err e ↦ (err e, u) ])
                (λ e. do mark_failed row.stripe_id (stored_message env callbacks e); raise e)
                w in
            ((after_processing retries p.0 p.1).0 ≡ ok Run.finished)
            × HasEvent
                (processed (after_processing retries p.0 p.1).1)
                (after_processing retries p.0 p.1).1
      go (ok a) u q h = (refl, marked u h)
      go (err e) u q h = cc
