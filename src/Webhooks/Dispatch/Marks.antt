-- ===== src/Webhooks/Dispatch/Marks.antt =====
-- How a delivery ends: the mark on the row of the event.
use saasmint_core.Base.{String, none, some, ◌≡◌, refl, arith, first, first-update_inv}
use saasmint_core.Python.{Json, Result, ok, err}
use saasmint_core.State.{Env, World, StripeEvent, raise, try_except, ◌>>◌}
use saasmint_core.Python.{DateTime}
use saasmint_core.Repositories.Events
use saasmint_core.Webhooks.Checkout.{Callbacks}
use saasmint_core.Webhooks.Dispatch.{dispatch, stored_message, process_stored_event}

-- What the row of an event says of a delivery at a time.
abbrev pub IsMarked : Env → Callbacks → Result (Unit {0}) → DateTime → StripeEvent → Type 0
IsMarked env callbacks (ok _) t e = (e.processed_at ≡ some t) × (e.error ≡ none)
IsMarked env callbacks (err x) t e = e.error ≡ some (stored_message env callbacks x)

module _ (env : Env) (callbacks : Callbacks) (event : Json) (id : String) (w : World) where
  marked_ok :
      (w' : World) {row : StripeEvent}
      → first (Events.has_stripe_id id) (Events.mark_processed id w').1.db.events ≡ some row
      → (row.processed_at ≡ some w'.clock) × (row.error ≡ none)
  unfolding Events.mark_processed
  marked_ok w' {row} e =
      let (y, same) =
        first-update_inv (Events.has_stripe_id id)
          (λ e. record e { processed_at = some w'.clock; error = none }) w'.db.events {x = row}
          (λ y h. h) e in
      ground (arith, same)

  marked_err :
      (message : String) (w' : World) {row : StripeEvent}
      → first (Events.has_stripe_id id) (Events.mark_failed id message w').1.db.events ≡ some row
      → row.error ≡ some message
  unfolding Events.mark_failed
  marked_err message w' {row} e =
      let (y, same) =
        first-update_inv (Events.has_stripe_id id) (λ e. record e { error = some message })
          w'.db.events {x = row} (λ y h. h) e in
      ground (arith, same)

  -- What follows the dispatch.
  finish : Result (Unit {0}) → World → Result (Unit {0}) × World
  finish (ok _) u = Events.mark_processed id u
  finish (err x) u = (err x, (Events.mark_failed id (stored_message env callbacks x) u).1)

  process-eq-finish :
      process_stored_event env callbacks event id w
      ≡ finish (dispatch env callbacks event w).0 (dispatch env callbacks event w).1
  unfolding process_stored_event finish Events.mark_processed Events.mark_failed
  process-eq-finish = go (dispatch env callbacks event w).0 (dispatch env callbacks event w).1
    where
      go :
          (r : Result (Unit {0})) (u : World)
          → try_except
              (λ _. elim r [ ok a ↦ Events.mark_processed id u | err e ↦ (err e, u) ])
              (λ e. do Events.mark_failed id (stored_message env callbacks e); raise e)
              w
            ≡ finish r u
      go (ok a) u = refl
      go (err e) u = refl

  finish_marks :
      (r : Result (Unit {0})) (u : World) (row : StripeEvent)
      → first (Events.has_stripe_id id) (finish r u).1.db.events ≡ some row
      → IsMarked env callbacks (finish r u).0 (finish r u).1.clock row
  unfolding finish Events.mark_processed
  finish_marks (ok _) u row e = marked_ok u {row = row} e
  finish_marks (err x) u row e = marked_err (stored_message env callbacks x) u {row = row} e

  -- However a delivery ends, the row of its event says so: a return is marked as processed at
  -- that time, with no error, and an exception, which is raised again, leaves its text.
  pub process_marks :
      (row : StripeEvent)
      → first (Events.has_stripe_id id) (process_stored_event env callbacks event id w).1.db.events
        ≡ some row
      → IsMarked env callbacks
          (process_stored_event env callbacks event id w).0
          (process_stored_event env callbacks event id w).1.clock
          row
  process_marks row =
      rw process-eq-finish
        (finish_marks (dispatch env callbacks event w).0 (dispatch env callbacks event w).1 row)
