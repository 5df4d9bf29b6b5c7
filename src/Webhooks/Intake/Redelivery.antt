-- ===== src/Webhooks/Intake/Redelivery.antt =====
-- A request that is delivered again.
use saasmint_core.Base.{
  suc, Option, none, some, [], ◌∷◌, ◌++◌, ◌≡◌, refl, sym, ap, ◌∙◌, str_eq_refl, ==_refl, first,
  first-append,
}
use saasmint_core.Python.{ok}
use saasmint_core.Domain.{Uuid}
use saasmint_core.State.{Env, World, Task, StripeEvent, atomic}
use saasmint_core.Repositories.Events.{has_stripe_id}
use saasmint_core.Webhooks.Intake.Request.{HttpRequest, Gateway, Incoming, Screening, screen}
use saasmint_core.Webhooks.Task.{has_event_id}
use saasmint_core.Webhooks.Intake.{
  event_row, store_unless_known, store_event, respond, stripe_webhook,
}

-- The store of an event that is known changes nothing.
store_known :
    (incoming : Incoming) (w : World) (row : StripeEvent)
    → first (has_stripe_id incoming.stripe_id) w.db.events ≡ some row
    → store_event incoming w ≡ (ok 202, w)
unfolding store_event
store_known incoming w row found = ap (λ o. atomic (store_unless_known o incoming) w) found

-- The row of a new event is found by its Stripe id.
event_row-first :
    (incoming : Incoming) (i : Uuid) (w : World)
    → first (has_stripe_id incoming.stripe_id) w.db.events ≡ none
    → first (has_stripe_id incoming.stripe_id) (w.db.events ++ event_row i incoming ∷ [])
      ≡ some (event_row i incoming)
event_row-first incoming i w new =
    rw
      (
        first-append (has_stripe_id incoming.stripe_id) w.db.events (event_row i incoming ∷ []) new,
        str_eq_refl incoming.stripe_id,
      )
      refl

-- And by its id.
event_row-first_id :
    (incoming : Incoming) (i : Uuid) (w : World)
    → first (has_event_id i) w.db.events ≡ none
    → first (has_event_id i) (w.db.events ++ event_row i incoming ∷ [])
      ≡ some (event_row i incoming)
event_row-first_id incoming i w new =
    rw (first-append (has_event_id i) w.db.events (event_row i incoming ∷ []) new, ==_refl i) refl

-- What a new event leaves.
abbrev pub stored : Incoming → World → World
stored incoming w = record w {
  db = record w.db { events = w.db.events ++ event_row w.next_draw incoming ∷ [] };
  next_draw = suc w.next_draw;
  queue = w.queue ++ Task.process_stripe_webhook w.next_draw ∷ [];
}

pub store_new :
    (incoming : Incoming) (w : World)
    → first (has_stripe_id incoming.stripe_id) w.db.events ≡ none
    → store_event incoming w ≡ (ok 202, stored incoming w)
unfolding store_event
store_new incoming w new = ap (λ o. atomic (store_unless_known o incoming) w) new

store_twice :
    (incoming : Incoming) (o : Option StripeEvent) (w : World)
    → first (has_stripe_id incoming.stripe_id) w.db.events ≡ o
    → store_event incoming (store_event incoming w).1 ≡ (ok 202, (store_event incoming w).1)
store_twice incoming (some row) w found =
    rw (store_known incoming w row found) (store_known incoming w row found)
store_twice incoming none w new =
    rw (store_new incoming w new)
      (store_known incoming _ _ (event_row-first incoming w.next_draw w new))

store-answer : (incoming : Incoming) (w : World) → (store_event incoming w).0 ≡ ok 202
unfolding store_event
store-answer incoming w = go (first (has_stripe_id incoming.stripe_id) w.db.events)
  where
    go : (o : Option StripeEvent) → (atomic (store_unless_known o incoming) w).0 ≡ ok 202
    go (some row) = refl
    go none = refl

-- A request that passes the checks, with an event whose Stripe id no row has, is answered with 202;
-- the event is in the table, as it came and not processed, under its Stripe id and under the id
-- that is drawn for it, where no row has that id; and the one message that is sent names that row.
pub new_event_queued :
    (env : Env) (gateway : Gateway) (request : HttpRequest) (incoming : Incoming) (w : World)
    → screen env gateway request ≡ Screening.accepted incoming
    → first (has_stripe_id incoming.stripe_id) w.db.events ≡ none
    → first (has_event_id w.next_draw) w.db.events ≡ none
    → let (r, w') = stripe_webhook env gateway request w in
      (r ≡ ok 202)
      × (first (has_stripe_id incoming.stripe_id) w'.db.events
          ≡ some (event_row w.next_draw incoming))
      × (first (has_event_id w.next_draw) w'.db.events ≡ some (event_row w.next_draw incoming))
      × (w'.queue ≡ w.queue ++ Task.process_stripe_webhook w.next_draw ∷ [])
unfolding stripe_webhook
new_event_queued env gateway request incoming w passed new fresh =
    rw (passed, store_new incoming w new)
      (
        refl,
        event_row-first incoming w.next_draw w new,
        event_row-first_id incoming w.next_draw w fresh,
        refl,
      )

-- A request that is delivered again, whatever came of the first delivery, gets the same answer and
-- changes nothing: no second row, and no second task.
pub redelivery_unchanged :
    (env : Env) (gateway : Gateway) (request : HttpRequest) (w : World)
    → let (r, w') = stripe_webhook env gateway request w in
      stripe_webhook env gateway request w' ≡ (r, w')
unfolding stripe_webhook
redelivery_unchanged env gateway request w = go (screen env gateway request)
  where
    go : (s : Screening) → respond s (respond s w).1 ≡ ((respond s w).0, (respond s w).1)
    go (Screening.answer status) = refl
    go (Screening.raises e) = refl
    go (Screening.accepted incoming) =
        store_twice incoming (first (has_stripe_id incoming.stripe_id) w.db.events) w refl
        ∙ sym (ap (λ r. (r, (store_event incoming w).1)) (store-answer incoming w))
