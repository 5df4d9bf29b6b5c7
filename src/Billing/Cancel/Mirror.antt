-- ===== src/Billing/Cancel/Mirror.antt =====
-- What cancellation writes.
use saasmint_core.Base.{
  Bool, some, [], ◌∷◌, ◌++◌, ◌≡◌, refl, sym, if◌then◌else◌, none, String, first, update,
  first-update, ◌∙◌, ap, inl, inr, ==_refl, Bool-cases, arith,
}
use saasmint_core.Python.{Json, Result, ok, err}
use saasmint_core.Domain.{Subscription}
use saasmint_core.State.{Env, World, StripeCall, pure, lift, ◌>>=◌, ◌>>◌}
use saasmint_core.Repositories.Subscriptions
use saasmint_core.Repositories.Subscriptions.{has_id, violates, overwrite}
use saasmint_core.Repositories.Subscriptions.Save.{save_refused, save_known}
use saasmint_core.Billing.CancelState.{CancelState, read_cancel_state, with_cancel_state}
use saasmint_core.Billing.Cancel.Calls.{call-asked}
use saasmint_core.Billing.Cancel.Answer.{IsAnswered, state-IsAnswered}
use saasmint_core.Billing.Cancel.{mirror_cancel_state_from_stripe, cancel_call, cancel_now}

-- A save over the row with the same id that returns stores the row.
save_step :
    (s t : Subscription) (w : World)
    → t.id ≡ s.id
    → t.created_at ≡ s.created_at
    → first (has_id t.id) w.db.subscriptions ≡ some s
    → ((Subscriptions.save t >> pure tt) w).0 ≡ ok tt
    → first (has_id t.id) ((Subscriptions.save t >> pure tt) w).1.db.subscriptions ≡ some t
save_step s t w same created found = go (Subscriptions.save t w) refl
  where
    go :
        (p : Result Subscription × World)
        → Subscriptions.save t w ≡ p
        → (((λ _. p) >> pure tt) w).0 ≡ ok tt
        → first (has_id t.id) (((λ _. p) >> pure tt) w).1.db.subscriptions ≡ some t
    go (err x, u) e q = cc
    go (ok x, u) e q = elim (Bool-cases (violates t w.db)) [
      | inl bad ↦ let refused = save_refused t w bad in cc
      | inr good ↦
          let stored = save_known t w good found in
          let keeps : first (has_id t.id) (update (has_id t.id) (overwrite t) w.db.subscriptions)
              ≡ some t =
            first-update (has_id t.id) (overwrite t) w.db.subscriptions (λ y h. ==_refl t.id) found
            ∙ ap some (ground arith) in
          cc
    ]

module _ (env : Env) where
  -- The mirror stores the cancel state of the answer over the row with its id, and leaves the
  -- other columns.
  mirror_stores :
      (s : Subscription) (answer : Json) (w : World)
      → first (has_id s.id) w.db.subscriptions ≡ some s
      → (mirror_cancel_state_from_stripe env s answer w).0 ≡ ok tt
      → (c : CancelState) × (read_cancel_state env answer ≡ ok c)
        × (first (has_id s.id) (mirror_cancel_state_from_stripe env s answer w).1.db.subscriptions
            ≡ some (with_cancel_state s c))
  unfolding mirror_cancel_state_from_stripe
  mirror_stores s answer w found = go (read_cancel_state env answer) refl
    where
      go :
          (r : Result CancelState)
          → read_cancel_state env answer ≡ r
          → ((lift r >>= (λ c. Subscriptions.save (with_cancel_state s c) >> pure tt)) w).0 ≡ ok tt
          → (c : CancelState) × (read_cancel_state env answer ≡ ok c)
            × (first
                  (has_id s.id)
                  ((lift r >>= (λ c. Subscriptions.save (with_cancel_state s c) >> pure tt))
                    w).1.db.subscriptions
                ≡ some (with_cancel_state s c))
      go (err x) e q = cc
      go (ok c) e q = (c, e, save_step s (with_cancel_state s c) w refl refl found q)

  -- A request for cancellation that returns, for a subscription that is in the database, leaves the
  -- row with the times of cancellation that Stripe's answer has, with the status that the answer
  -- names, if it names one, and otherwise as it was.
  pub cancel_stores :
      (at_period_end : Bool) (s : Subscription) (id : String) (w : World)
      → first (has_id s.id) w.db.subscriptions ≡ some s
      → (cancel_now env at_period_end s id w).0 ≡ ok tt
      → (answer : Json) × (row : Subscription) × (env.respond w.stripe_calls (
            if at_period_end
            then StripeCall.subscription_modify_cancel_at id "min_period_end"
            else StripeCall.subscription_cancel id none)
          ≡ ok answer)
        × (first (has_id s.id) (cancel_now env at_period_end s id w).1.db.subscriptions ≡ some row)
        × IsAnswered env answer s row
  unfolding cancel_now
  cancel_stores at_period_end s id w found returned =
      let (answer, row, asked, stored, told) = go (env.respond w.stripe_calls call) refl returned in
      (
        answer,
        row,
        ap (env.respond w.stripe_calls) (sym (call-asked env at_period_end id)) ∙ asked,
        stored,
        told,
      )
    where
      call : StripeCall
      call = cancel_call env at_period_end id

      u : World
      u = record w { stripe_calls = w.stripe_calls ++ call ∷ [] }

      go :
          (r : Result Json)
          → env.respond w.stripe_calls call ≡ r
          → (((λ _. (r, u)) >>= mirror_cancel_state_from_stripe env s) w).0 ≡ ok tt
          → (answer : Json) × (row : Subscription) × (env.respond w.stripe_calls call ≡ ok answer)
            × (first
                  (has_id s.id)
                  (((λ _. (r, u)) >>= mirror_cancel_state_from_stripe env s) w).1.db.subscriptions
                ≡ some row)
            × IsAnswered env answer s row
      go (err x) e q = cc
      go (ok answer) e q =
          let (c, read, stored) = mirror_stores s answer u found q in
          (answer, with_cancel_state s c, e, stored, state-IsAnswered env answer s c read)
