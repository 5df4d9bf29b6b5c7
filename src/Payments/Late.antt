-- ===== src/Payments/Late.antt =====
-- What a request is refused for too late.
use saasmint_core.Base.{
  String, false, Option, none, some, List, ◌≡◌, ap, ◌∙◌, str_eq, if◌then◌else◌,
}
use saasmint_core.Python.{Exn, ok, err}
use saasmint_core.Domain.{User, Subscription}
use saasmint_core.State.{Env, World, Action, pure, raise, ◌>>=◌, ◌>>◌}
use saasmint_core.State.Finds.{>>=-returned}
use saasmint_core.Payments.Prices.{
  invalid, if_full, is_in, supported_currencies, user_preference, with_target, resolve_requested,
  resolve_billing_currency,
}
use saasmint_core.Payments.Changes.{
  refetch_subscription, notify_of_toggle, Update, Prepared, prepare_update, apply_update,
  finish_update, update_subscription,
}

module _ (env : Env) (currencies : List String) (user : User) where
  unsupported :
      (query : Option String) (c : String) (w : World)
      → query ≡ some c
      → str_eq c "" ≡ false
      → is_in supported_currencies (env.lower c) ≡ false
      → resolve_billing_currency env currencies query user w ≡ (err invalid, w)
  unfolding resolve_billing_currency
  unsupported query c w given full unknown =
      ap (λ q. resolve_requested env currencies (if_full q) user w) given
      ∙ (ap (λ b. resolve_requested env currencies (if b then none else some c) user w) full
          ∙ ap
              (λ b.
                (if b
                    then pure (
                        with_target env currencies (env.lower c)
                          (user_preference env currencies user))
                    else raise invalid)
                  w)
              unknown)

  raised :
      {A B : Type 0} (m : Action A) (f : A → Action B) (w : World) (e : Exn)
      → m w ≡ (err e, w)
      → (m >>= f) w ≡ (err e, w)
  raised m f w e h = ap (λ p. ((λ _. p) >>= f) w) h

  -- A change whose request names a currency that is not supported is answered with the error of a
  -- bad request, where it was prepared and carried out: the answer leaves what the change did to
  -- Stripe and to the database.
  pub late_refusal :
      (r : Update) (p : Prepared) (c : String) (w : World)
      → r.currency ≡ some c
      → str_eq c "" ≡ false
      → is_in supported_currencies (env.lower c) ≡ false
      → prepare_update user r w ≡ (ok p, w)
      → let change =
          apply_update env currencies r.cancel_at_period_end p.plan r.seat_limit r.prorate p.scope
            p.paid w in
        change.0 ≡ ok tt → update_subscription env currencies user r w ≡ (err invalid, change.1)
  unfolding update_subscription finish_update
  late_refusal r p c w given full unknown prepared done =
      >>=-returned (prepare_update user r) (finish_update env currencies user r) w p
        (ap (λ x. x.0) prepared)
      ∙ (ap (λ x. finish_update env currencies user r p x.1) prepared
          ∙ (>>=-returned
                (apply_update env currencies r.cancel_at_period_end p.plan r.seat_limit r.prorate
                  p.scope p.paid)
                (λ _. rest p) w tt done
              ∙ raised (resolve_billing_currency env currencies r.currency user) (λ _. last_steps p)
                  _ invalid (unsupported r.currency c _ given full unknown)))
    where
      last_steps : Prepared → Action Subscription
      last_steps p = do
        sub ← refetch_subscription user.id p.scope.context
        notify_of_toggle r.cancel_at_period_end user p.scope.org_id sub
        pure sub

      rest : Prepared → Action Subscription
      rest p = do resolve_billing_currency env currencies r.currency user; last_steps p
