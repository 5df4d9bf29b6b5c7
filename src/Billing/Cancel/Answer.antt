-- ===== src/Billing/Cancel/Answer.antt =====
-- What a subscription says of Stripe's answer to a cancellation.
use saasmint_core.Base.{Option, none, some, String, ◌≡◌, ◌≢◌, refl, subst, ◌∙◌}
use saasmint_core.Python.{Json, ok, attr, ◌>>=◌, >>=-ok, >>=-after, ok-same}
use saasmint_core.Values.{ts_to_dt}
use saasmint_core.Domain.{Subscription, SubscriptionStatus, parse_status}
use saasmint_core.State.{Env}
use saasmint_core.Billing.CancelState.{CancelState, read_cancel_state, status_or, with_cancel_state}

-- The status after an answer: the one that it names, or else the old one.
pub data IsTold (old new : SubscriptionStatus) : Json → Type 0 where
  named : (s : String) → parse_status s ≡ some new → IsTold old new (Json.str s)
  unknown : (s : String) → parse_status s ≡ none → new ≡ old → IsTold old new (Json.str s)
  no_text : (v : Json) → ((s : String) → v ≢ Json.str s) → new ≡ old → IsTold old new v

-- The row has the cancel state of the answer, and what else it had before.
pub record IsAnswered (env : Env) (answer : Json) (before after : Subscription) : Type 0 where
  pub cancel_at : (attr answer "cancel_at" >>= ts_to_dt env) ≡ ok after.cancel_at
  pub canceled_at : (attr answer "canceled_at" >>= ts_to_dt env) ≡ ok after.canceled_at
  pub status : (v : Json) × (attr answer "status" ≡ ok v) × IsTold before.status after.status v
  pub rest : after ≡ record before {
    cancel_at = after.cancel_at;
    canceled_at = after.canceled_at;
    status = after.status;
  }

status_or-IsTold : (old : SubscriptionStatus) (v : Json) → IsTold old (status_or old v) v
unfolding status_or
status_or-IsTold old (Json.str s) = go (parse_status s) refl
  where
    go :
        (o : Option SubscriptionStatus)
        → parse_status s ≡ o
        → IsTold old (elim o [ none ↦ old | some new ↦ new ]) (Json.str s)
    go none e = unknown s e refl
    go (some new) e = named s e
status_or-IsTold old Json.null = no_text Json.null (λ s h. cc) refl
status_or-IsTold old (Json.bool b) = no_text (Json.bool b) (λ s h. cc) refl
status_or-IsTold old (Json.int n) = no_text (Json.int n) (λ s h. cc) refl
status_or-IsTold old (Json.arr xs) = no_text (Json.arr xs) (λ s h. cc) refl
status_or-IsTold old (Json.obj fs) = no_text (Json.obj fs) (λ s h. cc) refl

-- The row that the mirror makes of an answer that it has read.
pub state-IsAnswered :
    (env : Env) (answer : Json) (s : Subscription) (c : CancelState)
    → read_cancel_state env answer ≡ ok c
    → IsAnswered env answer s (with_cancel_state s c)
unfolding read_cancel_state
state-IsAnswered env answer s c e = >>=-ok (attr answer "cancel_at") _ e (λ a ea e.
    >>=-ok (attr answer "canceled_at") _ e (λ b eb e. >>=-ok (attr answer "status") _ e (λ v ev e.
      >>=-ok (ts_to_dt env a) _ e (λ x ex e. >>=-ok (ts_to_dt env b) _ e (λ y ey e.
        subst (λ c. IsAnswered env answer s (with_cancel_state s c)) (ok-same e)
          (record {
            cancel_at = >>=-after _ ea ∙ ex;
            canceled_at = >>=-after _ eb ∙ ey;
            status = (v, ev, status_or-IsTold s.status v);
            rest = refl;
          }))))))
