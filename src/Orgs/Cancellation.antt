-- ===== src/Orgs/Cancellation.antt =====
-- `cancel_stripe_subs_task` of apps/orgs/tasks.py.
use mathlib.Core.List.{append_assoc, append-nil}
use saasmint_core.Base.{
  String, Bool, true, false, Option, none, some, List, [], ◌∷◌, ◌++◌, ◌≡◌, refl, str_eq, sym, ◌∙◌,
}
use saasmint_core.Python.{Exn, Json, Result, ok, err}
use saasmint_core.State.{Env, World, Action, StripeCall, pure, raise}

-- The exceptions of the Stripe SDK: `stripe.StripeError` and its subclasses.
abbrev pub is_stripe_error : Exn → Bool
is_stripe_error (Exn.invalid_request code) = true
is_stripe_error Exn.stripe_error = true
is_stripe_error Exn.connection_error = true
is_stripe_error _ = false

-- A subscription that is already gone is no failure.
abbrev pub is_missing : Exn → Bool
is_missing (Exn.invalid_request code) = str_eq code "resource_missing"
is_missing _ = false

abbrev pub cancel_request : String → StripeCall
cancel_request id = StripeCall.subscription_cancel id (some false)

-- The first failure is the one that is raised in the end.
abbrev pub first_failure : Option Exn → Exn → Option Exn
first_failure none e = some e
first_failure (some f) e = some f

abbrev pub raise_failure : Option Exn → Action (Unit {0})
raise_failure none = pure tt
raise_failure (some e) = raise e

-- The three `except` clauses: swallow, collect, or let it propagate.
abbrev pub on_error :
    (missing of_stripe : Bool)
    → Exn
    → Option Exn
    → (Option Exn → Action (Unit {0}))
    → Action (Unit {0})
on_error true of_stripe e failure next = next failure
on_error false true e failure next = next (first_failure failure e)
on_error false false e failure next = raise e

-- What follows one request.
abbrev pub after : Result Json → Option Exn → (Option Exn → Action (Unit {0})) → Action (Unit {0})
after (ok answer) failure next = next failure
after (err e) failure next = on_error (is_missing e) (is_stripe_error e) e failure next

-- The loop, with the first of the failures so far.
unfoldable pub cancel_each : Env → Option Exn → List String → Action (Unit {0})
cancel_each env failure [] = raise_failure failure
cancel_each env failure (id ∷ ids) = λ w.
    after (env.respond w.stripe_calls (cancel_request id)) failure (λ f. cancel_each env f ids)
      (record w { stripe_calls = w.stripe_calls ++ cancel_request id ∷ [] })

unfoldable pub cancel_stripe_subs_task : Env → List String → Action (Unit {0})
cancel_stripe_subs_task env ids = cancel_each env none ids

abbrev pub requests : List String → List StripeCall
requests [] = []
requests (id ∷ ids) = cancel_request id ∷ requests ids

-- What follows a request makes the requests that the rest of the loop makes.
after-calls :
    (calls : List StripeCall) (failure : Option Exn) (next : Option Exn → Action (Unit {0}))
    (w : World)
    → ((f : Option Exn) → (next f w).1.stripe_calls ≡ calls)
    → (r : Result Json) → ((e : Exn) → r ≡ err e → is_stripe_error e ≡ true)
    → (after r failure next w).1.stripe_calls ≡ calls
after-calls calls failure next w rest (ok answer) raises = rest failure
after-calls calls failure next w rest (err e) raises =
    go (is_missing e) (is_stripe_error e) (raises e refl)
  where
    go :
        (missing of_stripe : Bool)
        → of_stripe ≡ true
        → (on_error missing of_stripe e failure next w).1.stripe_calls ≡ calls
    go true of_stripe h = rest failure
    go false true h = rest (first_failure failure e)
    go false false h = cc

module _ (env : Env)
    (raises : (calls : List StripeCall) (c : StripeCall) (e : Exn)
      → env.respond calls c ≡ err e
      → is_stripe_error e ≡ true) where
  cancel_each-calls :
      (failure : Option Exn) (ids : List String) (w : World)
      → (cancel_each env failure ids w).1.stripe_calls ≡ w.stripe_calls ++ requests ids
  unfolding cancel_each
  cancel_each-calls none [] w = sym (append-nil w.stripe_calls)
  cancel_each-calls (some e) [] w = sym (append-nil w.stripe_calls)
  cancel_each-calls failure (id ∷ ids) w =
      after-calls _ failure _ _ (λ f. cancel_each-calls f ids _)
        (env.respond w.stripe_calls (cancel_request id)) (raises w.stripe_calls (cancel_request id))
      ∙ append_assoc w.stripe_calls (cancel_request id ∷ []) (requests ids)

  -- Where Stripe raises only the exceptions of its SDK, the task asks for the cancellation of
  -- every subscription of its list, once each and in order, whatever fails on the way.
  pub cancel_all_asked :
      (ids : List String) (w : World)
      → (cancel_stripe_subs_task env ids w).1.stripe_calls ≡ w.stripe_calls ++ requests ids
  unfolding cancel_stripe_subs_task
  cancel_all_asked ids w = cancel_each-calls none ids w
