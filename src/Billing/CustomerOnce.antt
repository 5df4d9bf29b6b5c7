-- ===== src/Billing/CustomerOnce.antt =====
-- A user gets one Stripe customer.
use saasmint_core.Base.{
  String, Bool, is_some, ◌&&◌, true, false, Option, none, some, [], ◌∷◌, ◌++◌, ◌≡◌, refl, suc,
  first, first-append, ==_refl, inl, inr, Bool-cases, arith, ◌∙◌, ap, sym,
}
use saasmint_core.Python.{Exn, Json, Result, ok, err}
use saasmint_core.Domain.{Uuid, StripeCustomer}
use saasmint_core.State.{
  Env, World, Action, StripeCall, lift, pure, gets, raise_if, draw, now, ◌>>=◌, ◌>>◌,
}
use saasmint_core.Repositories.Customers
use saasmint_core.Repositories.Customers.{has_user, matches, put, fresh_row, violates}
use saasmint_core.Billing.CustomerAnswer.{read_customer}
use saasmint_core.Billing.{owner_metadata, new_customer, or_create, get_or_create_customer}

-- A save that breaks no constraint, of an owner that has no row.
save_absent :
    (c : StripeCustomer) (w : World)
    → violates c w.db ≡ false
    → first (matches c) w.db.customers ≡ none
    → Customers.save c w ≡ (put c none >> pure c) w
unfolding Customers.save
save_absent c w valid absent = ap checked valid ∙ ap (λ found. (put c found >> pure c) w) absent
  where
    checked : Bool → Result StripeCustomer × World
    checked clash =
        (raise_if clash Exn.integrity_error
            >> (gets (λ db. first (matches c) db.customers) >>= (λ found. put c found >> pure c)))
          w

save_refused :
    (c : StripeCustomer) (w : World)
    → violates c w.db ≡ true
    → Customers.save c w ≡ (err Exn.integrity_error, w)
unfolding Customers.save
save_refused c w e = ground arith

module _ (u : Uuid) (i : Uuid) (read : String × Bool) (t : Uuid) (w : World) where
  abbrev fresh : StripeCustomer
  fresh = new_customer i (some u) none read t

  -- A user's first customer that is saved is found under the user, with its Stripe id.
  save_then_found :
      (p : Result StripeCustomer × World) (c : StripeCustomer)
      → Customers.save fresh w ≡ p
      → first (has_user u) w.db.customers ≡ none
      → p.0 ≡ ok c
      → (row : StripeCustomer) × (first (has_user u) p.1.db.customers ≡ some row)
        × (row.stripe_id ≡ c.stripe_id)
  save_then_found p c saved absent returned = elim (Bool-cases (violates fresh w.db)) [
    | inl bad ↦ let refused = save_refused fresh w bad in cc
    | inr good ↦
        let stored = save_absent fresh w good absent in
        let row : StripeCustomer = fresh_row w.next_draw w.clock fresh in
        let found : first (has_user u) (w.db.customers ++ row ∷ []) ≡ some row =
          first-append (has_user u) w.db.customers (row ∷ []) absent ∙ ground (arith, ==_refl u) in
        let left : p ≡ (put fresh none >> pure fresh) w = sym saved ∙ stored in
        let answer : c ≡ fresh = cc in (row, rw left found, rw answer refl)
  ]

module _ (env : Env) (u : Uuid) where
  -- The look-up of a user who has a customer.
  again :
      (email locale : String) (name : Option String) (row : StripeCustomer) (w : World)
      → first (has_user u) w.db.customers ≡ some row
      → get_or_create_customer env (some u) none email name locale w ≡ (ok row, w)
  unfolding get_or_create_customer Customers.get_by_user_id
  again email locale name row w found = rw found refl

  -- A run that returns a customer leaves the user with a row that has the customer's Stripe id.
  abbrev LeavesRow : Result StripeCustomer × World → Type 0
  LeavesRow p =
      (c : StripeCustomer)
      → p.0 ≡ ok c
      → (row : StripeCustomer) × (first (has_user u) p.1.db.customers ≡ some row)
        × (row.stripe_id ≡ c.stripe_id)

  store_read : Uuid → String × Bool → Action StripeCustomer
  store_read i read = do t ← now; Customers.save (new_customer i (some u) none read t)

  created :
      (email locale : String) (name : Option String) (w : World)
      → first (has_user u) w.db.customers ≡ none
      → LeavesRow (or_create env (some u) none email name locale none w)
  unfolding store_read
  created email locale name w absent = answered (env.respond w.stripe_calls call)
    where
      call : StripeCall
      call = StripeCall.customer_create email name locale (owner_metadata env (some u) none)

      v : World
      v = record w { stripe_calls = w.stripe_calls ++ call ∷ []; next_draw = suc w.next_draw }

      stored : (r : Result (String × Bool)) → LeavesRow ((lift r >>= store_read w.next_draw) v)
      stored (ok read) c returned =
          save_then_found u w.next_draw read w.clock v
            (Customers.save (new_customer w.next_draw (some u) none read w.clock) v) c refl absent
            returned
      stored (err e) c returned = cc

      answered :
          (r : Result Json)
          → LeavesRow (
              ((λ _. (r, record w { stripe_calls = w.stripe_calls ++ call ∷ [] })) >>= (λ a. do
                i ← draw
                read ← lift (read_customer a)
                raise_if (is_some (some u) && is_some {A = Uuid} none) Exn.value_error
                store_read i read))
                w)
      answered (ok a) = stored (read_customer a)
      answered (err e) = λ c returned. cc

  get_leaves_row :
      (email locale : String) (name : Option String) (w : World)
      → LeavesRow (get_or_create_customer env (some u) none email name locale w)
  unfolding get_or_create_customer Customers.get_by_user_id
  get_leaves_row email locale name w = go (first (has_user u) w.db.customers) refl
    where
      go :
          (o : Option StripeCustomer)
          → first (has_user u) w.db.customers ≡ o
          → LeavesRow (or_create env (some u) none email name locale o w)
      go none absent = created email locale name w absent
      go (some row) found = λ c returned. (row, found, ground arith)

-- After a call that returned a user's customer, a later call for that user, with any email, name
-- and locale, returns a customer with the same Stripe id, asks Stripe for nothing and changes
-- nothing.
pub customer_once :
    (env : Env) (u : Uuid) (email email' locale locale' : String) (name name' : Option String)
    (w : World) (c : StripeCustomer)
    → (get_or_create_customer env (some u) none email name locale w).0 ≡ ok c
    → let w' = (get_or_create_customer env (some u) none email name locale w).1 in
      (row : StripeCustomer) × (get_or_create_customer env (some u) none email' name' locale' w'
        ≡ (ok row, w'))
      × (row.stripe_id ≡ c.stripe_id)
customer_once env u email email' locale locale' name name' w c returned =
    let (row, found, same) = get_leaves_row env u email locale name w c returned in
    (row, again env u email' locale' name' row _ found, same)
