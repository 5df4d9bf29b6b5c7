-- ===== src/Accounts/Erasure/Erased.antt =====
-- What an erasure leaves.
use Prim.Native.String.{◌++◌}
use saasmint_core.Base.{
  ◌==◌, Bool, true, false, Option, none, some, List, [], ◌∷◌, ◌≡◌, refl, sym, subst, ◌∙◌, String,
  option_eq, first, any, select, update, any-delete_gone, Bool-cases, inl, inr,
}
use saasmint_core.Python.{Exn, Result, Json, ok, err}
use saasmint_core.Domain.{
  Uuid, StripeCustomer, Subscription, Org, OrgMember, User, SocialAccount, RefreshToken,
  OneTimeToken, Invitation, CreditBalance, CreditTransaction,
}
use saasmint_core.State.{
  Env, World, StripeCall, pure, request, modify, atomic, try_except, ◌>>=◌, ◌>>◌,
}
use saasmint_core.State.Rules.{Keeps, >>=-Keeps}
use saasmint_core.State.Ends.{Ends, >>=-Ends, >>=-Ends_kept}
use saasmint_core.Repositories.Customers
use saasmint_core.Repositories.Subscriptions
use saasmint_core.Billing.Cancel.Calls.{last, last-append}
use saasmint_core.Accounts.Users.{has_id}
use saasmint_core.Orgs.Deletion.{
  stripe_id_of, pending_ids, delete_rows, one_of, just, holds, drop_customers, owner_user_in,
  delete_users, created_by, cancel_in_stripe, delete_orgs, delete_orgs_created_by_user,
}
use saasmint_core.Orgs.Cancellation.{is_missing}
use saasmint_core.Accounts.Erasure.{
  cancel_if_backed, load_user_and_customer, known_with, unless_missing, stripe_request,
  delete_customer, pre_delete, erase, delete_account, drop_own_memberships,
}

-- No row of the tables points to the user, whose own row is gone.
pub record IsErased (u : Uuid) (w : World) : Type 0 where
  pub users : any (has_id u) w.db.users ≡ false
  pub members : any (λ (m : OrgMember). m.user_id == u) w.db.members ≡ false
  pub customers : any (Customers.has_user u) w.db.customers ≡ false
  pub subscriptions : any (Subscriptions.has_user u) w.db.subscriptions ≡ false
  pub balances :
      any (λ (b : CreditBalance). owner_user_in (just u) b.owner) w.db.credit_balances ≡ false
  pub transactions :
      any (λ (t : CreditTransaction). owner_user_in (just u) t.owner) w.db.credit_transactions
      ≡ false
  pub refresh_tokens : any (λ (t : RefreshToken). t.user_id == u) w.db.refresh_tokens ≡ false
  pub one_time_tokens : any (λ (t : OneTimeToken). t.user_id == u) w.db.one_time_tokens ≡ false
  pub social_accounts : any (λ (a : SocialAccount). a.user_id == u) w.db.social_accounts ≡ false
  pub orgs : any (created_by u) w.db.orgs ≡ false
  pub invitations :
      any (λ (i : Invitation). option_eq ◌==◌ i.invited_by (some u)) w.db.invitations ≡ false

points_to : (u : Uuid) (x : Option Uuid) → option_eq ◌==◌ x (some u) ≡ holds (just u) x
points_to u none = refl
points_to u (some i) = refl

-- An org forgets who created it.
forgotten :
    (u : Uuid) (os : List Org)
    → any (created_by u) (
        update
          (λ (o : Org). holds (just u) o.created_by)
          (λ (o : Org). record o { created_by = none })
          os)
      ≡ false
forgotten u [] = refl
forgotten u (o ∷ os) = elim (Bool-cases (holds (just u) o.created_by)) [
  | inl own ↦ rw own (forgotten u os)
  | inr other ↦ rw (other, points_to u o.created_by ∙ other) (forgotten u os)
]

-- An invitation forgets who sent it.
unsigned :
    (u : Uuid) (is : List Invitation)
    → any
        (λ (i : Invitation). option_eq ◌==◌ i.invited_by (some u))
        (update
          (λ (i : Invitation). holds (just u) i.invited_by)
          (λ (i : Invitation). record i { invited_by = none })
          is)
      ≡ false
unsigned u [] = refl
unsigned u (i ∷ is) = elim (Bool-cases (holds (just u) i.invited_by)) [
  | inl own ↦ rw own (unsigned u is)
  | inr other ↦ rw (other, points_to u i.invited_by ∙ other) (unsigned u is)
]

delete_users-IsErased : (u : Uuid) (w : World) → IsErased u (delete_users (just u) w).1
delete_users-IsErased u w = record {
  users = any-delete_gone (has_id u) (λ x. just u x.id) w.db.users (λ x e. e);
  members = any-delete_gone (λ m. m.user_id == u) (λ m. m.user_id == u) w.db.members (λ x e. e);
  customers =
      any-delete_gone (Customers.has_user u) (λ (c : StripeCustomer). holds (just u) c.user_id)
        w.db.customers (λ x e. sym (points_to u x.user_id) ∙ e);
  subscriptions =
      any-delete_gone (Subscriptions.has_user u) (λ (c : Subscription). holds (just u) c.user_id)
        (drop_customers (λ (c : StripeCustomer). holds (just u) c.user_id) w.db).subscriptions
        (λ x e. sym (points_to u x.user_id) ∙ e);
  balances = any-delete_gone _ _ w.db.credit_balances (λ x e. e);
  transactions = any-delete_gone _ _ w.db.credit_transactions (λ x e. e);
  refresh_tokens = any-delete_gone _ _ w.db.refresh_tokens (λ x e. e);
  one_time_tokens = any-delete_gone _ _ w.db.one_time_tokens (λ x e. e);
  social_accounts = any-delete_gone _ _ w.db.social_accounts (λ x e. e);
  orgs = forgotten u w.db.orgs;
  invitations = unsigned u w.db.invitations;
}

pub delete_users-Ends : (u : Uuid) → Ends (IsErased u) (delete_users (just u))
delete_users-Ends u = record { run = λ w a q. delete_users-IsErased u w }

-- The newest request to Stripe.
abbrev pub HasLast : StripeCall → World → Type 0
HasLast c w = last w.stripe_calls ≡ some c

module _ (env : Env) where
  erase-IsErased :
      (customer : Option StripeCustomer) (u : Uuid) → Ends (IsErased u) (erase env customer u)
  erase-IsErased customer u = search (>>=-Ends, delete_users-Ends u)

  -- The request is on record however Stripe answers.
  stripe_request-HasLast : (c : StripeCall) (w : World) → HasLast c (stripe_request env c w).1
  unfolding stripe_request
  stripe_request-HasLast c w = go (env.respond w.stripe_calls c)
    where
      made : World
      made = (request env c w).1

      missing : (b : Bool) (e : Exn) → HasLast c (unless_missing env b e made).1
      missing true e = last-append w.stripe_calls c
      missing false e = last-append w.stripe_calls c

      go :
          (r : Result Json)
          → HasLast c
              (try_except
                ((λ _. (r, made)) >> pure tt)
                (λ e. unless_missing env (is_missing e) e)
                w).1
      go (ok a) = last-append w.stripe_calls c
      go (err e) = missing (is_missing e) e

  customer_asked :
      (c : StripeCustomer)
      → Ends (HasLast (StripeCall.customer_delete c.stripe_id)) (delete_customer env (some c))
  unfolding Customers.remove
  customer_asked c =
      >>=-Ends_kept _ (stripe_request env (StripeCall.customer_delete c.stripe_id))
        (λ _. Customers.remove c.id)
        (record {
          run = λ w a q. stripe_request-HasLast (StripeCall.customer_delete c.stripe_id) w;
        })
        (λ _. record { run = λ w h. h })

  queued :
      (c : StripeCall) (ids : List String) (label : String) (w : World)
      → HasLast c w
      → HasLast c (cancel_in_stripe ids label w).1
  queued c [] label w h = h
  queued c (id ∷ ids) label w h = h

  delete_orgs-Keeps :
      (c : StripeCall) (os : List Org) (u : Uuid) → Keeps (HasLast c) (delete_orgs env os u)
  delete_orgs-Keeps c [] u = record { run = λ w h. h }
  delete_orgs-Keeps c (o ∷ os) u = record {
    run = λ w h.
        queued c (pending_ids w.db (o ∷ os)) ("user:" ++ env.uuid_text u)
          (atomic (delete_rows (one_of (o ∷ os))) w).1 h;
  }

  pre_delete-Keeps : (c : StripeCall) (u : Uuid) → Keeps (HasLast c) (pre_delete env u)
  unfolding pre_delete delete_orgs_created_by_user
  pre_delete-Keeps c u =
      >>=-Keeps {m = delete_orgs_created_by_user env u} {f = λ _. modify (drop_own_memberships u)}
        (record { run = λ w h. (delete_orgs-Keeps c (select (created_by u) w.db.orgs) u).run w h })
        (λ _. record { run = λ w h. h })

  erase-asks :
      (c : StripeCustomer) (u : Uuid)
      → Ends (HasLast (StripeCall.customer_delete c.stripe_id)) (erase env (some c) u)
  erase-asks c u = >>=-Ends _ (Subscriptions.get_active_for_user u) _ (λ active.
      >>=-Ends _ (cancel_if_backed env (stripe_id_of active)) _ (λ _.
        >>=-Ends_kept _ (delete_customer env (some c))
          (λ _. pre_delete env u >> delete_users (just u)) (customer_asked c)
          (λ _.
            >>=-Keeps {m = pre_delete env u} {f = λ _. delete_users (just u)}
              (pre_delete-Keeps (StripeCall.customer_delete c.stripe_id) u)
              (λ _. record { run = λ w h. h }))))

  -- An erasure that returns leaves no row that points to the user, and its last request to Stripe
  -- deletes the user's customer, where there is one.
  pub delete_account-IsErased :
      (u : Uuid) (w : World)
      → (delete_account env u w).0 ≡ ok tt
      → let w' = (delete_account env u w).1 in
        IsErased u w'
        × ((c : StripeCustomer)
            → first (Customers.has_user u) w.db.customers ≡ some c
            → HasLast (StripeCall.customer_delete c.stripe_id) w')
  unfolding delete_account load_user_and_customer Customers.get_by_user_id
  delete_account-IsErased u w =
      go (first (has_id u) w.db.users) (first (Customers.has_user u) w.db.customers)
    where
      erased : Option User → Option StripeCustomer → Result (Unit {0}) × World
      erased user customer =
          ((λ _. known_with user customer w) >>= (λ loaded. erase env loaded.1 u)) w

      cc_of : {c d : StripeCustomer} → some d ≡ some c → d ≡ c
      cc_of e = cc

      go :
          (user : Option User) (customer : Option StripeCustomer)
          → (erased user customer).0 ≡ ok tt
          → IsErased u (erased user customer).1
            × ((c : StripeCustomer)
                → customer ≡ some c
                → HasLast (StripeCall.customer_delete c.stripe_id) (erased user customer).1)
      go none customer q = cc
      go (some user) none q = ((erase-IsErased none u).run w tt q, λ c e. cc)
      go (some user) (some d) q = (
        (erase-IsErased (some d) u).run w tt q,
        λ c e.
            subst
              (λ x.
                HasLast (StripeCall.customer_delete x.stripe_id) (erased (some user) (some d)).1)
              (cc_of e) ((erase-asks d u).run w tt q),
      )
