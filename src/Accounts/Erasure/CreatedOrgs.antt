-- ===== src/Accounts/Erasure/CreatedOrgs.antt =====
-- What an erasure does to the orgs that the user created.
use Prim.Native.String.{◌++◌}
use saasmint_core.Base.{
  Bool, true, false, Option, none, some, List, [], ◌∷◌, String, ◌≡◌, refl, ap, ◌∙◌, arith, first,
  any, select, update, any-delete_gone, any-delete_none, ==_iff, ◌&&◌,
}
use saasmint_core.Python.{Exn, Result, Json, ok, err}
use saasmint_core.Domain.{Uuid, Org, OrgMember, StripeCustomer, User}
use saasmint_core.State.{
  Env, World, Db, StripeCall, atomic, pure, request, modify, try_except, ◌>>=◌, ◌>>◌,
}
use saasmint_core.State.Rules.{Keeps, >>=-Keeps}
use saasmint_core.State.Ends.{EndsFrom, >>=-EndsFrom, >>=-EndsFrom_kept}
use saasmint_core.Repositories.Customers
use saasmint_core.Repositories.Subscriptions
use saasmint_core.Accounts.Users.{has_id}
use saasmint_core.Orgs.Creation.{has_org_id}
use saasmint_core.Orgs.Invitations.{in_org}
use saasmint_core.Orgs.Cancellation.{is_missing, cancel_request}
use saasmint_core.Orgs.Deletion.{
  IdSet, pending_ids, delete_rows, cancel_pending, drop_members, just, holds, stripe_id_of, one_of,
  created_by, deletable, delete_users, cancel_in_stripe, delete_orgs, delete_orgs_created_by_user,
}
use saasmint_core.Accounts.Erasure.{
  known_with, load_user_and_customer, unless_missing, stripe_request, cancel_if_backed,
  delete_customer, drop_own_memberships, pre_delete, erase, delete_account,
}

abbrev HasOrgs : List Org → World → Type 0
HasOrgs orgs w = w.db.orgs ≡ orgs

-- The org is gone, with its memberships.
pub record IsGone (o : Uuid) (w : World) : Type 0 where
  pub org : any (has_org_id o) w.db.orgs ≡ false
  pub members : any (in_org o) w.db.members ≡ false

any-update_kept :
    {A : Type 0} (q p : A → Bool) (f : A → A) (xs : List A)
    → ((x : A) → q (f x) ≡ q x)
    → any q (update p f xs) ≡ any q xs
any-update_kept q p f [] keep = refl
any-update_kept q p f (x ∷ xs) keep = ground (arith, keep x, any-update_kept q p f xs keep)

delete_users-Keeps : (o : Uuid) (u : Uuid) → Keeps (IsGone o) (delete_users (just u))
delete_users-Keeps o u = record {
  run = λ w gone. record {
    org =
        any-update_kept (has_org_id o) (λ (x : Org). holds (just u) x.created_by)
          (λ (x : Org). record x { created_by = none }) w.db.orgs (λ x. refl)
        ∙ gone.org;
    members =
        any-delete_none (in_org o) (λ (m : OrgMember). just u m.user_id) w.db.members gone.members;
  };
}

delete_rows-IsGone :
    (s : IdSet) (o : Uuid) → s o ≡ true → (w : World) → IsGone o (delete_rows s w).1
delete_rows-IsGone s o inside w = record {
  org =
      any-delete_gone (has_org_id o) (λ (x : Org). s x.id) (drop_all w).orgs
        (λ x e. ap s ((==_iff x.id o).0 e) ∙ inside);
  members =
      any-delete_gone (in_org o) (λ (m : OrgMember). s m.org_id) (drop_all w).members
        (λ m e. ap s ((==_iff m.org_id o).0 e) ∙ inside);
}
  where
    -- The rows before the orgs go.
    drop_all : World → Db
    drop_all w =
        drop_members s
          (delete_users (deletable s (cancel_pending s w.db))
            (record w { db = cancel_pending s w.db })).1.db

module _ (env : Env) where
  stripe_request-Keeps :
      (orgs : List Org) (c : StripeCall) → Keeps (HasOrgs orgs) (stripe_request env c)
  unfolding stripe_request
  stripe_request-Keeps orgs c = record { run = λ w h. go w h (env.respond w.stripe_calls c) }
    where
      made : World → World
      made w = (request env c w).1

      missing :
          (w : World)
          → HasOrgs orgs w
          → (b : Bool) (e : Exn) → HasOrgs orgs (unless_missing env b e (made w)).1
      missing w h true e = h
      missing w h false e = h

      go :
          (w : World)
          → HasOrgs orgs w
          → (r : Result Json)
          → HasOrgs orgs
              (try_except
                ((λ _. (r, made w)) >> pure tt)
                (λ e. unless_missing env (is_missing e) e)
                w).1
      go w h (ok a) = h
      go w h (err e) = missing w h (is_missing e) e

  cancel-Keeps :
      (orgs : List Org) (o : Option String) → Keeps (HasOrgs orgs) (cancel_if_backed env o)
  cancel-Keeps orgs none = record { run = λ w h. h }
  cancel-Keeps orgs (some id) = stripe_request-Keeps orgs (cancel_request id)

  delete_customer-Keeps :
      (orgs : List Org) (c : Option StripeCustomer) → Keeps (HasOrgs orgs) (delete_customer env c)
  unfolding Customers.remove
  delete_customer-Keeps orgs none = record { run = λ w h. h }
  delete_customer-Keeps orgs (some c) =
      >>=-Keeps {m = stripe_request env (StripeCall.customer_delete c.stripe_id)}
        {f = λ _. Customers.remove c.id}
        (stripe_request-Keeps orgs (StripeCall.customer_delete c.stripe_id))
        (λ _. record { run = λ w h. h })

  cancelled-IsGone :
      (ids : List String) (label : String) (o : Uuid) (w : World)
      → IsGone o w
      → IsGone o (cancel_in_stripe ids label w).1
  cancelled-IsGone [] label o w h = h
  cancelled-IsGone (id ∷ ids) label o w h = record { org = h.org; members = h.members }

  delete_orgs-IsGone :
      (orgs : List Org) (u o : Uuid) (w : World)
      → one_of orgs o ≡ true
      → IsGone o (delete_orgs env orgs u w).1
  delete_orgs-IsGone [] u o w h = cc
  delete_orgs-IsGone (x ∷ xs) u o w h =
      cancelled-IsGone (pending_ids w.db (x ∷ xs)) ("user:" ++ env.uuid_text u) o
        (atomic (delete_rows (one_of (x ∷ xs))) w).1 (delete_rows-IsGone (one_of (x ∷ xs)) o h w)

  created-one_of :
      (u o : Uuid) (orgs : List Org)
      → any (λ x. created_by u x && has_org_id o x) orgs ≡ true
      → one_of (select (created_by u) orgs) o ≡ true
  created-one_of u o [] h = h
  created-one_of u o (x ∷ xs) h = ground (arith, h, created-one_of u o xs)

  module _ (u o : Uuid) (orgs : List Org)
      (created : any (λ x. created_by u x && has_org_id o x) orgs ≡ true) where
    hook-IsGone : EndsFrom (HasOrgs orgs) (IsGone o) (pre_delete env u)
    unfolding pre_delete delete_orgs_created_by_user
    hook-IsGone =
        >>=-EndsFrom_kept (HasOrgs orgs) (IsGone o) (delete_orgs_created_by_user env u)
          (λ _. modify (drop_own_memberships u))
          (record {
            run = λ w h a q.
                delete_orgs-IsGone (select (created_by u) w.db.orgs) u o w (
                  ap (λ l. one_of (select (created_by u) l) o) h ∙ created-one_of u o orgs created);
          })
          (λ _. record {
            run = λ w gone. record {
              org = gone.org;
              members =
                  any-delete_none (in_org o) (λ (m : OrgMember). just u m.user_id) w.db.members
                    gone.members;
            };
          })

    erase-IsGone :
        (customer : Option StripeCustomer)
        → EndsFrom (HasOrgs orgs) (IsGone o) (erase env customer u)
    unfolding Subscriptions.get_active_for_user
    erase-IsGone customer =
        >>=-EndsFrom _ _ (Subscriptions.get_active_for_user u) _ (record { run = λ w h. h })
          (λ active.
            >>=-EndsFrom _ _ (cancel_if_backed env (stripe_id_of active)) _
              (cancel-Keeps orgs (stripe_id_of active))
              (λ _.
                >>=-EndsFrom _ _ (delete_customer env customer) _
                  (delete_customer-Keeps orgs customer)
                  (λ _.
                    >>=-EndsFrom_kept _ _ (pre_delete env u) (λ _. delete_users (just u))
                      hook-IsGone (λ _. delete_users-Keeps o u))))

  -- An erasure that returns deletes every org that the user created, with its memberships, whoever
  -- owns it by then.
  pub created_org-IsGone :
      (u o : Uuid) (w : World)
      → any (λ x. created_by u x && has_org_id o x) w.db.orgs ≡ true
      → (delete_account env u w).0 ≡ ok tt
      → IsGone o (delete_account env u w).1
  unfolding delete_account load_user_and_customer Customers.get_by_user_id
  created_org-IsGone u o w created = go (first (has_id u) w.db.users)
    where
      customer : Option StripeCustomer
      customer = first (Customers.has_user u) w.db.customers

      erased : Option User → Result (Unit {0}) × World
      erased user = ((λ _. known_with user customer w) >>= (λ loaded. erase env loaded.1 u)) w

      go : (user : Option User) → (erased user).0 ≡ ok tt → IsGone o (erased user).1
      go none q = cc
      go (some user) q = (erase-IsGone u o w.db.orgs created customer).run w refl tt q
