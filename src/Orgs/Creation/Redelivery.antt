-- ===== src/Orgs/Creation/Redelivery.antt =====
-- A team checkout that is delivered again creates no second org.
use saasmint_core.Base.{
  suc, Bool, true, false, Option, none, some, List, [], ◌∷◌, ◌++◌, ◌≡◌, refl, sym, ap, subst, ◌∙◌,
  String, first, any, map, arith, ==_refl, str_eq_refl, first-append,
}
use saasmint_core.Python.{Result, ok}
use saasmint_core.Domain.{Uuid, Org, OrgMember, StripeCustomer}
use saasmint_core.State.{World, atomic, pure, ◌>>=◌, ◌>>◌}
use saasmint_core.State.Rules.{atomic_ok}
use saasmint_core.Repositories.Customers
use saasmint_core.Orgs.Slugs.{base_of, free_slug}
use saasmint_core.Orgs.Creation.{
  has_org_id, is_member, already, org_of_customer, org_and_member, insert_org, insert_owner,
  insert_customer, org_customer, owner_row, org_row, add_customer, add_owner, create_with,
  create_unless_known, create_org_with_owner,
}

-- What a creation for a customer leaves.
record Created (user : Uuid) (customer : String) (r : Org × OrgMember) (w w' : World) : Type 0 where
  id : Uuid
  name : String
  slug : String
  row : StripeCustomer
  is_row : row ≡ org_customer row.id row.created_at customer row.livemode w.next_draw
  was_unknown : any (Customers.has_stripe_id customer) w.db.customers ≡ false
  customers : w'.db.customers ≡ w.db.customers ++ row ∷ []
  orgs : w'.db.orgs ≡ w.db.orgs ++ org_row w.next_draw name slug user ∷ []
  members : w'.db.members ≡ w.db.members ++ owner_row id w.next_draw user ∷ []
  returned : r ≡ (org_row w.next_draw name slug user, owner_row id w.next_draw user)

any-first : {A : Type 0} (p : A → Bool) (xs : List A) → any p xs ≡ false → first p xs ≡ none
any-first p [] e = refl
any-first p (x ∷ xs) e = ground (arith, any-first p xs)

module _ (user : Uuid) (name customer : String) (livemode : Bool) (w : World)
    (r : Org × OrgMember) where
  u : String → World
  u slug = record w {
    next_draw = suc w.next_draw;
    db = record w.db { orgs = w.db.orgs ++ org_row w.next_draw name slug user ∷ [] };
  }

  v : String → World
  v slug = record (u slug) {
    next_draw = suc (suc w.next_draw);
    db = record (u slug).db {
      members = w.db.members ++ owner_row (suc w.next_draw) w.next_draw user ∷ [];
    };
  }

  with_customer :
      (slug : String) (clash : Bool)
      → any (Customers.has_stripe_id customer) w.db.customers ≡ clash
      → let p : Result (Org × OrgMember) × World =
          (insert_customer clash
                (org_customer (suc (suc w.next_draw)) w.clock customer livemode w.next_draw)
              >> pure (
                org_row w.next_draw name slug user,
                owner_row (suc w.next_draw) w.next_draw user,
              ))
            (record (v slug) { next_draw = suc (suc (suc w.next_draw)) }) in
        p.0 ≡ ok r → Created user customer r w p.1
  unfolding u v
  with_customer slug true unknown e = cc
  with_customer slug false unknown e = record {
    id = suc w.next_draw;
    name = name;
    slug = slug;
    row = org_customer (suc (suc w.next_draw)) w.clock customer livemode w.next_draw;
    is_row = refl;
    was_unknown = unknown;
    customers = refl;
    orgs = refl;
    members = refl;
    returned = sym (ok_inj e);
  }
    where
      ok_inj : {a b : Org × OrgMember} → ok a ≡ ok b → a ≡ b
      ok_inj h = cc

  with_owner :
      (slug : String) (owns : Bool)
      → let p : Result (Org × OrgMember) × World =
          (insert_owner owns (owner_row (suc w.next_draw) w.next_draw user)
              >>= add_customer (some customer) livemode (org_row w.next_draw name slug user))
            (record (u slug) { next_draw = suc (suc w.next_draw) }) in
        p.0 ≡ ok r → Created user customer r w p.1
  unfolding u v
  with_owner slug true e = cc
  with_owner slug false e = with_customer slug _ refl e

  with_org :
      (slug : String) (taken : Bool)
      → let p : Result (Org × OrgMember) × World =
          (insert_org taken (org_row w.next_draw name slug user)
              >>= add_owner user (some customer) livemode)
            (record w { next_draw = suc w.next_draw }) in
        p.0 ≡ ok r → Created user customer r w p.1
  unfolding u
  with_org slug true e = cc
  with_org slug false e = with_owner slug _ e

  create-Created :
      (slug : Option String)
      → (create_with slug user name (some customer) livemode w).0 ≡ ok r
      → Created user customer r w (create_with slug user name (some customer) livemode w).1
  create-Created none e = cc
  create-Created (some slug) e = with_org slug _ e

-- A first row that passes a test, after rows that do not.
first-new :
    {A : Type 0} (p : A → Bool) (xs : List A) (y : A)
    → first p xs ≡ none
    → p y ≡ true
    → first p (xs ++ y ∷ []) ≡ some y
first-new p xs y absent passes = first-append p xs (y ∷ []) absent ∙ ground arith

module _ (slugify : String → String) (user : Uuid) (customer : String) (w : World)
    (r : Org × OrgMember) where
  -- What the short-circuit then finds.
  created-already :
      (w' : World)
      → Created user customer r w w'
      → first (has_org_id w.next_draw) w.db.orgs ≡ none
      → first (is_member w.next_draw user) w.db.members ≡ none
      → already w'.db user (some customer) ≡ some r
  created-already w' made no_org no_member =
      ap (org_of_customer w'.db user) (
        ap (first (Customers.has_stripe_id customer)) made.customers
        ∙ first-new (Customers.has_stripe_id customer) w.db.customers made.row
            (any-first (Customers.has_stripe_id customer) w.db.customers made.was_unknown)
            (ap (Customers.has_stripe_id customer) made.is_row ∙ str_eq_refl customer))
      ∙ ap (λ c. org_of_customer w'.db user (some c)) made.is_row
      ∙ ap (org_and_member w'.db user) (
          ap (first (has_org_id w.next_draw)) made.orgs
          ∙ first-new (has_org_id w.next_draw) w.db.orgs
              (org_row w.next_draw made.name made.slug user) no_org (==_refl w.next_draw))
      ∙ ap with_member (
          ap (first (is_member w.next_draw user)) made.members
          ∙ first-new (is_member w.next_draw user) w.db.members (owner_row made.id w.next_draw user)
              no_member (is_it made.id))
      ∙ ap some (sym made.returned)
    where
      with_member : Option OrgMember → Option (Org × OrgMember)
      with_member o = elim o [
        | none ↦ none
        | some m ↦ some (org_row w.next_draw made.name made.slug user, m)
      ]

      is_it : (i : Uuid) → is_member w.next_draw user (owner_row i w.next_draw user) ≡ true
      is_it i = rw (==_refl w.next_draw, ==_refl user) refl

  known_again :
      (name : String) (livemode : Bool) (w' : World)
      → already w'.db user (some customer) ≡ some r
      → create_org_with_owner slugify user name (some customer) livemode w' ≡ (ok r, w')
  unfolding create_org_with_owner
  known_again name livemode w' known =
      ap (λ o. atomic (create_unless_known slugify o user name (some customer) livemode) w') known

  -- After a creation for a customer of Stripe that returned an org and its owner, every later
  -- creation for that customer and user, under whatever name, returns the same org and owner and
  -- changes nothing, where the id drawn for the org was new.
  pub created_once :
      (name again : String) (livemode livemode' : Bool)
      → first (has_org_id w.next_draw) w.db.orgs ≡ none
      → first (is_member w.next_draw user) w.db.members ≡ none
      → (create_org_with_owner slugify user name (some customer) livemode w).0 ≡ ok r
      → let w' = (create_org_with_owner slugify user name (some customer) livemode w).1 in
        create_org_with_owner slugify user again (some customer) livemode' w' ≡ (ok r, w')
  unfolding create_org_with_owner
  created_once name again livemode livemode' no_org no_member returned =
      let (body_returned, same) = atomic_ok body w r returned in
      subst (λ x. create_org_with_owner slugify user again (some customer) livemode' x ≡ (ok r, x))
        (sym same)
        (known_again again livemode' (body w).1
          (go (already w.db user (some customer)) refl body_returned))
    where
      slug : Option String
      slug = free_slug (base_of slugify name) (map (λ (o : Org). o.slug) w.db.orgs)

      body : World → Result (Org × OrgMember) × World
      body x =
          create_unless_known slugify (already x.db user (some customer)) user name (some customer)
            livemode x

      ok_inj : {a b : Org × OrgMember} → ok a ≡ ok b → a ≡ b
      ok_inj h = cc

      -- What the short-circuit finds in the state that is left.
      left : Option (Org × OrgMember) → Option (Org × OrgMember)
      left o =
          already (create_unless_known slugify o user name (some customer) livemode w).1.db user
            (some customer)

      go :
          (o : Option (Org × OrgMember))
          → already w.db user (some customer) ≡ o
          → (create_unless_known slugify o user name (some customer) livemode w).0 ≡ ok r
          → left (already w.db user (some customer)) ≡ some r
      go (some known) e q = ap left e ∙ e ∙ ap some (ok_inj q)
      go none e q =
          ap left e
          ∙ created-already _ (create-Created user name customer livemode w r slug q) no_org
              no_member
