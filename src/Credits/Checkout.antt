-- ===== src/Credits/Checkout.antt =====
-- A product checkout that is delivered again.
use saasmint_core.Base.{
  ℕ, ◌==◌, ◌≡◌, refl, ap, String, Bool, true, false, Option, none, some, any, first,
}
use saasmint_core.Python.{ok}
use saasmint_core.Domain.{Uuid, Owner, Product, Org, User}
use saasmint_core.State.{World, Action, pure, atomic, ◌>>◌}
use saasmint_core.Webhooks.Checkout.{ProductCheckout}
use saasmint_core.Credits.{
  is_processed, post_unless, grant_to_owner, grant_credits_for_session, grant_if_exists,
  grant_product, grant_unless_free, grant_known, on_product_checkout_completed,
}
use saasmint_core.Credits.Once.{grant_once}

-- A run that leaves the tables that a checkout looks up.
record IsKept (w w' : World) : Type 0 where
  products : w'.db.products ≡ w.db.products
  orgs : w'.db.orgs ≡ w.db.orgs
  users : w'.db.users ≡ w.db.users

module _ (session : String) (amount : ℕ) (reason : String) (o : Owner) where
  abbrev granting : Action (Unit {0})
  granting = do grant_to_owner session amount reason o; pure tt

  granting-IsKept :
      (w : World)
      → IsKept w (granting w).1 × ((granting w).1 ≡ (grant_to_owner session amount reason o w).1)
  unfolding grant_to_owner
  granting-IsKept w = go (is_processed session w.db.credit_transactions)
    where
      go :
          (seen : Bool)
          → let body = atomic (post_unless seen o amount reason session) in
            IsKept w ((body >> pure tt) w).1 × (((body >> pure tt) w).1 ≡ (body w).1)
      go true = (record { products = refl; orgs = refl; users = refl }, refl)
      go false = (record { products = refl; orgs = refl; users = refl }, refl)

  granting_twice : (w : World) → granting (granting w).1 ≡ (ok tt, (granting w).1)
  granting_twice w =
      rw (granting-IsKept w).1
        (ap (λ p. ((λ _. p) >> pure tt) w) (grant_once session amount amount reason reason o o w))

-- A second run changes nothing.
record Settles (m : Action (Unit {0})) (w : World) : Type 0 where
  kept : IsKept w (m w).1
  again : m (m w).1 ≡ (ok tt, (m w).1)

pure-Settles : (w : World) → Settles (pure tt) w
pure-Settles w = record {
  kept = record { products = refl; orgs = refl; users = refl };
  again = refl;
}

granting-Settles :
    (session : String) (amount : ℕ) (reason : String) (o : Owner) (w : World)
    → Settles (granting session amount reason o) w
granting-Settles session amount reason o w = record {
  kept = (granting-IsKept session amount reason o w).0;
  again = granting_twice session amount reason o w;
}

module _ (c : ProductCheckout) (product : Product) (w : World) where
  user-Settles :
      (exists : Bool) (u : Uuid)
      → (product.credits == 0) ≡ false
      → Settles (grant_if_exists exists c product (some u) none) w
  unfolding grant_credits_for_session
  user-Settles true u positive =
      rw positive (granting-Settles c.session_id product.credits _ (Owner.user u) w)
  user-Settles false u positive = pure-Settles w

  org-Settles :
      (exists : Bool) (o : Uuid)
      → (product.credits == 0) ≡ false
      → Settles (grant_if_exists exists c product none (some o)) w
  unfolding grant_credits_for_session
  org-Settles true o positive =
      rw positive (granting-Settles c.session_id product.credits _ (Owner.org o) w)
  org-Settles false o positive = pure-Settles w

  product-Settles :
      (org : Option Uuid) → (product.credits == 0) ≡ false → Settles (grant_product org c product) w
  product-Settles (some o) positive =
      let exists : Bool = any (λ (row : Org). row.id == o) w.db.orgs in
      let s = org-Settles exists o positive in
      record { kept = s.kept; again = rw s.kept.orgs s.again }
  product-Settles none positive =
      let exists : Bool = any (λ (row : User). row.id == c.user_id) w.db.users in
      let s = user-Settles exists c.user_id positive in
      record { kept = s.kept; again = rw s.kept.users s.again }

known-Settles : (c : ProductCheckout) (o : Option Product) (w : World) → Settles (grant_known c o) w
known-Settles c none w = pure-Settles w
known-Settles c (some product) w = go (product.credits == 0) refl
  where
    go :
        (free : Bool) → (product.credits == 0) ≡ free → Settles (grant_unless_free free c product) w
    go true e = pure-Settles w
    go false e = product-Settles c product w c.org_id e

-- A product checkout that is delivered again returns and changes nothing, whatever the first
-- delivery found and did.
pub checkout_once :
    (c : ProductCheckout) (w : World)
    → let w' = (on_product_checkout_completed c w).1 in
      on_product_checkout_completed c w' ≡ (ok tt, w')
unfolding on_product_checkout_completed
checkout_once c w =
    let s = known-Settles c (first (λ (p : Product). p.id == c.product_id) w.db.products) w in
    rw s.kept.products s.again
