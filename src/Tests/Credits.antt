-- ===== src/Tests/Credits.antt =====
-- The credit theorems at a grant to a user who holds credits.
use saasmint_core.Base.{[], ◌∷◌, true, false, none, some, ◌≡◌, refl, ◌⊎◌, arith}
use saasmint_core.Python.{ok}
use saasmint_core.Domain.{Owner}
use saasmint_core.State.{World}
use saasmint_core.Credits.{on_product_checkout_completed, is_processed, grant_credits_for_session}
use saasmint_core.Credits.Ledger.{IsBalanced, balance_of, grant-IsBalanced, grant_effect}
use saasmint_core.Webhooks.Checkout.{ProductCheckout}
use saasmint_core.Credits.Checkout.{checkout_once}
use saasmint_core.Tests.Data.{db, world}

world-IsBalanced : IsBalanced db
world-IsBalanced o = ground arith

grant-IsBalanced_example :
    IsBalanced (grant_credits_for_session "cs_2" 12 "purchase:Pack" (some 6) none world).1.db
grant-IsBalanced_example =
    grant-IsBalanced "cs_2" 12 "purchase:Pack" (some 6) none world world-IsBalanced

grant_effect_example :
    let (r, w') = grant_credits_for_session "cs_2" 12 "purchase:Pack" (some 6) none world in
    ((is_processed "cs_2" world.db.credit_transactions ≡ true) × (r ≡ ok false) × (w' ≡ world))
    ⊎ ((is_processed "cs_2" world.db.credit_transactions ≡ false)
        × (r ≡ ok true)
        × (balance_of (Owner.user 6) w'.db.credit_balances ≡ 42))
grant_effect_example =
    grant_effect "cs_2" 12 "purchase:Pack" (some 6) none world (Owner.user 6) (Owner.user 6) refl
      refl

-- A state that sells a product, and a checkout of it.
abbrev shop : World
shop = record world {
  db = record db {
    products = record { id = 1; name = "Pack"; credits = 12; is_active = true } ∷ [];
  };
}

abbrev checkout : ProductCheckout
checkout = record { session_id = "cs_2"; product_id = 1; user_id = 6; org_id = none }

checkout_once_example :
    let w' = (on_product_checkout_completed checkout shop).1 in
    on_product_checkout_completed checkout w' ≡ (ok tt, w')
checkout_once_example = checkout_once checkout shop
