-- ===== src/Credits.antt =====
-- Credits: apps/billing/services.py. Amounts are naturals: the code refuses a negative amount as
-- it refuses zero. An owner is a user or an org.
pub mod Ledger
pub mod Once
pub mod Checkout
use Prim.Native.String
use saasmint_core.Base.{
  ℕ, ◌+◌, ◌==◌, String, Bool, true, false, not, xor, Option, none, some, List, [], ◌∷◌, ◌++◌,
  str_eq, option_eq, is_some, first, any, update, if◌then◌else◌,
}
use saasmint_core.Python.{Exn}
use saasmint_core.Domain.{Uuid, Owner, CreditTransaction, CreditBalance, Product, Org, User}
use saasmint_core.State.{Db, Action, pure, raise, gets, modify, raise_if, atomic, ◌>>=◌, ◌>>◌}
use saasmint_core.Webhooks.Checkout.{ProductCheckout}

abbrev pub same_owner : Owner → Owner → Bool
same_owner (Owner.user a) (Owner.user b) = a == b
same_owner (Owner.org a) (Owner.org b) = a == b
same_owner (Owner.user a) (Owner.org b) = false
same_owner (Owner.org a) (Owner.user b) = false

abbrev pub owned_by : Owner → CreditBalance → Bool
owned_by o b = same_owner b.owner o

-- The session has a row, so that another breaks the unique `stripe_session_id`.
unfoldable pub is_processed : String → List CreditTransaction → Bool
is_processed session rows = any (λ t. option_eq str_eq t.stripe_session_id (some session)) rows

abbrev pub transaction : Owner → ℕ → String → String → CreditTransaction
transaction o amount reason session = record {
  owner = o;
  amount = amount;
  reason = reason;
  stripe_session_id = some session;
}

abbrev pub add_to : ℕ → CreditBalance → CreditBalance
add_to amount b = record b { balance = b.balance + amount }

-- `get_or_create(… balance 0)`, then the addition.
abbrev pub credit : Owner → ℕ → List CreditBalance → List CreditBalance
credit o amount rows =
    if any (owned_by o) rows
    then update (owned_by o) (add_to amount) rows
    else rows ++ record { owner = o; balance = 0 + amount } ∷ []

-- The writes of a session that is new.
abbrev pub post : Owner → ℕ → String → String → Db → Db
post o amount reason session db = record db {
  credit_transactions = db.credit_transactions ++ transaction o amount reason session ∷ [];
  credit_balances = credit o amount db.credit_balances;
}

-- The insert of the transaction conflicts where the session was processed.
abbrev pub post_unless : (seen : Bool) → Owner → ℕ → String → String → Action Bool
post_unless true o amount reason session = pure false
post_unless false o amount reason session = do modify (post o amount reason session); pure true

-- The transaction of `grant_credits_for_session`, with the owner that it was given.
unfoldable pub grant_to_owner : String → ℕ → String → Owner → Action Bool
grant_to_owner session amount reason o = atomic (do
  seen ← gets (λ db. is_processed session db.credit_transactions)
  post_unless seen o amount reason session)

-- The owner, where just one of the two is given.
abbrev pub the_owner : Option Uuid → Option Uuid → Option Owner
the_owner (some u) none = some (Owner.user u)
the_owner none (some o) = some (Owner.org o)
the_owner (some u) (some o) = none
the_owner none none = none

abbrev pub grant_if_valid : String → ℕ → String → Option Owner → Action Bool
grant_if_valid session amount reason none = raise Exn.value_error
grant_if_valid session amount reason (some o) =
    if amount == 0 then raise Exn.value_error else grant_to_owner session amount reason o

unfoldable pub grant_credits_for_session :
    String → ℕ → String → (user org : Option Uuid) → Action Bool
grant_credits_for_session session amount reason user org =
    grant_if_valid session amount reason (the_owner user org)

-- The grant, where the row of the owner exists.
abbrev pub grant_if_exists :
    (exists : Bool) → ProductCheckout → Product → (user org : Option Uuid) → Action (Unit {0})
grant_if_exists true c product user org = do
  grant_credits_for_session c.session_id product.credits (String.◌++◌ "purchase:" product.name) user
      org
  pure tt
grant_if_exists false c product user org = pure tt

-- The branch for an org, and the branch for the user.
abbrev pub grant_product : (org_id : Option Uuid) → ProductCheckout → Product → Action (Unit {0})
grant_product (some org) c product =
    λ w. grant_if_exists (any (λ (row : Org). row.id == org) w.db.orgs) c product none (some org) w
grant_product none c product = λ w.
    grant_if_exists (any (λ (row : User). row.id == c.user_id) w.db.users) c product
      (some c.user_id) none w

abbrev pub grant_unless_free : (free : Bool) → ProductCheckout → Product → Action (Unit {0})
grant_unless_free true c product = pure tt
grant_unless_free false c product = grant_product c.org_id c product

abbrev pub grant_known : ProductCheckout → Option Product → Action (Unit {0})
grant_known c none = pure tt
grant_known c (some product) = grant_unless_free (product.credits == 0) c product

unfoldable pub on_product_checkout_completed : ProductCheckout → Action (Unit {0})
unfolding grant_credits_for_session grant_to_owner
on_product_checkout_completed c = do
  product ← gets (λ db. first (λ (p : Product). p.id == c.product_id) db.products)
  grant_known c product
