-- ===== src/Credits/Ledger.antt =====
-- The balances agree with the ledger of transactions.
use saasmint_core.Base.{
  ℕ, ◌+◌, ◌==◌, ◌≡◌, refl, ◌⊎◌, String, Bool, true, false, Option, none, some, List, [], ◌∷◌, ◌++◌,
  arith, any, update, inl, inr, Bool-cases, if◌then◌else◌,
}
use saasmint_core.Python.{ok}
use saasmint_core.Domain.{Uuid, Owner, CreditTransaction, CreditBalance}
use saasmint_core.State.{Db, World, atomic}
use saasmint_core.Credits.{
  same_owner, owned_by, is_processed, transaction, add_to, credit, post, post_unless,
  grant_to_owner, the_owner, grant_if_valid, grant_credits_for_session,
}

-- The balance that an owner reads.
abbrev pub balance_of : Owner → List CreditBalance → ℕ
balance_of o [] = 0
balance_of o (b ∷ rows) = if owned_by o b then b.balance else balance_of o rows

-- The sum of an owner's transactions.
abbrev pub total : Owner → List CreditTransaction → ℕ
total o [] = 0
total o (t ∷ rows) = (if same_owner t.owner o then t.amount else 0) + total o rows

-- Every balance is the sum of its owner's transactions.
abbrev pub IsBalanced : Db → Type 0
IsBalanced db = (o : Owner) → balance_of o db.credit_balances ≡ total o db.credit_transactions

total-append :
    (o : Owner) (xs ys : List CreditTransaction) → total o (xs ++ ys) ≡ total o xs + total o ys
total-append o [] ys = omega arith
total-append o (t ∷ xs) ys = ground (arith, total-append o xs ys)

same_owner_refl : (o : Owner) → same_owner o o ≡ true
same_owner_refl (Owner.user a) = ground arith
same_owner_refl (Owner.org a) = ground arith

same_owner-eq : (o p : Owner) → same_owner o p ≡ true → o ≡ p
same_owner-eq (Owner.user a) (Owner.user b) h = ground arith
same_owner-eq (Owner.user a) (Owner.org b) h = cc
same_owner-eq (Owner.org a) (Owner.user b) h = cc
same_owner-eq (Owner.org a) (Owner.org b) h = ground arith

same_owner_symm : (o p : Owner) → same_owner o p ≡ same_owner p o
same_owner_symm (Owner.user a) (Owner.user b) = ground arith
same_owner_symm (Owner.user a) (Owner.org b) = refl
same_owner_symm (Owner.org a) (Owner.user b) = refl
same_owner_symm (Owner.org a) (Owner.org b) = ground arith

same_owner_at : (a o p : Owner) → same_owner a o ≡ true → same_owner a p ≡ same_owner o p
same_owner_at a o p h = rw (same_owner-eq a o h)

-- What an owner holds after a credit to some owner.
abbrev gain : Owner → Owner → ℕ → ℕ
gain o p amount = if same_owner o p then amount else 0

balance_of-update_ne :
    (o p : Owner) (amount : ℕ) (rows : List CreditBalance)
    → same_owner o p ≡ false
    → balance_of p (update (owned_by o) (add_to amount) rows) ≡ balance_of p rows
balance_of-update_ne o p amount [] ne = refl
balance_of-update_ne o p amount (b ∷ rows) ne =
    ground (arith, same_owner_at b.owner o p, balance_of-update_ne o p amount rows)

balance_of-update :
    (o p : Owner) (amount : ℕ) (rows : List CreditBalance)
    → any (owned_by o) rows ≡ true
    → balance_of p (update (owned_by o) (add_to amount) rows) ≡ balance_of p rows + gain o p amount
balance_of-update o p amount [] h = cc
balance_of-update o p amount (b ∷ rows) h = ground (
  arith,
  same_owner_at b.owner o p,
  same_owner_at b.owner p o,
  same_owner_symm o p,
  balance_of-update o p amount rows,
  balance_of-update_ne o p amount rows,
)

balance_of-append :
    (o p : Owner) (amount : ℕ) (rows : List CreditBalance)
    → any (owned_by o) rows ≡ false
    → balance_of p (rows ++ record { owner = o; balance = 0 + amount } ∷ [])
      ≡ balance_of p rows + gain o p amount
balance_of-append o p amount [] h = ground arith
balance_of-append o p amount (b ∷ rows) h =
    ground
      (arith, same_owner_at b.owner p o, same_owner_symm o p, balance_of-append o p amount rows)

balance_of-credit :
    (o p : Owner) (amount : ℕ) (rows : List CreditBalance)
    → balance_of p (credit o amount rows) ≡ balance_of p rows + gain o p amount
balance_of-credit o p amount rows =
    ground (arith, balance_of-update o p amount rows, balance_of-append o p amount rows)

post-IsBalanced :
    (o : Owner) (amount : ℕ) (reason session : String) (db : Db)
    → IsBalanced db
    → IsBalanced (post o amount reason session db)
post-IsBalanced o amount reason session db balanced p = ground (
  arith,
  balanced p,
  balance_of-credit o p amount db.credit_balances,
  total-append p db.credit_transactions (transaction o amount reason session ∷ []),
)

grant_to_owner-IsBalanced :
    (session : String) (amount : ℕ) (reason : String) (o : Owner) (w : World)
    → IsBalanced w.db
    → IsBalanced (grant_to_owner session amount reason o w).1.db
unfolding grant_to_owner
grant_to_owner-IsBalanced session amount reason o w balanced =
    go (is_processed session w.db.credit_transactions)
  where
    go : (seen : Bool) → IsBalanced (atomic (post_unless seen o amount reason session) w).1.db
    go true = balanced
    go false = post-IsBalanced o amount reason session w.db balanced

-- However a grant ends, a database in which every owner's balance is the sum of that owner's
-- transactions stays one.
pub grant-IsBalanced :
    (session : String) (amount : ℕ) (reason : String) (user org : Option Uuid) (w : World)
    → IsBalanced w.db
    → IsBalanced (grant_credits_for_session session amount reason user org w).1.db
unfolding grant_credits_for_session
grant-IsBalanced session amount reason user org w balanced = go (the_owner user org)
  where
    go : (o : Option Owner) → IsBalanced (grant_if_valid session amount reason o w).1.db
    go none = balanced
    go (some o) = elim (Bool-cases (amount == 0)) [
      | inl zero_amount ↦ rw zero_amount balanced
      | inr positive ↦ rw positive (grant_to_owner-IsBalanced session amount reason o w balanced)
    ]

-- A grant of a positive amount to a user alone or an org alone either finds that the session was
-- processed, says so and changes nothing, or says that it granted and raises the balance of that
-- owner by the amount and no other balance.
pub grant_effect :
    (session : String) (amount : ℕ) (reason : String) (user org : Option Uuid) (w : World)
    (o p : Owner)
    → the_owner user org ≡ some o
    → (amount == 0) ≡ false
    → let (r, w') = grant_credits_for_session session amount reason user org w in
      ((is_processed session w.db.credit_transactions ≡ true) × (r ≡ ok false) × (w' ≡ w))
      ⊎ ((is_processed session w.db.credit_transactions ≡ false)
          × (r ≡ ok true)
          × (balance_of p w'.db.credit_balances
              ≡ balance_of p w.db.credit_balances + (if same_owner o p then amount else 0)))
unfolding grant_credits_for_session grant_to_owner
grant_effect session amount reason user org w o p owner positive =
    rw (owner, positive) (go (is_processed session w.db.credit_transactions))
  where
    go :
        (seen : Bool)
        → let (r, w') = atomic (post_unless seen o amount reason session) w in
          ((seen ≡ true) × (r ≡ ok false) × (w' ≡ w))
          ⊎ ((seen ≡ false)
              × (r ≡ ok true)
              × (balance_of p w'.db.credit_balances
                  ≡ balance_of p w.db.credit_balances + (if same_owner o p then amount else 0)))
    go true = inl (refl, refl, refl)
    go false = inr (refl, refl, balance_of-credit o p amount w.db.credit_balances)
