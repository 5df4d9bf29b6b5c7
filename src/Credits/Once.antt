-- ===== src/Credits/Once.antt =====
-- A checkout session is granted once.
use saasmint_core.Base.{
  ℕ, ◌≡◌, refl, ap, String, Bool, true, false, some, List, [], ◌∷◌, ◌++◌, arith, str_eq_refl,
}
use saasmint_core.Python.{ok}
use saasmint_core.Domain.{Owner, CreditTransaction}
use saasmint_core.State.{World, atomic}
use saasmint_core.Credits.{is_processed, transaction, post_unless, grant_to_owner}

any-append_self :
    (session : String) (rows : List CreditTransaction) (t : CreditTransaction)
    → t.stripe_session_id ≡ some session
    → is_processed session (rows ++ t ∷ []) ≡ true
unfolding is_processed
any-append_self session [] t e = ground (arith, str_eq_refl session)
any-append_self session (x ∷ rows) t e = ground (arith, any-append_self session rows t e)

-- After a grant that returned, the session is on record.
granted-is_processed :
    (session : String) (amount : ℕ) (reason : String) (o : Owner) (w : World)
    → is_processed session (grant_to_owner session amount reason o w).1.db.credit_transactions
      ≡ true
unfolding grant_to_owner
granted-is_processed session amount reason o w =
    go (is_processed session w.db.credit_transactions) refl
  where
    go :
        (seen : Bool)
        → is_processed session w.db.credit_transactions ≡ seen
        → is_processed session
            (atomic (post_unless seen o amount reason session) w).1.db.credit_transactions
          ≡ true
    go true e = e
    go false e =
        any-append_self session w.db.credit_transactions (transaction o amount reason session) refl

-- Once a session was granted, a second grant for it, of any amount, for any reason and to any
-- owner, reports that it granted nothing and changes nothing.
pub grant_once :
    (session : String) (n m : ℕ) (reason reason' : String) (o o' : Owner) (w : World)
    → let w' = (grant_to_owner session n reason o w).1 in
      grant_to_owner session m reason' o' w' ≡ (ok false, w')
unfolding grant_to_owner
grant_once session n m reason reason' o o' w =
    let w' : World = (grant_to_owner session n reason o w).1 in
    again w' (granted-is_processed session n reason o w)
  where
    again :
        (u : World)
        → is_processed session u.db.credit_transactions ≡ true
        → grant_to_owner session m reason' o' u ≡ (ok false, u)
    again u seen = ap (λ b. atomic (post_unless b o' m reason' session) u) seen
