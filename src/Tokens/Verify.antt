-- ===== src/Tokens/Verify.antt =====
-- What a verification of a one-time token that returns has found and left.
use saasmint_core.Base.{◌==◌, true, some, ◌≡◌, refl, sym, ap, subst, ◌∙◌, String, first}
use saasmint_core.Python.{Result, ok, err}
use saasmint_core.Domain.{User, OneTimeToken, TokenKind}
use saasmint_core.State.{Env, World, ◌>>=◌}
use saasmint_core.Tokens.{
  is_token, use_at, claim, known_user, user_of, consume_one_time_token, verify_one_time_token,
}
use saasmint_core.Tokens.OneTime.{consume-Consumed}

pub record Verified (env : Env) (kind : TokenKind) (raw : String) (w : World) (user : User)
    : Type 0 where
  pub row : OneTimeToken
  pub was_found : first (is_token kind (env.sha256 raw)) w.db.one_time_tokens ≡ some row
  pub is_owner : first (λ (u : User). u.id == row.user_id) w.db.users ≡ some user
  pub was_active : user.is_active ≡ true
  pub is_used :
      first
        (is_token kind (env.sha256 raw))
        (claim kind (env.sha256 raw) w.clock w).1.db.one_time_tokens
      ≡ some (use_at w.clock row)
  pub leaves :
      verify_one_time_token env kind raw w ≡ (ok user, (claim kind (env.sha256 raw) w.clock w).1)

module _ (env : Env) (kind : TokenKind) (raw : String) (w : World) where
  abbrev claimed : World
  claimed = (claim kind (env.sha256 raw) w.clock w).1

  -- What follows the consumption.
  abbrev then_owner : Result OneTimeToken → World → Result User × World
  then_owner r u = ((λ _. (r, u)) >>= (λ row. user_of row.user_id)) u

  -- The owner of the row that was consumed.
  then_owner-eq :
      (r : Result OneTimeToken) (row : OneTimeToken) (u : World)
      → r ≡ ok (use_at w.clock row)
      → u ≡ claimed
      → (owner : User) → first (λ (x : User). x.id == row.user_id) w.db.users ≡ some owner
      → then_owner r u ≡ (ok owner, claimed)
  unfolding user_of claim
  then_owner-eq r row u e f owner found = rw (e, f) (ap (λ o. known_user o claimed) found)

  pub verify-Verified :
      (user : User)
      → (verify_one_time_token env kind raw w).0 ≡ ok user
      → Verified env kind raw w user
  unfolding verify_one_time_token consume_one_time_token claim
  verify-Verified user returned = go (consume_one_time_token env kind raw w).0 refl returned
    where
      ok_inj : {a b : User} → ok a ≡ ok b → a ≡ b
      ok_inj h = cc

      go :
          (r : Result OneTimeToken)
          → (consume_one_time_token env kind raw w).0 ≡ r
          → (then_owner r (consume_one_time_token env kind raw w).1).0 ≡ ok user
          → Verified env kind raw w user
      go (err x) e q = cc
      go (ok x) e q =
          let (row, done) =
            consume-Consumed kind (env.sha256 raw)
              (first (is_token kind (env.sha256 raw)) w.db.one_time_tokens) w x refl e in
          let same =
            then_owner-eq (ok x) row _ (ap ok done.returned) done.left done.owner done.is_owner in
          let whole =
            then_owner-eq (consume_one_time_token env kind raw w).0 row _ (e ∙ ap ok done.returned)
              done.left done.owner done.is_owner in
          let own = ok_inj (sym (ap (λ p. p.0) same) ∙ q) in
          record {
            row = row;
            was_found = done.was_found;
            is_owner = done.is_owner ∙ ap some own;
            was_active = subst (λ (x : User). x.is_active ≡ true) own done.was_active;
            is_used =
                subst
                  (λ (x : World).
                    first (is_token kind (env.sha256 raw)) x.db.one_time_tokens
                    ≡ some (use_at w.clock row))
                  done.left done.is_used;
            leaves = whole ∙ ap (λ o. (ok o, claimed)) own;
          }
