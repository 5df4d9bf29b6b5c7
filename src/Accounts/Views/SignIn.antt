-- ===== src/Accounts/Views/SignIn.antt =====
-- What a sign-in and a new password leave.
use saasmint_core.Base.{
  ℕ, suc, Bool, true, false, none, List, [], ◌∷◌, ◌++◌, ◌≡◌, refl, ap, subst, ◌∙◌, String, any,
  count, update, delete, arith, ==_refl, count-append,
}
use saasmint_core.Python.{Result, ok}
use saasmint_core.Domain.{User, RefreshToken}
use saasmint_core.State.{Env, World, Action, CacheKey, pure, ◌>>=◌}
use saasmint_core.Tokens.{
  has_hash, is_live_of, insert_refresh_token, create_refresh_token, revoke_all_refresh_tokens,
}
use saasmint_core.Tokens.Refresh.{revoke_all-count}
use saasmint_core.Accounts.Users.{has_id, has_key, save_changes}
use saasmint_core.Accounts.Jwt.{create_access_token}
use saasmint_core.Accounts.Views.{Reply, sign_in, set_new_password}

-- A sign-in leaves all but the refresh tokens, and adds a live one where it returns.
pub record SignedIn (user : User) (r : Result Reply) (w w' : World) : Type 0 where
  pub users : w'.db.users ≡ w.db.users
  pub one_time_tokens : w'.db.one_time_tokens ≡ w.db.one_time_tokens
  pub cache : w'.cache ≡ w.cache
  pub clock : w'.clock ≡ w.clock
  pub live :
      (reply : Reply)
      → r ≡ ok reply
      → count (is_live_of user.id) w'.db.refresh_tokens
        ≡ suc (count (is_live_of user.id) w.db.refresh_tokens)

module _ (env : Env) where
  -- What follows the refresh token.
  abbrev then_tokens : (status : ℕ) → User → String → Action Reply
  then_tokens status user refresh = do
    access ← create_access_token env user
    pure (Reply.token_pair status access refresh)

  one_more :
      (user : User) (i : ℕ) (hash : String) (at : ℕ) (rows : List RefreshToken)
      → count (is_live_of user.id) (
          rows
          ++ record {
            id = i;
            user_id = user.id;
            token_hash = hash;
            expires_at = at;
            revoked_at = none;
          }
            ∷ [])
        ≡ suc (count (is_live_of user.id) rows)
  one_more user i hash at rows =
      let row : RefreshToken = record {
        id = i;
        user_id = user.id;
        token_hash = hash;
        expires_at = at;
        revoked_at = none;
      } in
      ground (arith, count-append (is_live_of user.id) rows (row ∷ []), ==_refl user.id)

  pub sign_in-SignedIn :
      (status : ℕ) (user : User) (w : World)
      → SignedIn user (sign_in env status user w).0 w (sign_in env status user w).1
  unfolding sign_in create_refresh_token create_access_token
  sign_in-SignedIn status user w = go (any (has_hash (env.sha256 raw)) w.db.refresh_tokens)
    where
      raw : String
      raw = env.token_urlsafe w.next_draw

      u : World
      u = record w { next_draw = suc w.next_draw }

      go :
          (clash : Bool)
          → let p : Result Reply × World =
              ((λ _. insert_refresh_token clash env user.id raw u) >>= then_tokens status user) w in
            SignedIn user p.0 w p.1
      go true = record {
        users = refl;
        one_time_tokens = refl;
        cache = refl;
        clock = refl;
        live = λ reply e. cc;
      }
      go false = record {
        users = refl;
        one_time_tokens = refl;
        cache = refl;
        clock = refl;
        live = λ reply e. one_more user _ _ _ w.db.refresh_tokens;
      }

-- What a new password leaves.
pub record NewPassword (change : User → User) (user : User) (r : Result Reply) (w w' : World)
    : Type 0 where
  pub users : w'.db.users ≡ update (has_id user.id) change w.db.users
  pub one_time_tokens : w'.db.one_time_tokens ≡ w.db.one_time_tokens
  pub cache : w'.cache ≡ delete (has_key (CacheKey.auth_user user.id)) w.cache
  pub one_live :
      (reply : Reply) → r ≡ ok reply → count (is_live_of user.id) w'.db.refresh_tokens ≡ 1

pub set_new_password-NewPassword :
    (env : Env) (change : User → User) (user : User) (w : World)
    → (change user).id ≡ user.id
    → NewPassword change user
        (set_new_password env change user w).0
        w
        (set_new_password env change user w).1
unfolding set_new_password save_changes revoke_all_refresh_tokens
set_new_password-NewPassword env change user w same =
    let saved : World = record w {
      db = record w.db { users = update (has_id user.id) change w.db.users };
      cache = delete (has_key (CacheKey.auth_user user.id)) w.cache;
    } in
    let revoked = (revoke_all_refresh_tokens user.id saved).1 in
    let done = sign_in-SignedIn env 200 (change user) revoked in
    record {
      users = done.users;
      one_time_tokens = done.one_time_tokens;
      cache = done.cache;
      one_live = λ reply e.
          subst
            (λ i.
              count (is_live_of i) (sign_in env 200 (change user) revoked).1.db.refresh_tokens
              ≡ suc (count (is_live_of i) revoked.db.refresh_tokens))
            same (done.live reply e)
          ∙ ap suc (revoke_all-count user.id saved);
    }
