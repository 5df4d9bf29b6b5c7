-- ===== src/Accounts/Jwt/Sessions.antt =====
-- A token that was issued authenticates its user, until the password changes.
use Prim.Native.String
use saasmint_core.Base.{
  ℕ, ◌+◌, ◌*◌, ◌≤◌, ◌<◌, ltb, Bool, true, false, ◌&&◌, Option, none, some, ◌≡◌, refl, sym, ap, ◌∙◌,
  subst, String, str_eq, first, arith,
}
use saasmint_core.Python.{AuthCode, Result, ok, err, get, get_or, lookup, as_int}
use saasmint_core.Domain.{Uuid, User}
use saasmint_core.State.{Env, World, CacheKey, Decoded, pure, ◌>>=◌}
use saasmint_core.Tokens.{fails}
use saasmint_core.Accounts.Users.{has_id}
use saasmint_core.Accounts.Claims.{
  Claims, access_claims, access_token_lifetime, timestamp, pwd_iat, unless_empty, read_claims,
}
use saasmint_core.Accounts.Jwt.{
  cached, cached_user, bearer, unless_outdated, if_bearer, check_password_time, load_user, with_id,
  with_claims, with_decoded, authenticate_token, authenticate,
}
use text.Mathlib.TextPositions.{len-append, slice-append_right, starts_with-append}

bearer-append : (token : String) → bearer (String.◌++◌ "Bearer " token) ≡ token
unfolding bearer
bearer-append token =
    subst (λ n. String.slice (String.◌++◌ "Bearer " token) 7 n ≡ token)
      (sym (len-append "Bearer " token)) (slice-append_right "Bearer " token)

-- The claims of a token that was issued to a user at a time.
abbrev pub issued : Env → User → ℕ → Claims
issued env user at = record {
  subject = env.uuid_text user.id;
  password_time = pwd_iat user.password_changed_at;
}

read-issued :
    (env : Env) (at : ℕ) (user : User)
    → str_eq (env.uuid_text user.id) "" ≡ false
    → read_claims (access_claims env at user) ≡ ok (issued env user at)
unfolding read_claims access_claims get get_or lookup as_int
read-issued env at user full =
    ap (λ b. unless_empty b (env.uuid_text user.id) (pwd_iat user.password_changed_at)) full

-- What PyJWT does with a token of this program: it returns the claims from the second in which the
-- token was issued until the second in which it expires.
pub record IsDecoded (env : Env) (user : User) (at : ℕ) : Type 0 where
  pub decodes :
      (t : ℕ)
      → timestamp at * 1000000 ≤ t
      → t < timestamp (at + access_token_lifetime) * 1000000
      → env.jwt_decode t (env.jwt_encode (access_claims env at user))
        ≡ Decoded.claims (access_claims env at user)
  pub has_subject : str_eq (env.uuid_text user.id) "" ≡ false
  pub parses : env.parse_uuid (env.uuid_text user.id) ≡ some user.id

-- Where the state finds a user by the id: in the cache, or else in the table.
pub data Finds (i : Uuid) (user : User) (w : World) : Type 0 where
  in_cache : cached_user (cached (CacheKey.auth_user i) w) ≡ some user → Finds i user w
  in_table :
      cached_user (cached (CacheKey.auth_user i) w) ≡ none
      → first (λ (u : User). has_id i u && u.is_active) w.db.users ≡ some user
      → Finds i user w

-- What the comparison of the times comes to.
abbrev verdict : (outdated : Bool) → User → String → Result (User × String)
verdict true user token = err (fails AuthCode.token_revoked)
verdict false user token = ok (user, token)

abbrev as_option : Result (User × String) → Result (Option (User × String))
as_option (ok p) = ok (some p)
as_option (err e) = err e

pure-some-answer :
    (r : Result (User × String)) (u : World)
    → (((λ _. (r, u)) >>= (λ p. pure {A = Option (User × String)} (some p))) u).0 ≡ as_option r
pure-some-answer (ok p) u = refl
pure-some-answer (err e) u = refl

-- The check does not read the state.
check-answer :
    (claims : Claims) (token : String) (current : User) (r : Result User) (u : World)
    → r ≡ ok current
    → (((λ _. (r, u)) >>= check_password_time claims token) u).0
      ≡ (verdict (ltb claims.password_time (pwd_iat current.password_changed_at)) current token)
unfolding check_password_time
check-answer claims token current (ok x) u e =
    rw (ok_inj e) (go (ltb claims.password_time (pwd_iat current.password_changed_at)))
  where
    ok_inj : {a b : User} → ok a ≡ ok b → a ≡ b
    ok_inj e = cc

    go : (b : Bool) → (unless_outdated b current token u).0 ≡ verdict b current token
    go true = refl
    go false = refl
check-answer claims token current (err x) u e = cc

module _ (env : Env) (user current : User) (at : ℕ) (law : IsDecoded env user at) (w : World)
    (started : timestamp at * 1000000 ≤ w.clock)
    (lasts : w.clock < timestamp (at + access_token_lifetime) * 1000000)
    (finds : Finds user.id current w) where
  abbrev token : String
  token = env.jwt_encode (access_claims env at user)

  loaded :
      (load_user user.id (cached_user (cached (CacheKey.auth_user user.id) w)) w).0 ≡ ok current
  loaded = go finds
    where
      go :
          Finds user.id current w
          → (load_user user.id (cached_user (cached (CacheKey.auth_user user.id) w)) w).0
            ≡ ok current
      go (Finds.in_cache e) = rw e refl
      go (Finds.in_table e f) = rw (e, f) refl

  -- Whether the password of the user that is found now was changed since.
  abbrev is_outdated : Bool
  is_outdated = ltb (pwd_iat user.password_changed_at) (pwd_iat current.password_changed_at)

  token-verdict : (authenticate_token env token w).0 ≡ verdict is_outdated current token
  unfolding authenticate_token
  token-verdict =
      ap (λ d. (with_decoded env d token w).0) (law.decodes w.clock started lasts)
      ∙ ap (λ c. (with_claims env c token w).0) (read-issued env at user law.has_subject)
      ∙ ap (λ i. (with_id i (issued env user at) token w).0) law.parses
      ∙ check-answer (issued env user at) token current
          (load_user user.id (cached_user (cached (CacheKey.auth_user user.id) w)) w).0
          (load_user user.id (cached_user (cached (CacheKey.auth_user user.id) w)) w).1 loaded

  -- A bearer header is authenticated as its token is.
  header-answer :
      (authenticate env (String.◌++◌ "Bearer " token) w).0
      ≡ as_option (authenticate_token env token w).0
  unfolding authenticate
  header-answer =
      ap (λ b. (if_bearer env b (String.◌++◌ "Bearer " token) w).0)
        (starts_with-append "Bearer " token)
      ∙ ap (λ t. ((do r ← authenticate_token env t; pure (some r)) w).0) (bearer-append token)
      ∙ pure-some-answer (authenticate_token env token w).0 (authenticate_token env token w).1

  -- A token that was issued to a user authenticates, from the second of its issue to the second
  -- of its expiry, the user as the cache or else the table then has it, where PyJWT decodes what
  -- it encoded and that user's password was not changed since the second that the token carries.
  pub issued_authenticates :
      pwd_iat current.password_changed_at ≤ pwd_iat user.password_changed_at
      → (authenticate env (String.◌++◌ "Bearer " token) w).0 ≡ ok (some (current, token))
  issued_authenticates unchanged =
      header-answer
      ∙ ap as_option (token-verdict ∙ ap (λ b. verdict b current token) (not_outdated unchanged))
    where
      not_outdated :
          pwd_iat current.password_changed_at ≤ pwd_iat user.password_changed_at
          → is_outdated ≡ false
      not_outdated h = ground arith

  -- A token that was issued to a user is refused as revoked, where PyJWT decodes what it encoded
  -- and the user that the cache or else the table then has has changed the password in a later
  -- second than the one that the token carries.
  pub outdated_refused :
      pwd_iat user.password_changed_at < pwd_iat current.password_changed_at
      → (authenticate env (String.◌++◌ "Bearer " token) w).0 ≡ err (fails AuthCode.token_revoked)
  outdated_refused changed =
      header-answer
      ∙ ap as_option (token-verdict ∙ ap (λ b. verdict b current token) (outdated changed))
    where
      outdated :
          pwd_iat user.password_changed_at < pwd_iat current.password_changed_at
          → is_outdated ≡ true
      outdated h = ground arith
