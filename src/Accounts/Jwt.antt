-- ===== src/Accounts/Jwt.antt =====
-- Access tokens: `create_access_token` and `JWTAuthentication` of apps/users/authentication.py,
-- with the cache of users. PyJWT is a parameter; the cache is Django's.
pub mod Sessions
use Prim.Native.String
use saasmint_core.Base.{
  ℕ, ◌+◌, ltb, Bool, true, false, ◌&&◌, Option, none, some, [], ◌∷◌, ◌++◌, String, first, delete,
}
use saasmint_core.Python.{DateTime, Exn, AuthCode, Result, ok, err}
use saasmint_core.Domain.{Uuid, User}
use saasmint_core.State.{
  Env, World, Action, CacheKey, CacheValue, CacheEntry, Decoded, pure, raise, ◌>>=◌, ◌>>◌,
}
use saasmint_core.Tokens.{seconds, fails}
use saasmint_core.Accounts.Users.{has_id, has_key}
use saasmint_core.Accounts.Claims.{Claims, access_claims, pwd_iat, read_claims}
use text.Mathlib.Text.{starts_with}

-- `_AUTH_CACHE_TTL`
abbrev pub auth_cache_ttl : DateTime
auth_cache_ttl = seconds 60

-- `cache.get(key)`
abbrev pub cached : CacheKey → World → Option CacheEntry
cached k w = first (λ e. has_key k e && ltb w.clock e.expires_at) w.cache

-- `cache.set(key, value, timeout=ttl)`
abbrev pub cache_set : CacheKey → CacheValue → (ttl : DateTime) → Action (Unit {0})
cache_set k value ttl w = (
  ok tt,
  record w {
    cache =
        delete (has_key k) w.cache
        ++ record { key = k; value = value; expires_at = w.clock + ttl } ∷ [];
  },
)

-- The key of a user holds nothing but users.
abbrev pub cached_user : Option CacheEntry → Option User
cached_user none = none
cached_user (some e) = elim e.value [ CacheValue.user u ↦ some u | _ ↦ none ]

-- `header.split(" ", 1)[1]` of a header that begins with `Bearer `
unfoldable pub bearer : String → String
bearer header = String.slice header 7 (String.len header)

unfoldable pub create_access_token : Env → User → Action String
create_access_token env user w = (ok (env.jwt_encode (access_claims env w.clock user)), w)

-- Where the password was changed after the token was issued, the token is refused.
abbrev pub unless_outdated : (outdated : Bool) → User → (token : String) → Action (User × String)
unless_outdated true user token = raise (fails AuthCode.token_revoked)
unless_outdated false user token = pure (user, token)

unfoldable pub check_password_time : Claims → (token : String) → User → Action (User × String)
check_password_time claims token user =
    unless_outdated (ltb claims.password_time (pwd_iat user.password_changed_at)) user token

-- The active user that was found goes into the cache.
abbrev pub keep_user : Option User → Action User
keep_user none = raise (fails AuthCode.user_not_found)
keep_user (some user) = do
  cache_set (CacheKey.auth_user user.id) (CacheValue.user user) auth_cache_ttl
  pure user

abbrev pub load_user : Uuid → Option User → Action User
load_user i (some user) = pure user
load_user i none = λ w. keep_user (first (λ (u : User). has_id i u && u.is_active) w.db.users) w

abbrev pub with_id : Option Uuid → Claims → (token : String) → Action (User × String)
with_id none claims token = raise Exn.value_error
with_id (some i) claims token = do
  user ← λ w. load_user i (cached_user (cached (CacheKey.auth_user i) w)) w
  check_password_time claims token user

module _ (env : Env) where
  abbrev pub with_claims : Result Claims → (token : String) → Action (User × String)
  with_claims (err e) token = raise e
  with_claims (ok claims) token = with_id (env.parse_uuid claims.subject) claims token

  abbrev pub with_decoded : Decoded → (token : String) → Action (User × String)
  with_decoded Decoded.expired_signature token = raise (fails AuthCode.token_expired)
  with_decoded Decoded.invalid_token token = raise (fails AuthCode.invalid_token)
  with_decoded (Decoded.claims payload) token = with_claims (read_claims payload) token

  unfoldable pub authenticate_token : (token : String) → Action (User × String)
  authenticate_token token w = with_decoded (env.jwt_decode w.clock token) token w

  -- A header that is not a bearer token authenticates no one.
  abbrev pub if_bearer : (is_bearer : Bool) → (header : String) → Action (Option (User × String))
  if_bearer false header = pure none
  if_bearer true header = do r ← authenticate_token (bearer header); pure (some r)

  unfoldable pub authenticate : (header : String) → Action (Option (User × String))
  authenticate header = if_bearer (starts_with header "Bearer ") header
