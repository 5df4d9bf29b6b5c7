-- ===== src/Tokens.antt =====
-- Refresh tokens and one-time tokens: apps/users/authentication.py. The rows hold digests; the
-- raw token is `secrets.token_urlsafe` of a fresh draw.
pub mod Refresh
pub mod OneTime
pub mod Verify
pub mod Cleanup
use saasmint_core.Base.{
  ℕ, ◌+◌, ◌*◌, ◌==◌, leb, ltb, String, Bool, true, false, not, ◌&&◌, Option, none, some, List, [],
  ◌∷◌, ◌++◌, str_eq, is_some, first, any, count, update, if◌then◌else◌,
}
use saasmint_core.Python.{DateTime, Exn, AuthCode}
use saasmint_core.Domain.{Uuid, User, Identity, RefreshToken, OneTimeToken, TokenKind, same_kind}
use saasmint_core.State.{
  Env, Db, Action, pure, raise, gets, modify, draw, now, raise_if, ◌>>=◌, ◌>>◌,
}

abbrev pub seconds : ℕ → DateTime
seconds n = n * 1000000

-- `REFRESH_TOKEN_LIFETIME`
abbrev pub refresh_token_lifetime : DateTime
refresh_token_lifetime = seconds (7 * 24 * 3600)

abbrev pub lifetime : TokenKind → DateTime
lifetime TokenKind.email_verification = seconds (24 * 3600)
lifetime TokenKind.password_reset = seconds (10 * 60)
lifetime TokenKind.social_link = seconds (15 * 60)

abbrev pub fails : AuthCode → Exn
fails code = Exn.auth_failed code

abbrev pub has_hash : String → RefreshToken → Bool
has_hash h t = str_eq t.token_hash h

abbrev pub is_live_of : Uuid → RefreshToken → Bool
is_live_of u t = t.user_id == u && not (is_some t.revoked_at)

-- A row of a table of one-time tokens with a digest.
abbrev pub is_token : TokenKind → String → OneTimeToken → Bool
is_token kind h t = same_kind t.kind kind && str_eq t.token_hash h

abbrev pub revoke : DateTime → RefreshToken → RefreshToken
revoke at t = record t { revoked_at = some at }

-- The user of a foreign key; a missing row cannot be, and raises.
abbrev pub known_user : Option User → Action User
known_user none = raise Exn.does_not_exist
known_user (some u) = pure u

unfoldable pub user_of : Uuid → Action User
user_of i = do found ← gets (λ db. first (λ (u : User). u.id == i) db.users); known_user found

-- The insert; a digest that is there already breaks the unique constraint.
abbrev pub insert_refresh_token : (clash : Bool) → Env → Uuid → String → Action String
insert_refresh_token true env user raw = raise Exn.integrity_error
insert_refresh_token false env user raw = do
  i ← draw
  t ← now
  modify λ db. record db {
    refresh_tokens =
        db.refresh_tokens
        ++ record {
          id = i;
          user_id = user;
          token_hash = env.sha256 raw;
          expires_at = t + refresh_token_lifetime;
          revoked_at = none;
        }
          ∷ [];
  }
  pure raw

unfoldable pub create_refresh_token : Env → Uuid → Action String
create_refresh_token env user = do
  n ← draw
  let raw = env.token_urlsafe n
  clash ← gets (λ db. any (has_hash (env.sha256 raw)) db.refresh_tokens)
  insert_refresh_token clash env user raw

unfoldable pub revoke_all_refresh_tokens : Uuid → Action (Unit {0})
revoke_all_refresh_tokens user = do
  t ← now
  modify λ db. record db { refresh_tokens = update (is_live_of user) (revoke t) db.refresh_tokens }

unfoldable pub revoke_refresh_token : Env → String → Action (Unit {0})
revoke_refresh_token env raw = do
  t ← now
  modify λ db. record db {
    refresh_tokens =
        update (λ row. has_hash (env.sha256 raw) row && not (is_some row.revoked_at)) (revoke t)
          db.refresh_tokens;
  }

-- The exchange: the old row is revoked, and the user gets a new one.
unfoldable pub exchange : Env → RefreshToken → User → Action (User × String)
exchange env rt user = do
  t ← now
  modify λ db. record db {
    refresh_tokens = update (λ row. row.id == rt.id) (revoke t) db.refresh_tokens;
  }
  raw ← create_refresh_token env user.id
  pure (user, raw)

abbrev pub if_active : (active : Bool) → Env → RefreshToken → User → Action (User × String)
if_active true env rt user = exchange env rt user
if_active false env rt user = raise (fails AuthCode.user_not_found)

abbrev pub rotate_for : Env → RefreshToken → Option User → Action (User × String)
rotate_for env rt none = raise Exn.does_not_exist
rotate_for env rt (some user) = if_active user.is_active env rt user

abbrev pub unless_expired : (expired : Bool) → Env → RefreshToken → Action (User × String)
unless_expired true env rt = raise (fails AuthCode.token_expired)
unless_expired false env rt =
    λ w. rotate_for env rt (first (λ (u : User). u.id == rt.user_id) w.db.users) w

-- A row that is neither unknown nor revoked.
unfoldable pub rotate_live : Env → RefreshToken → Action (User × String)
rotate_live env rt w = unless_expired (leb rt.expires_at w.clock) env rt w

-- A revoked token that comes back revokes all of its user's tokens.
abbrev pub unless_revoked : (revoked : Bool) → Env → RefreshToken → Action (User × String)
unless_revoked true env rt = do
  revoke_all_refresh_tokens rt.user_id
  raise (fails AuthCode.token_revoked)
unless_revoked false env rt = rotate_live env rt

abbrev pub rotate_found : Env → Option RefreshToken → Action (User × String)
rotate_found env none = raise (fails AuthCode.invalid_token)
rotate_found env (some rt) = unless_revoked (is_some rt.revoked_at) env rt

unfoldable pub rotate_refresh_token : Env → String → Action (User × String)
rotate_refresh_token env raw = do
  rt ← gets (λ db. first (has_hash (env.sha256 raw)) db.refresh_tokens)
  rotate_found env rt

abbrev pub insert_one_time_token :
    (clash : Bool) → Env → TokenKind → Option Identity → Uuid → String → Action String
insert_one_time_token true env kind link user raw = raise Exn.integrity_error
insert_one_time_token false env kind link user raw = do
  i ← draw
  t ← now
  modify λ db. record db {
    one_time_tokens =
        db.one_time_tokens
        ++ record {
          kind = kind;
          id = i;
          user_id = user;
          token_hash = env.sha256 raw;
          expires_at = t + lifetime kind;
          used_at = none;
          link = link;
        }
          ∷ [];
  }
  pure raw

-- A new token of a kind; a social link request carries the account to link.
unfoldable pub create_token : Env → TokenKind → Option Identity → Uuid → Action String
create_token env kind link user = do
  n ← draw
  let raw = env.token_urlsafe n
  clash ← gets (λ db. any (is_token kind (env.sha256 raw)) db.one_time_tokens)
  insert_one_time_token clash env kind link user raw

unfoldable pub create_one_time_token : Env → TokenKind → Uuid → Action String
unfolding create_token
create_one_time_token env kind user = create_token env kind none user

unfoldable pub create_social_link_token : Env → Identity → Uuid → Action String
unfolding create_token
create_social_link_token env identity user =
    create_token env TokenKind.social_link (some identity) user

-- The condition of the consuming UPDATE: `used_at IS NULL AND expires_at > now`.
abbrev pub is_consumable : TokenKind → String → DateTime → OneTimeToken → Bool
is_consumable kind h t row =
    is_token kind h row && (not (is_some row.used_at) && ltb t row.expires_at)

abbrev pub use_at : DateTime → OneTimeToken → OneTimeToken
use_at t row = record row { used_at = some t }

-- The conditional UPDATE and the number of rows that it changed.
unfoldable pub claim : TokenKind → String → DateTime → Action ℕ
claim kind h t = do
  n ← gets (λ db. count (is_consumable kind h t) db.one_time_tokens)
  modify λ db. record db {
    one_time_tokens = update (is_consumable kind h t) (use_at t) db.one_time_tokens;
  }
  pure n

abbrev pub if_user_active : Bool → OneTimeToken → DateTime → Action OneTimeToken
if_user_active true row t = pure (use_at t row)
if_user_active false row t = raise (fails AuthCode.user_not_found)

abbrev pub with_owner : OneTimeToken → DateTime → Option User → Action OneTimeToken
with_owner row t none = raise Exn.does_not_exist
with_owner row t (some user) = if_user_active user.is_active row t

-- Where the conditional UPDATE changed no row, another request has used the token.
abbrev pub if_claimed : (lost : Bool) → OneTimeToken → DateTime → Action OneTimeToken
if_claimed true row t = raise (fails AuthCode.token_used)
if_claimed false row t =
    λ w. with_owner row t (first (λ (u : User). u.id == row.user_id) w.db.users) w

abbrev pub if_usable :
    (used expired : Bool) → TokenKind → String → OneTimeToken → Action OneTimeToken
if_usable true expired kind h row = raise (fails AuthCode.token_used)
if_usable false true kind h row = raise (fails AuthCode.token_expired)
if_usable false false kind h row = do t ← now; n ← claim kind h t; if_claimed (n == 0) row t

abbrev pub consume_found : TokenKind → String → Option OneTimeToken → Action OneTimeToken
consume_found kind h none = raise (fails AuthCode.invalid_token)
consume_found kind h (some row) =
    λ w. if_usable (is_some row.used_at) (leb row.expires_at w.clock) kind h row w

unfoldable pub consume_one_time_token : Env → TokenKind → String → Action OneTimeToken
consume_one_time_token env kind raw = do
  row ← gets (λ db. first (is_token kind (env.sha256 raw)) db.one_time_tokens)
  consume_found kind (env.sha256 raw) row

unfoldable pub verify_one_time_token : Env → TokenKind → String → Action User
verify_one_time_token env kind raw = do
  row ← consume_one_time_token env kind raw
  user_of row.user_id
