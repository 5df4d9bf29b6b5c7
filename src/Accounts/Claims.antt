-- ===== src/Accounts/Claims.antt =====
-- The claims of an access token: apps/users/authentication.py.
use saasmint_core.Base.{ℕ, ◌+◌, ◌*◌, ◌/◌, Bool, true, false, Option, none, some, String, str_eq}
use saasmint_core.Python.{
  DateTime, AuthCode, Json, Fields, Result, ok, err, get, get_or, is_text, as_int, ◌>>=◌,
}
use saasmint_core.Domain.{User}
use saasmint_core.State.{Env}
use saasmint_core.Tokens.{seconds, fails}

-- `ACCESS_TOKEN_LIFETIME`
abbrev pub access_token_lifetime : DateTime
access_token_lifetime = seconds (15 * 60)

-- `int(moment.timestamp())`
abbrev pub timestamp : DateTime → ℕ
timestamp t = t / 1000000

-- `int(pwd_changed.timestamp()) if pwd_changed else 0`
abbrev pub pwd_iat : Option DateTime → ℕ
pwd_iat none = 0
pwd_iat (some t) = timestamp t

-- The payload of a token that is issued now; PyJWT writes its times in seconds.
unfoldable pub access_claims : Env → DateTime → User → Json
access_claims env now user = Json.obj (
    Fields.field "sub" (Json.str (env.uuid_text user.id)) (
      Fields.field "email" (Json.str user.email) (
        Fields.field "type" (Json.str "access") (
          Fields.field "iat" (Json.int (timestamp now)) (
            Fields.field "exp" (Json.int (timestamp (now + access_token_lifetime)))
              (Fields.field "pwd_iat" (Json.int (pwd_iat user.password_changed_at)) Fields.end))))))

-- What the authentication reads: the subject and the time of the password.
pub record Claims : Type 0 where
  pub subject : String
  pub password_time : ℕ

abbrev pub int_or_zero : Option ℕ → ℕ
int_or_zero none = 0
int_or_zero (some n) = n

abbrev pub unless_empty : (empty : Bool) → String → ℕ → Result Claims
unless_empty true subject time = err (fails AuthCode.invalid_token)
unless_empty false subject time = ok (record { subject = subject; password_time = time })

abbrev pub with_subject : Json → ℕ → Result Claims
with_subject (Json.str subject) time = unless_empty (str_eq subject "") subject time
with_subject _ time = err (fails AuthCode.invalid_token)

abbrev pub if_access : (access : Bool) → Json → ℕ → Result Claims
if_access true subject time = with_subject subject time
if_access false subject time = err (fails AuthCode.invalid_token)

unfoldable pub read_claims : Json → Result Claims
read_claims payload = do
  kind ← get payload "type"
  subject ← get payload "sub"
  time ← get_or payload "pwd_iat" (Json.int 0)
  if_access (is_text kind "access") subject (int_or_zero (as_int time))
