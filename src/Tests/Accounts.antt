-- ===== src/Tests/Accounts.antt =====
-- The account theorems at one user, later than the first second.
use Prim.Native.String
use saasmint_core.Base.{if◌then◌else◌, str_eq, true, false, none, some, [], ◌∷◌, ◌≡◌, refl, arith}
use saasmint_core.Python.{AuthCode, Exn, Json, Fields, ok, err, get, get_or, index, truthy, lookup}
use saasmint_core.Values.{as_text, to_text}
use saasmint_core.Domain.{OneTimeToken, TokenKind}
use saasmint_core.State.{Env, World, CacheKey, CacheValue, Decoded}
use saasmint_core.Tokens.{
  fails, claim, user_of, create_refresh_token, revoke_all_refresh_tokens, consume_one_time_token,
  verify_one_time_token,
}
use saasmint_core.Accounts.Users.{encode, save_changes}
use saasmint_core.Accounts.Claims.{access_claims}
use saasmint_core.Accounts.Jwt.{create_access_token, authenticate}
use saasmint_core.Accounts.Jwt.Sessions.{IsDecoded, Finds, issued_authenticates}
use saasmint_core.Accounts.Views.{
  Reply, set_new_password, sign_in, reset_to, reset_password, verify_email,
}
use saasmint_core.Accounts.Views.Reset.{reset_revokes_access}
use saasmint_core.Accounts.Views.Verification.{verification_uses_token}
use saasmint_core.Accounts.Exchange.{consume_oauth_exchange, oauth_exchange, exchange_once}
use saasmint_core.Accounts.Providers.{
  UserInfo, Answers, microsoft_user, verify_microsoft_id_token, signed_user, exchange_code,
}
use saasmint_core.Accounts.Providers.Verified.{IsAttested, microsoft-IsAttested}
use saasmint_core.Accounts.OAuth.{Resolution, link, link_or_request, resolve_oauth_user}
use saasmint_core.Accounts.OAuth.Linking.{sign_in_verified}
use saasmint_core.Tests.Data.{env, user, db, world}

-- PyJWT, for one payload.
abbrev jwt_env : Env
jwt_env = record env {
  jwt_decode = λ t token. Decoded.claims (access_claims env 1000000 user);
  parse_uuid = λ s. some 6;
}

decoded : IsDecoded jwt_env user 1000000
unfolding access_claims
decoded = record { decodes = λ t h k. refl; has_subject = refl; parses = refl }

abbrev reset_row : OneTimeToken
reset_row = record {
  kind = TokenKind.password_reset;
  id = 8;
  user_id = 6;
  token_hash = "digest of once";
  expires_at = 9000000;
  used_at = none;
  link = none;
}

abbrev start : World
start = record world { db = record db { one_time_tokens = reset_row ∷ [] }; clock = 2000000 }

issued_authenticates_example :
    (authenticate jwt_env (String.◌++◌ "Bearer " "jwt") start).0 ≡ ok (some (user, "jwt"))
issued_authenticates_example =
    issued_authenticates jwt_env user user 1000000 decoded start (omega arith) (omega arith)
      (Finds.in_table refl refl) (omega arith)

reset : (reset_password jwt_env "once" "new" start).0 ≡ ok (Reply.token_pair 200 "jwt" "raw")
unfolding reset_password verify_one_time_token consume_one_time_token claim user_of reset_to encode
    set_new_password save_changes revoke_all_refresh_tokens sign_in create_refresh_token
    create_access_token
reset = refl

reset_revokes_access_example :
    (authenticate jwt_env
      (String.◌++◌ "Bearer " "jwt")
      (record (reset_password jwt_env "once" "new" start).1 { clock = 3000000 })).0
    ≡ err (fails AuthCode.token_revoked)
reset_revokes_access_example =
    reset_revokes_access jwt_env "once" "new" start (Reply.token_pair 200 "jwt" "raw") user 1000000
      3000000 reset reset_row refl refl (omega arith) decoded (omega arith) (omega arith)

-- An account that an invitation made: it has no usable password yet.
abbrev invitee : World
invitee = record start {
  db = record db {
    users = record user { password = none; is_verified = false } ∷ [];
    one_time_tokens = record reset_row { kind = TokenKind.email_verification } ∷ [];
  };
}

asked : (verify_email env "once" none invitee).0 ≡ ok (Reply.message 400 "password_required")
unfolding verify_email verify_one_time_token consume_one_time_token claim user_of
asked = refl

verification_uses_token_example :
    let w' : World = record (verify_email env "once" none invitee).1 { clock = 2000001 } in
    verify_email env "once" (some "password") w' ≡ (err (fails AuthCode.token_used), w')
verification_uses_token_example =
    verification_uses_token env "once" invitee none (some "password")
      (Reply.message 400 "password_required") 2000001 asked

abbrev with_code : World
with_code = record world {
  cache =
      record {
        key = CacheKey.oauth_exchange "code";
        value = CacheValue.token_pair "access" "refresh";
        expires_at = 600;
      }
      ∷ [];
}

swapped : (oauth_exchange "code" with_code).0 ≡ ok (Reply.token_pair 200 "access" "refresh")
unfolding oauth_exchange consume_oauth_exchange
swapped = refl

exchange_once_example :
    (oauth_exchange "code" (record (oauth_exchange "code" with_code).1 { clock = 550 })).0
    ≡ err (Exn.api_exception 400 "invalid_code")
exchange_once_example =
    exchange_once "code" with_code (Reply.token_pair 200 "access" "refresh") 550 swapped

abbrev info : UserInfo
info = record {
  email = "ada@example.org";
  full_name = "Ada";
  provider_user_id = "g1";
  email_verified = true;
}

signed_in : (resolve_oauth_user env "google" info world).0 ≡ ok (Resolution.resolved user)
unfolding resolve_oauth_user link_or_request link
signed_in = refl

sign_in_verified_example : info.email_verified ≡ true
sign_in_verified_example = sign_in_verified env "google" info user world refl signed_in

abbrev signed : Json
signed = Json.obj (
    Fields.field "email" (Json.str "ada@example.org") (
      Fields.field "xms_edov" (Json.bool true) (
        Fields.field "name" (Json.str "Ada") (
          Fields.field "iss" (Json.str "https://login.microsoftonline.com/t1/v2.0")
            (Fields.field "oid" (Json.str "o1") Fields.end)))))

abbrev answers : Answers
answers = record {
  token = ok (
      Json.obj (
        Fields.field "access_token" (Json.str "at")
          (Fields.field "id_token" (Json.str "it") Fields.end)));
  userinfo = ok (Json.obj (Fields.field "id" (Json.str "m1") Fields.end));
  emails = err Exn.connection_error;
  client_id = "client";
  jwt_decode = λ v algorithm audience. if str_eq audience "client" then some signed else none;
  before_at = λ s. s;
}

accepted :
    exchange_code env answers "microsoft"
    ≡ ok (record {
      email = "ada@example.org";
      full_name = "Ada";
      provider_user_id = "o1";
      email_verified = true;
    })
unfolding exchange_code microsoft_user verify_microsoft_id_token signed_user get get_or index truthy
    lookup as_text to_text
accepted = refl

microsoft-IsAttested_example : IsAttested answers (record {
  email = "ada@example.org";
  full_name = "Ada";
  provider_user_id = "o1";
  email_verified = true;
})
microsoft-IsAttested_example =
    microsoft-IsAttested env answers
      (record {
        email = "ada@example.org";
        full_name = "Ada";
        provider_user_id = "o1";
        email_verified = true;
      })
      accepted refl
