-- ===== src/Accounts/Providers.antt =====
-- `exchange_code` of apps/users/oauth.py: what the answers of a provider say of its user. The
-- requests, and PyJWT, which checks Microsoft's signed token, are parameters.
pub mod Verified
use text.Mathlib.Text.{starts_with}
use saasmint_core.Base.{
  Bool, true, false, ◌&&◌, ◌||◌, Option, none, some, String, str_eq, if◌then◌else◌,
}
use saasmint_core.Python.{Exn, Json, Items, Result, ok, err, index, get, get_or, truthy, ◌>>=◌}
use saasmint_core.Values.{to_text, as_text}
use saasmint_core.State.{Env}
use saasmint_core.Payments.Redirects.{ends_with}

-- `OAuthUserInfo`
pub record UserInfo : Type 0 where
  pub email : String
  pub full_name : String
  pub provider_user_id : String
  pub email_verified : Bool

-- The answers, each of them decoded or an error; `before_at` is `email.split("@")[0]`,
-- and `jwt_decode` is PyJWT's, with the signing key that Microsoft publishes; `none` is one of the
-- exceptions that the code catches. The client's id is a setting.
pub record Answers : Type 0 where
  pub token : Result Json
  pub userinfo : Result Json
  pub emails : Result Json
  pub client_id : String
  pub jwt_decode : (token : Json) (algorithm audience : String) → Option Json
  pub before_at : String → String

-- Membership in `PROVIDERS`.
abbrev pub is_provider : String → Bool
is_provider provider =
    str_eq provider "google" || (str_eq provider "github" || str_eq provider "microsoft")

-- `v is True`
abbrev pub is_true : Json → Bool
is_true (Json.bool b) = b
is_true _ = false

abbrev pub is_object : Json → Bool
is_object (Json.obj fs) = true
is_object _ = false

-- `a or b`, over texts: the first that is not empty.
abbrev pub or_text : Json → Json → Json
or_text a b = if truthy a then a else b

abbrev pub unless_blank : (present : Bool) → Json → Result String
unless_blank false email = err Exn.oauth_error
unless_blank true email = as_text email

-- An email that the answer has to contain.
abbrev pub required_email : Json → Result String
required_email email = unless_blank (truthy email) email

-- A method of texts, on what may be none.
abbrev pub text_or_raise : Json → Result String
text_or_raise (Json.str s) = ok s
text_or_raise _ = err Exn.attribute_error

abbrev pub is_microsofts : (iss : String) → Bool
is_microsofts iss = starts_with iss "https://login.microsoftonline.com/" && ends_with iss "/v2.0"

-- The claims of a token that PyJWT accepts, where the issuer is Microsoft's.
abbrev pub if_decoded : Option Json → Result (Option Json)
if_decoded none = ok none
if_decoded (some claims) = do
  iss ← get_or claims "iss" (Json.str "")
  text ← text_or_raise iss
  ok (if is_microsofts text then some claims else none)

module _ (env : Env) (answers : Answers) where
  -- `_verify_microsoft_id_token`
  unfoldable pub verify_microsoft_id_token : Json → Result (Option Json)
  verify_microsoft_id_token id_token =
      if_decoded (answers.jwt_decode id_token "RS256" answers.client_id)

  abbrev pub local_part : String → Json
  local_part email = Json.str (answers.before_at email)

  unfoldable pub google_user : Json → Result UserInfo
  google_user info = do
    given ← get info "email"
    email ← required_email given
    verified_email ← get info "verified_email"
    email_verified ← get info "email_verified"
    name ← get info "name"
    id ← index info "id"
    full_name ← as_text (or_text name (local_part email))
    ok (record {
      email = email;
      full_name = full_name;
      provider_user_id = to_text env id;
      email_verified = is_true verified_email || is_true email_verified;
    })

  -- The entry, where it is the primary and verified one, or what the others give.
  abbrev pub email_or : (chosen : Bool) → Json → Result String → Result String
  email_or true entry rest = do email ← index entry "email"; ok (to_text env email)
  email_or false entry rest = rest

  -- The loop of `_fetch_github_primary_email`.
  unfoldable pub primary_email : Items → Result String
  primary_email Items.nil = err Exn.oauth_error
  primary_email (Items.cons entry entries) = do
    primary ← get entry "primary"
    verified ← get entry "verified"
    email_or (truthy primary && truthy verified) entry (primary_email entries)

  abbrev pub entries_of : Json → Result String
  entries_of (Json.arr entries) = primary_email entries
  entries_of _ = err Exn.type_error

  unfoldable pub github_user : Json → Result UserInfo
  github_user info = do
    emails ← answers.emails
    email ← entries_of emails
    name ← get info "name"
    login ← get info "login"
    id ← index info "id"
    full_name ← as_text (or_text name (or_text login (local_part email)))
    ok (record {
      email = email;
      full_name = full_name;
      provider_user_id = to_text env id;
      email_verified = true;
    })

  -- The email of the profile, which proves nothing.
  unfoldable pub unproven_user : Json → Result UserInfo
  unproven_user info = do
    mail ← get info "mail"
    principal ← get info "userPrincipalName"
    email ← required_email (or_text mail principal)
    name ← get_or info "displayName" (Json.str "")
    id ← index info "id"
    full_name ← as_text name
    ok (record {
      email = email;
      full_name = full_name;
      provider_user_id = to_text env id;
      email_verified = false;
    })

  -- `claims.get("oid") or ms["id"]`
  abbrev pub object_id : (has_oid : Bool) → Json → Json → Result Json
  object_id true oid info = ok oid
  object_id false oid info = index info "id"

  -- The email of the signed token.
  unfoldable pub signed_user : Json → Json → Result UserInfo
  signed_user signed info = do
    given ← get signed "email"
    email ← as_text given
    name ← get signed "name"
    display_name ← get_or info "displayName" (Json.str "")
    oid ← get signed "oid"
    id ← object_id (truthy oid) oid info
    full_name ← as_text (or_text name display_name)
    ok (record {
      email = email;
      full_name = full_name;
      provider_user_id = to_text env id;
      email_verified = true;
    })

  abbrev pub if_attested : (attested : Bool) → Json → Json → Result UserInfo
  if_attested true signed info = signed_user signed info
  if_attested false signed info = unproven_user info

  -- `claims and claims.get("xms_edov") is True and verified_email`
  abbrev pub with_claims : Option Json → Json → Result UserInfo
  with_claims none info = unproven_user info
  with_claims (some signed) info = do
    email ← get signed "email"
    attested ← get signed "xms_edov"
    if_attested (is_true attested && truthy email) signed info

  abbrev pub claims_if_sent : Json → Result (Option Json)
  claims_if_sent id_token = if truthy id_token then verify_microsoft_id_token id_token else ok none

  unfoldable pub microsoft_user : Json → Json → Result UserInfo
  microsoft_user token info = do
    id_token ← get token "id_token"
    claims ← claims_if_sent id_token
    with_claims claims info

  abbrev pub user_of_provider : String → Json → Json → Result UserInfo
  user_of_provider provider token info =
      if str_eq provider "google"
      then google_user info
      else if str_eq provider "github"
      then github_user info
      else microsoft_user token info

  abbrev pub unless_malformed : (is_object : Bool) → String → Json → Json → Result UserInfo
  unless_malformed false provider token info = err Exn.oauth_error
  unless_malformed true provider token info = user_of_provider provider token info

  abbrev pub with_access_token : (present : Bool) → String → Json → Result UserInfo
  with_access_token false provider token = err Exn.oauth_error
  with_access_token true provider token = do
    info ← answers.userinfo
    unless_malformed (is_object info) provider token info

  abbrev pub if_provider : (known : Bool) → String → Result UserInfo
  if_provider false provider = err Exn.value_error
  if_provider true provider = do
    token ← answers.token
    access_token ← get token "access_token"
    with_access_token (truthy access_token) provider token

  unfoldable pub exchange_code : String → Result UserInfo
  exchange_code provider = if_provider (is_provider provider) provider
