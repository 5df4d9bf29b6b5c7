-- ===== src/Accounts/OAuth.antt =====
-- Sign-in through an OAuth provider: `resolve_oauth_user` of apps/users/services.py and the OAuth
-- views of apps/users/auth_views.py.
pub mod Linking
use saasmint_core.Base.{
  ◌==◌, Bool, true, false, not, ◌&&◌, ◌||◌, Option, none, some, [], ◌∷◌, ◌++◌, String, str_eq,
  option_eq, first, any, update, if◌then◌else◌,
}
use saasmint_core.Python.{Exn, Result, ok, err}
use saasmint_core.Domain.{Uuid, User, Identity, SocialAccount, OneTimeToken, TokenKind}
use saasmint_core.State.{
  Env, Action, Task, pure, raise, lift, gets, modify, draw, enqueue, atomic, try_except, ◌>>=◌,
  ◌>>◌,
}
use saasmint_core.Tokens.{
  known_user, user_of, create_refresh_token, create_social_link_token, consume_one_time_token,
}
use saasmint_core.Accounts.Users.{has_id, has_email, create_user, save_changes}
use saasmint_core.Accounts.Jwt.{create_access_token}
use saasmint_core.Accounts.Views.{Reply, use_up, sign_in, save_if}
use saasmint_core.Accounts.Exchange.{store_oauth_exchange}
use saasmint_core.Accounts.Providers.{UserInfo, is_provider}

-- `OAuthResolution`
pub data Resolution : Type 0 where
  resolved : User → Resolution
  collision : (existing : Option User) → Resolution

-- Membership in `TRUSTED_FOR_AUTO_LINK`.
abbrev pub is_trusted : String → Bool
is_trusted provider =
    str_eq provider "google" || (str_eq provider "github" || str_eq provider "microsoft")

abbrev pub identity_of : String → UserInfo → Identity
identity_of provider info = record { provider = provider; provider_user_id = info.provider_user_id }

abbrev pub has_identity : Identity → SocialAccount → Bool
has_identity i a =
    str_eq a.identity.provider i.provider && str_eq a.identity.provider_user_id i.provider_user_id

-- The unique constraint on the user and the provider.
abbrev pub has_provider : Uuid → String → SocialAccount → Bool
has_provider u provider a = a.user_id == u && str_eq a.identity.provider provider

abbrev pub insert_social : (clash : Bool) → Identity → (user id : Uuid) → Action (Unit {0})
insert_social true identity user i = raise Exn.integrity_error
insert_social false identity user i = modify λ db. record db {
  social_accounts =
      db.social_accounts ++ record { id = i; user_id = user; identity = identity } ∷ [];
}

abbrev pub link_unless_known :
    (existing : Option SocialAccount) → Identity → Uuid → Action (Unit {0})
link_unless_known (some row) identity user = pure tt
link_unless_known none identity user = do
  i ← draw
  clash ← gets (λ db. any (has_provider user identity.provider) db.social_accounts)
  insert_social clash identity user i

-- `SocialAccount.objects.get_or_create(…, defaults={"user": user})`
unfoldable pub link : Identity → Uuid → Action (Unit {0})
link identity user = do
  existing ← gets (λ db. first (has_identity identity) db.social_accounts)
  link_unless_known existing identity user

abbrev pub link_if : (proven : Bool) → Identity → User → Action Resolution
link_if true identity existing = do link identity existing.id; pure (Resolution.resolved existing)
link_if false identity existing =
    pure (Resolution.collision (if existing.is_active then some existing else none))

unfoldable pub link_or_request : String → UserInfo → User → Action Resolution
link_or_request provider info existing =
    link_if (info.email_verified && is_trusted provider) (identity_of provider info) existing

-- `User.objects.get(…)`
abbrev pub link_to_raced : String → UserInfo → Option User → Action Resolution
link_to_raced provider info none = raise Exn.does_not_exist
link_to_raced provider info (some existing) = link_or_request provider info existing

module _ (env : Env) where
  -- `except IntegrityError`: another request has created the user.
  abbrev pub on_race : String → UserInfo → Exn → Action Resolution
  on_race provider info Exn.integrity_error = do
    existing ← gets (λ db. first (has_email env info.email) db.users)
    link_to_raced provider info existing
  on_race provider info e = raise e

  unfoldable pub sign_up : String → UserInfo → Action Resolution
  sign_up provider info = do
    user ← create_user env info.email info.full_name none true
    link (identity_of provider info) user.id
    pure (Resolution.resolved user)

  -- A new user, where the provider has confirmed the email.
  abbrev pub sign_up_if : (email_verified : Bool) → String → UserInfo → Action Resolution
  sign_up_if false provider info = raise Exn.email_not_verified
  sign_up_if true provider info =
      try_except (atomic (sign_up provider info)) (on_race provider info)

  abbrev pub resolve_by_email : Option User → String → UserInfo → Action Resolution
  resolve_by_email (some existing) provider info = link_or_request provider info existing
  resolve_by_email none provider info = sign_up_if info.email_verified provider info

  abbrev pub resolve_account : Option SocialAccount → String → UserInfo → Action Resolution
  resolve_account (some account) provider info = do
    user ← user_of account.user_id
    pure (Resolution.resolved user)
  resolve_account none provider info = do
    existing ← gets (λ db. first (has_email env info.email) db.users)
    resolve_by_email existing provider info

  unfoldable pub resolve_oauth_user : (provider : String) → UserInfo → Action Resolution
  resolve_oauth_user provider info = do
    account ← gets (λ db. first (has_identity (identity_of provider info)) db.social_accounts)
    resolve_account account provider info

-- A redirect to the frontend: `/auth/error`, `/auth/link-email-sent` or `/auth/callback`.
pub data Redirect : Type 0 where
  error_page : (code : String) → Redirect
  link_email_sent : Redirect
  callback_page : (code : String) → Redirect

-- The parameters of the callback's URL.
pub record CallbackParams : Type 0 where
  pub code : Option String
  pub state : Option String
  pub error : Option String

-- Membership in `_FORWARDABLE_OAUTH_ERRORS`.
abbrev pub is_forwardable : String → Bool
is_forwardable e =
    str_eq e "access_denied"
    || (str_eq e "server_error"
        || (str_eq e "temporarily_unavailable" || str_eq e "invalid_request"))

-- `not value`, for a text that may be missing.
abbrev pub is_blank : Option String → Bool
is_blank none = true
is_blank (some s) = str_eq s ""

abbrev pub forwarded : Option String → String
forwarded none = "exchange_failed"
forwarded (some e) = if is_forwardable e then e else "exchange_failed"

abbrev pub text_of : Option String → String
text_of none = ""
text_of (some s) = s

-- The `except` clauses around the exchange and around the resolution.
abbrev pub on_exchange_error : Exn → Action Redirect
on_exchange_error Exn.connection_error = pure (Redirect.error_page "exchange_failed")
on_exchange_error Exn.oauth_error = pure (Redirect.error_page "exchange_failed")
on_exchange_error Exn.value_error = pure (Redirect.error_page "provider_error")
on_exchange_error Exn.key_error = pure (Redirect.error_page "provider_error")
on_exchange_error e = raise e

abbrev pub on_resolution_error : Exn → Action Redirect
on_resolution_error Exn.email_not_verified = pure (Redirect.error_page "email_not_verified")
on_resolution_error Exn.value_error = pure (Redirect.error_page "account_deactivated")
on_resolution_error e = raise e

module _ (env : Env) where
  abbrev pub request_link : String → UserInfo → Option User → Action (Unit {0})
  request_link provider info none = pure tt
  request_link provider info (some existing) = do
    use_up TokenKind.social_link existing.id
    token ← create_social_link_token env (identity_of provider info) existing.id
    enqueue (Task.send_social_link_email existing.email token provider)

  abbrev pub sign_in_if : (active : Bool) → User → Action Redirect
  sign_in_if false user = pure (Redirect.error_page "account_deactivated")
  sign_in_if true user = do
    refresh ← create_refresh_token env user.id
    access ← create_access_token env user
    code ← store_oauth_exchange env access refresh
    pure (Redirect.callback_page code)

  abbrev pub finish_sign_in : String → UserInfo → Result Resolution → Action Redirect
  finish_sign_in provider info (err e) = on_resolution_error e
  finish_sign_in provider info (ok (Resolution.collision existing)) = do
    request_link provider info existing
    pure Redirect.link_email_sent
  finish_sign_in provider info (ok (Resolution.resolved user)) = sign_in_if user.is_active user

  abbrev pub with_user_info : String → Result UserInfo → Action Redirect
  with_user_info provider (err e) = on_exchange_error e
  with_user_info provider (ok info) =
      λ w. let (r, w') = resolve_oauth_user env provider info w in finish_sign_in provider info r w'

  -- The checks of the callback, in their order.
  abbrev pub check_code :
      (exchange : String → String → Result UserInfo) → String → Option String → Action Redirect
  check_code exchange provider code =
      if is_blank code
      then pure (Redirect.error_page "missing_code")
      else with_user_info provider (exchange provider (text_of code))

  abbrev pub check_params :
      (exchange : String → String → Result UserInfo)
      → String
      → CallbackParams
      → (expected : Option String) → Action Redirect
  check_params exchange provider params expected =
      if not (is_blank params.error)
      then pure (Redirect.error_page (forwarded params.error))
      else if is_blank params.state || not (option_eq str_eq params.state expected)
      then pure (Redirect.error_page "invalid_state")
      else check_code exchange provider params.code

  -- `OAuthCallbackView`, with the `oauth_state` of the session, which is popped.
  unfoldable pub oauth_callback :
      (exchange : String → String → Result UserInfo)
      → (provider : String) → CallbackParams
      → (oauth_state : Option String) → Action (Redirect × Option String)
  oauth_callback exchange provider params oauth_state =
      if is_provider provider
      then (do redirect ← check_params exchange provider params oauth_state; pure (redirect, none))
      else pure (Redirect.error_page "invalid_provider", oauth_state)

  abbrev pub with_link : (taken : Bool) → Option SocialAccount → Identity → User → Action Reply
  with_link true existing identity user = pure (Reply.message 409 "social_account_collision")
  with_link false existing identity user = do
    saved ← atomic (do
      link_unless_known existing identity user.id
      save_if (not user.is_verified) (λ u. record u { is_verified = true }) user)
    sign_in env 200 saved

  -- Whether the account at the provider is linked to another user.
  abbrev pub is_taken : Option SocialAccount → Uuid → Bool
  is_taken none user = false
  is_taken (some row) user = not (row.user_id == user)

  abbrev pub confirm_identity : Option Identity → User → Action Reply
  confirm_identity none user = raise Exn.attribute_error
  confirm_identity (some identity) user = do
    existing ← gets (λ db. first (has_identity identity) db.social_accounts)
    with_link (is_taken existing user.id) existing identity user

  -- `OAuthConfirmLinkView`
  unfoldable pub confirm_link : (token : String) → Action Reply
  confirm_link token = do
    request ← consume_one_time_token env TokenKind.social_link token
    user ← user_of request.user_id
    confirm_identity request.link user
