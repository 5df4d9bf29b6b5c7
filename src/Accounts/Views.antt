-- ===== src/Accounts/Views.antt =====
-- The views of apps/users/auth_views.py for passwords and email addresses. The arguments of a view
-- are the validated data of its serializer; Django's `authenticate` is a parameter of the login.
pub mod SignIn
pub mod Reset
pub mod Verification
use saasmint_core.Base.{
  ℕ, ◌==◌, Bool, true, false, not, ◌&&◌, ◌||◌, Option, none, some, List, String, str_eq, is_some,
  first, update,
}
use saasmint_core.Python.{Exn, DateTime}
use saasmint_core.Domain.{Uuid, User, TokenKind, OneTimeToken, same_kind}
use saasmint_core.State.{
  Env, Action, Task, pure, raise, gets, modify, now, enqueue, atomic, try_except, ◌>>=◌, ◌>>◌,
}
use saasmint_core.Tokens.{
  use_at, create_refresh_token, rotate_refresh_token, revoke_refresh_token,
  revoke_all_refresh_tokens, create_one_time_token, verify_one_time_token,
}
use saasmint_core.Accounts.Users.{has_email, email_is_registered, encode, create_user, save_changes}
use saasmint_core.Accounts.Jwt.{create_access_token}

-- The answer of a view: a pair of tokens, or a message with its code.
pub data Reply : Type 0 where
  token_pair : (status : ℕ) → (access refresh : String) → Reply
  message : (status : ℕ) → (code : String) → Reply

abbrev pub email_exists : Exn
email_exists = Exn.api_exception 409 "email_exists"

abbrev pub invalid_credentials : Exn
invalid_credentials = Exn.api_exception 401 "invalid_credentials"

abbrev pub account_deactivated : Exn
account_deactivated = Exn.api_exception 401 "account_deactivated"

abbrev pub invalid_password : Exn
invalid_password = Exn.api_exception 400 "invalid_password"

-- `except IntegrityError as exc: raise EmailAlreadyExists from exc`
abbrev pub on_clash : {A : Type 0} → Exn → Action A
on_clash Exn.integrity_error = raise email_exists
on_clash e = raise e

abbrev pub is_unused_of : TokenKind → Uuid → OneTimeToken → Bool
is_unused_of kind user row =
    same_kind row.kind kind && (row.user_id == user && not (is_some row.used_at))

-- `.filter(user=user, used_at__isnull=True).update(used_at=datetime.now(UTC))`
unfoldable pub use_up : TokenKind → Uuid → Action (Unit {0})
use_up kind user = do
  t ← now
  modify λ db. record db {
    one_time_tokens = update (is_unused_of kind user) (use_at t) db.one_time_tokens;
  }

-- The columns that an email verification changes.
abbrev pub with_verification : Option String → User → User
with_verification none u = record u { is_verified = true }
with_verification (some encoded) u = record u { password = some encoded; is_verified = true }

-- The columns that a new password changes.
abbrev pub with_password : (encoded : String) → DateTime → User → User
with_password encoded t u = record u { password = some encoded; password_changed_at = some t }

abbrev pub save_if : (changed : Bool) → (User → User) → User → Action User
save_if true change user = save_changes change user
save_if false change user = pure user

-- `user.check_password(raw)`; an unusable password matches nothing.
abbrev pub password_matches : Env → String → Option String → Bool
password_matches env raw none = false
password_matches env raw (some encoded) = env.check_password raw encoded

module _ (env : Env) where
  -- A new refresh token and `_token_response`.
  unfoldable pub sign_in : (status : ℕ) → User → Action Reply
  sign_in status user = do
    refresh ← create_refresh_token env user.id
    access ← create_access_token env user
    pure (Reply.token_pair status access refresh)

  unfoldable pub new_account : (email password full_name : String) → Action User
  new_account email password full_name =
      try_except (atomic (create_user env email full_name (some password) false)) on_clash

  abbrev pub register_unless :
      (registered : Bool) → (email password full_name : String) → Action Reply
  register_unless true email password full_name = raise email_exists
  register_unless false email password full_name = do
    user ← new_account email password full_name
    token ← create_one_time_token env TokenKind.email_verification user.id
    enqueue (Task.send_verification_email user.email token)
    sign_in 201 user

  unfoldable pub register_user : (email password full_name : String) → Action Reply
  register_user email password full_name = do
    registered ← email_is_registered env email
    register_unless registered email password full_name

  -- The save, where a column changes, and the tokens.
  unfoldable pub complete_verification : User → (encoded : Option String) → Action Reply
  complete_verification user encoded = do
    saved ← save_if (is_some encoded || not user.is_verified) (with_verification encoded) user
    sign_in 200 saved

  abbrev pub bind_unless_empty : (empty : Bool) → User → String → Action Reply
  bind_unless_empty true user raw = pure (Reply.message 400 "password_required")
  bind_unless_empty false user raw = do
    encoded ← encode env raw
    complete_verification user (some encoded)

  -- An account without a usable password needs one now.
  abbrev pub bind_password : (usable : Bool) → User → Option String → Action Reply
  bind_password true user password = complete_verification user none
  bind_password false user none = pure (Reply.message 400 "password_required")
  bind_password false user (some raw) = bind_unless_empty (str_eq raw "") user raw

  -- `VerifyEmailView`
  unfoldable pub verify_email : (token : String) → (password : Option String) → Action Reply
  verify_email token password = do
    user ← verify_one_time_token env TokenKind.email_verification token
    bind_password (is_some user.password) user password

  abbrev pub resend_to : Option User → Action (Unit {0})
  resend_to none = pure tt
  resend_to (some user) = do
    use_up TokenKind.email_verification user.id
    token ← create_one_time_token env TokenKind.email_verification user.id
    enqueue (Task.send_verification_email user.email token)

  -- `ResendVerificationView`
  unfoldable pub resend_verification : (email : String) → Action Reply
  resend_verification email = do
    user ←
        gets
          (λ db. first (λ u. has_email env email u && (u.is_active && not u.is_verified)) db.users)
    resend_to user
    pure (Reply.message 200 "verification_email_queued")

  abbrev pub if_email_verified : (verified : Bool) → User → Action Reply
  if_email_verified true user = sign_in 200 user
  if_email_verified false user = raise invalid_credentials

  abbrev pub if_account_active : (active : Bool) → User → Action Reply
  if_account_active true user = if_email_verified user.is_verified user
  if_account_active false user = raise account_deactivated

  abbrev pub log_in_as : Option User → Action Reply
  log_in_as none = raise invalid_credentials
  log_in_as (some user) = if_account_active user.is_active user

  -- `LoginView`, with Django's `authenticate` over the table of users.
  unfoldable pub log_in :
      (authenticate : List User → (email password : String) → Option User)
      → (email password : String) → Action Reply
  log_in authenticate email password = do
    user ← gets (λ db. authenticate db.users email password)
    log_in_as user

  -- `RefreshView`
  unfoldable pub refresh : (token : String) → Action Reply
  refresh token = do
    rotated ← rotate_refresh_token env token
    access ← create_access_token env rotated.0
    pure (Reply.token_pair 200 access rotated.1)

  -- `LogoutView`
  unfoldable pub log_out : (token : String) → Action Reply
  log_out token = do revoke_refresh_token env token; pure (Reply.message 204 "")

  abbrev pub send_reset_to : Option User → Action (Unit {0})
  send_reset_to none = pure tt
  send_reset_to (some user) = do
    token ← create_one_time_token env TokenKind.password_reset user.id
    enqueue (Task.send_password_reset_email user.email token)

  -- `ForgotPasswordView`
  unfoldable pub forgot_password : (email : String) → Action Reply
  forgot_password email = do
    user ← gets (λ db. first (λ u. has_email env email u && u.is_active) db.users)
    send_reset_to user
    pure (Reply.message 200 "reset_email_queued")

  -- The new password is stored, every session ends, and a new one begins.
  unfoldable pub set_new_password : (change : User → User) → User → Action Reply
  set_new_password change user = do
    saved ← save_changes change user
    revoke_all_refresh_tokens user.id
    sign_in 200 saved

  -- What follows the token; its use proves the mailbox, so that the user is verified too.
  unfoldable pub reset_to : (password : String) → User → Action Reply
  reset_to password user = do
    encoded ← encode env password
    t ← now
    set_new_password (λ u. record (with_password encoded t u) { is_verified = true }) user

  -- `ResetPasswordView`
  unfoldable pub reset_password : (token password : String) → Action Reply
  reset_password token password = do
    user ← verify_one_time_token env TokenKind.password_reset token
    reset_to password user

  abbrev pub change_if : (matches : Bool) → User → (password : String) → Action Reply
  change_if false user password = raise invalid_password
  change_if true user password = do
    encoded ← encode env password
    t ← now
    set_new_password (with_password encoded t) user

  -- `ChangePasswordView`, for the user of the request.
  unfoldable pub change_password : User → (current_password new_password : String) → Action Reply
  change_password user current_password new_password =
      change_if (password_matches env current_password user.password) user new_password
