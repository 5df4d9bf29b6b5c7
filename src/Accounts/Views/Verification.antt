-- ===== src/Accounts/Views/Verification.antt =====
-- A verification token is used up by its first use, whatever comes of it.
use saasmint_core.Base.{
  ℕ, Bool, true, false, Option, none, some, ◌≡◌, refl, sym, ap, ◌∙◌, String, str_eq, is_some, first,
}
use saasmint_core.Python.{AuthCode, Exn, Result, ok, err}
use saasmint_core.Domain.{User, TokenKind, OneTimeToken}
use saasmint_core.State.{Env, World, ◌>>=◌}
use saasmint_core.State.Rules.{Keeps, keeps}
use saasmint_core.Tokens.{fails, is_token, use_at, user_of, verify_one_time_token}
use saasmint_core.Tokens.OneTime.{consume_used}
use saasmint_core.Tokens.Verify.{verify-Verified}
use saasmint_core.Accounts.Users.{encode, save_changes}
use saasmint_core.Accounts.Views.{
  Reply, save_if, sign_in, complete_verification, bind_unless_empty, bind_password, verify_email,
}
use saasmint_core.Accounts.Views.SignIn.{sign_in-SignedIn}

-- The row that the digest finds.
record HasToken (kind : TokenKind) (h : String) (row : OneTimeToken) (w : World) : Type 0 where
  found : first (is_token kind h) w.db.one_time_tokens ≡ some row

module _ (env : Env) (kind : TokenKind) (h : String) (row : OneTimeToken) where
  sign_in-Keeps : (status : ℕ) (user : User) → Keeps (HasToken kind h row) (sign_in env status user)
  sign_in-Keeps status user = record {
    run = λ w k. record {
      found =
          ap (first (is_token kind h)) (sign_in-SignedIn env status user w).one_time_tokens
          ∙ k.found;
    };
  }

  encode-Keeps : (raw : String) → Keeps (HasToken kind h row) (encode env raw)
  unfolding encode
  encode-Keeps raw = record { run = λ w k. record { found = k.found } }

  save_if-Keeps :
      (changed : Bool) (change : User → User) (user : User)
      → Keeps (HasToken kind h row) (save_if changed change user)
  unfolding save_changes
  save_if-Keeps true change user = record { run = λ w k. record { found = k.found } }
  save_if-Keeps false change user = record { run = λ w k. k }

  complete-Keeps :
      (user : User) (encoded : Option String)
      → Keeps (HasToken kind h row) (complete_verification env user encoded)
  unfolding complete_verification
  complete-Keeps user encoded = search (keeps, save_if-Keeps, sign_in-Keeps)

  bind_unless_empty-Keeps :
      (empty : Bool) (user : User) (raw : String)
      → Keeps (HasToken kind h row) (bind_unless_empty env empty user raw)
  bind_unless_empty-Keeps true user raw = search keeps
  bind_unless_empty-Keeps false user raw = search (keeps, encode-Keeps, complete-Keeps)

  bind-Keeps :
      (usable : Bool) (user : User) (password : Option String)
      → Keeps (HasToken kind h row) (bind_password env usable user password)
  bind-Keeps true user password = complete-Keeps user none
  bind-Keeps false user none = search keeps
  bind-Keeps false user (some raw) = bind_unless_empty-Keeps (str_eq raw "") user raw

module _ (env : Env) (raw : String) (w : World) where
  abbrev after : Option String → Result User × World → Result Reply × World
  after password p =
      ((λ _. p) >>= (λ user. bind_password env (is_some user.password) user password)) w

  start : Result User × World
  start = verify_one_time_token env TokenKind.email_verification raw w

  -- A token that is used is refused, whatever comes with it.
  verify_used :
      (again : Option String) (row : OneTimeToken) (at : ℕ) (u : World)
      → first (is_token TokenKind.email_verification (env.sha256 raw)) u.db.one_time_tokens
        ≡ some (use_at at row)
      → verify_email env raw again u ≡ (err (fails AuthCode.token_used), u)
  unfolding verify_email verify_one_time_token
  verify_used again row at u found =
      ap (λ p. then_bind (((λ _. p) >>= (λ (r : OneTimeToken). user_of r.user_id)) u))
        (consume_used env TokenKind.email_verification raw row at u found)
    where
      then_bind : Result User × World → Result Reply × World
      then_bind p = ((λ _. p) >>= (λ user. bind_password env (is_some user.password) user again)) u

  -- A request that verifies an email and is answered, if only to ask for a password, has used the
  -- token up: every later request with the same token, with or without a password and whatever the
  -- clock reads by then, is refused as used and changes nothing.
  pub verification_uses_token :
      (password again : Option String) (reply : Reply) (later : ℕ)
      → (verify_email env raw password w).0 ≡ ok reply
      → let w' : World = record (verify_email env raw password w).1 { clock = later } in
        verify_email env raw again w' ≡ (err (fails AuthCode.token_used), w')
  unfolding verify_email start
  verification_uses_token password again reply later = go start.0 refl
    where
      no_return : {x : Exn} {A : Type 0} → err x ≡ ok reply → A
      no_return h = cc

      go :
          (r : Result User)
          → start.0 ≡ r
          → (verify_email env raw password w).0 ≡ ok reply
          → let w' : World = record (verify_email env raw password w).1 { clock = later } in
            verify_email env raw again w' ≡ (err (fails AuthCode.token_used), w')
      go (err x) e q = no_return (sym (ap (λ r. (after password (r, start.1)).0) e) ∙ q)
      go (ok user) e q =
          let v = verify-Verified env TokenKind.email_verification raw w user e in
          let whole = ap (after password) v.leaves in
          let kept =
            (bind-Keeps env TokenKind.email_verification (env.sha256 raw) (use_at w.clock v.row)
                (is_some user.password) user password).run
              _ (record { found = v.is_used }) in
          verify_used again v.row w.clock _ (
            ap
              (λ p.
                first (is_token TokenKind.email_verification (env.sha256 raw))
                  p.1.db.one_time_tokens)
              whole
            ∙ kept.found)
