-- ===== src/Accounts/Views/Reset.antt =====
-- A password reset ends the sessions that were there before it.
use Prim.Native.String
use saasmint_core.Base.{
  ℕ, suc, ◌*◌, ◌+◌, ◌<◌, ◌≤◌, ltb, Bool, true, ◌&&◌, none, some, ◌≡◌, refl, sym, ap, subst, ◌∙◌,
  String, first, count, update, delete, ==_iff, ==_refl, first-test, first-update_at, first_and,
  first-delete,
}
use saasmint_core.Python.{AuthCode, Exn, Result, ok, err}
use saasmint_core.Domain.{Uuid, User, TokenKind, OneTimeToken}
use saasmint_core.State.{Env, World, CacheKey, ◌>>=◌}
use saasmint_core.Tokens.{fails, is_token, is_live_of, claim, verify_one_time_token}
use saasmint_core.Tokens.Verify.{Verified, verify-Verified}
use saasmint_core.Accounts.Users.{has_id, has_key, encode}
use saasmint_core.Accounts.Claims.{access_claims, access_token_lifetime, timestamp, pwd_iat}
use saasmint_core.Accounts.Jwt.{cached, cached_user, authenticate}
use saasmint_core.Accounts.Jwt.Sessions.{IsDecoded, Finds, outdated_refused}
use saasmint_core.Accounts.Views.{Reply, with_password, reset_to, reset_password}
use saasmint_core.Accounts.Views.SignIn.{set_new_password-NewPassword}

-- What a reset that returns has found and left.
pub record HasReset (env : Env) (raw : String) (w w' : World) : Type 0 where
  pub user : User
  pub row : OneTimeToken
  pub was_found :
      first (is_token TokenKind.password_reset (env.sha256 raw)) w.db.one_time_tokens ≡ some row
  pub is_owner : first (has_id row.user_id) w.db.users ≡ some user
  pub was_active : user.is_active ≡ true
  pub encoded : String
  pub users :
      w'.db.users
      ≡ update
          (has_id user.id)
          (λ u. record (with_password encoded w.clock u) { is_verified = true })
          w.db.users
  pub cache : w'.cache ≡ delete (has_key (CacheKey.auth_user user.id)) w.cache
  pub one_live : count (is_live_of user.id) w'.db.refresh_tokens ≡ 1

-- The user of a reset is the user of the row that the token finds.
reset_user-id :
    {env : Env} {raw : String} {w : World} (w' : World) (done : HasReset env raw w w')
    (row : OneTimeToken)
    → first (is_token TokenKind.password_reset (env.sha256 raw)) w.db.one_time_tokens ≡ some row
    → done.user.id ≡ row.user_id
reset_user-id {w} w' done row found =
    (==_iff done.user.id done.row.user_id).0
      (first-test (has_id done.row.user_id) w.db.users done.is_owner)
    ∙ ap (λ (r : OneTimeToken). r.user_id) (some_inj (sym done.was_found ∙ found))
  where
    some_inj : {a b : OneTimeToken} → some a ≡ some b → a ≡ b
    some_inj h = cc

-- The state after a reset finds the user, as changed, in the table.
reset-Finds :
    {env : Env} {raw : String} {w : World} (w' : World) (done : HasReset env raw w w') (later : ℕ)
    → Finds done.user.id
        (record (with_password done.encoded w.clock done.user) { is_verified = true })
        (record w' { clock = later })
reset-Finds {w} w' done later = Finds.in_table no_copy (ap (first is_it) done.users ∙ changed)
  where
    i : Uuid
    i = done.user.id

    is_it : User → Bool
    is_it u = has_id i u && u.is_active

    no_copy : cached_user (cached (CacheKey.auth_user i) (record w' { clock = later })) ≡ none
    no_copy = ap cached_user (
        ap (first (λ e. has_key (CacheKey.auth_user i) e && ltb later e.expires_at)) done.cache
        ∙ first-delete (has_key (CacheKey.auth_user i)) (λ e. ltb later e.expires_at) w.cache)

    is_owner : first (has_id i) w.db.users ≡ some done.user
    is_owner =
        subst (λ j. first (has_id j) w.db.users ≡ some done.user)
          (sym (reset_user-id w' done done.row done.was_found)) done.is_owner

    changed :
        first is_it (
          update
            (has_id i)
            (λ u. record (with_password done.encoded w.clock u) { is_verified = true })
            w.db.users)
        ≡ some (record (with_password done.encoded w.clock done.user) { is_verified = true })
    changed =
        first-update_at is_it (has_id i)
          (λ u. record (with_password done.encoded w.clock u) { is_verified = true }) w.db.users
          (λ y. refl) (first_and (has_id i) (λ u. u.is_active) w.db.users is_owner done.was_active)
          (==_refl i)

module _ (env : Env) (raw password : String) (w : World) (reply : Reply) where
  abbrev after : Result User × World → Result Reply × World
  after p = ((λ _. p) >>= reset_to env password) w

  claimed : World
  claimed = (claim TokenKind.password_reset (env.sha256 raw) w.clock w).1

  reset_to-HasReset :
      (user : User)
      → Verified env TokenKind.password_reset raw w user
      → (reset_to env password user claimed).0 ≡ ok reply
      → HasReset env raw w (reset_to env password user claimed).1
  unfolding reset_to encode claim claimed
  reset_to-HasReset user v q =
      let encoded = env.make_password claimed.next_draw password in
      let done =
        set_new_password-NewPassword env
          (λ u. record (with_password encoded w.clock u) { is_verified = true }) user
          (record claimed { next_draw = suc claimed.next_draw }) refl in
      record {
        user = user;
        row = v.row;
        was_found = v.was_found;
        is_owner = v.is_owner;
        was_active = v.was_active;
        encoded = encoded;
        users = done.users;
        cache = done.cache;
        one_live = done.one_live reply q;
      }

  reset-HasReset :
      (reset_password env raw password w).0 ≡ ok reply
      → HasReset env raw w (reset_password env raw password w).1
  unfolding reset_password claimed
  reset-HasReset = go (verify_one_time_token env TokenKind.password_reset raw w).0 refl
    where
      start : Result User × World
      start = verify_one_time_token env TokenKind.password_reset raw w

      no_return : {x : Exn} {A : Type 0} → err x ≡ ok reply → A
      no_return h = cc

      go :
          (r : Result User)
          → (verify_one_time_token env TokenKind.password_reset raw w).0 ≡ r
          → (reset_password env raw password w).0 ≡ ok reply
          → HasReset env raw w (reset_password env raw password w).1
      go (err x) e q = no_return (sym (ap (λ r. (after (r, start.1)).0) e) ∙ q)
      go (ok user) e q =
          let v = verify-Verified env TokenKind.password_reset raw w user e in
          let whole = ap after v.leaves in
          subst (HasReset env raw w) (sym (ap (λ p. p.1) whole))
            (reset_to-HasReset user v (sym (ap (λ p. p.0) whole) ∙ q))

  -- After a reset that returned, the user of the token has exactly one live refresh token, the new
  -- one.
  pub reset_one_session :
      (user : User)
      → (reset_password env raw password w).0 ≡ ok reply
      → (row : OneTimeToken)
      → first (is_token TokenKind.password_reset (env.sha256 raw)) w.db.one_time_tokens ≡ some row
      → row.user_id ≡ user.id
      → count (is_live_of user.id) (reset_password env raw password w).1.db.refresh_tokens ≡ 1
  reset_one_session user returned row found owner =
      let done = reset-HasReset returned in
      subst (λ i. count (is_live_of i) (reset_password env raw password w).1.db.refresh_tokens ≡ 1)
        (reset_user-id (reset_password env raw password w).1 done row found ∙ owner) done.one_live

  -- After a reset that returned, an access token that was issued before to the user of the reset
  -- token, and carries an earlier second than that of the reset, is refused as revoked at every
  -- later time at which it has not expired, where PyJWT decodes what it encoded.
  pub reset_revokes_access :
      (holder : User) (at later : ℕ)
      → (reset_password env raw password w).0 ≡ ok reply
      → (row : OneTimeToken)
      → first (is_token TokenKind.password_reset (env.sha256 raw)) w.db.one_time_tokens ≡ some row
      → row.user_id ≡ holder.id
      → pwd_iat holder.password_changed_at < timestamp w.clock
      → IsDecoded env holder at
      → timestamp at * 1000000 ≤ later
      → later < timestamp (at + access_token_lifetime) * 1000000
      → (authenticate env
          (String.◌++◌ "Bearer " (env.jwt_encode (access_claims env at holder)))
          (record (reset_password env raw password w).1 { clock = later })).0
        ≡ err (fails AuthCode.token_revoked)
  reset_revokes_access holder at later returned row found owner earlier law started lasts =
      let w' : World = (reset_password env raw password w).1 in
      let done = reset-HasReset returned in
      let same = reset_user-id w' done row found ∙ owner in
      outdated_refused env holder
        (record (with_password done.encoded w.clock done.user) { is_verified = true }) at law
        (record w' { clock = later }) started lasts
        (subst
          (λ i.
            Finds i (record (with_password done.encoded w.clock done.user) { is_verified = true })
              (record w' { clock = later }))
          same (reset-Finds w' done later))
        earlier
