-- ===== src/Tokens/Refresh.antt =====
-- Rotation of refresh tokens: a token rotates once, and its reuse revokes all.
use saasmint_core.Base.{
  ℕ, suc, ◌==◌, leb, ◌≡◌, refl, String, Bool, true, false, Option, none, some, arith, is_some,
  first, any, count, update, first-update_at, first-append_some, count-update_clears, first-test,
  ==_iff, ==_refl,
}
use saasmint_core.Python.{AuthCode, ok, err, Result}
use saasmint_core.Domain.{Uuid, User, RefreshToken}
use saasmint_core.State.{Env, World, pure, ◌>>=◌}
use saasmint_core.Tokens.{
  has_hash, is_live_of, revoke, fails, create_refresh_token, revoke_all_refresh_tokens,
  insert_refresh_token, if_active, rotate_for, unless_expired, unless_revoked, exchange,
  rotate_live, rotate_found, rotate_refresh_token,
}

-- After the revocation of all, the user has no live token.
pub revoke_all-count :
    (user : Uuid) (w : World)
    → count (is_live_of user) (revoke_all_refresh_tokens user w).1.db.refresh_tokens ≡ 0
unfolding revoke_all_refresh_tokens
revoke_all-count user w =
    count-update_clears (is_live_of user) (revoke w.clock) w.db.refresh_tokens
      (λ row h. ground arith)

-- A new token leaves the row that a digest finds.
create-first :
    (env : Env) (user : Uuid) (h : String) (w : World) {rt : RefreshToken}
    → first (has_hash h) w.db.refresh_tokens ≡ some rt
    → first (has_hash h) (create_refresh_token env user w).1.db.refresh_tokens ≡ some rt
unfolding create_refresh_token
create-first env user h w {rt} found = go (any (has_hash (env.sha256 raw)) w.db.refresh_tokens)
  where
    raw : String
    raw = env.token_urlsafe w.next_draw

    go :
        (clash : Bool)
        → first
            (has_hash h)
            (insert_refresh_token clash env user raw
              (record w { next_draw = suc w.next_draw })).1.db.refresh_tokens
          ≡ some rt
    go true = found
    go false = first-append_some (has_hash h) w.db.refresh_tokens _ found

-- What runs after an action that keeps the row, and does nothing but return.
then_pure-first :
    (h : String) (user : User) (o : Option RefreshToken) (r : Result String) (u : World)
    → first (has_hash h) u.db.refresh_tokens ≡ o
    → first
        (has_hash h)
        (((λ _. (r, u)) >>= (λ raw. pure {A = User × String} (user, raw))) u).1.db.refresh_tokens
      ≡ o
then_pure-first h user o (ok raw) u e = e
then_pure-first h user o (err x) u e = e

-- The row with a digest that an exchange leaves is the old row, revoked.
exchange-first :
    (env : Env) (rt : RefreshToken) (user : User) (h : String) (w : World)
    → first (has_hash h) w.db.refresh_tokens ≡ some rt
    → first (has_hash h) (exchange env rt user w).1.db.refresh_tokens ≡ some (revoke w.clock rt)
unfolding exchange
exchange-first env rt user h w found =
    then_pure-first h user (some (revoke w.clock rt)) (create_refresh_token env user.id u).0
      (create_refresh_token env user.id u).1
      (create-first env user.id h u (
        first-update_at (has_hash h) (λ row. row.id == rt.id) (revoke w.clock) w.db.refresh_tokens
          (λ y. refl) found (==_refl rt.id)))
  where
    u : World
    u = record w {
      db = record w.db {
        refresh_tokens = update (λ row. row.id == rt.id) (revoke w.clock) w.db.refresh_tokens;
      };
    }

then_pure-user :
    (user : User) (r : User × String) (u : World) (x : Result String)
    → (((λ _. (x, u)) >>= (λ raw. pure {A = User × String} (user, raw))) u).0 ≡ ok r
    → r.0 ≡ user
then_pure-user user r u (ok raw) e = cc
then_pure-user user r u (err x) e = cc

exchange-user :
    (env : Env) (rt : RefreshToken) (user : User) (w : World) (r : User × String)
    → (exchange env rt user w).0 ≡ ok r
    → r.0 ≡ user
unfolding exchange
exchange-user env rt user w r returned =
    let u : World = record w {
      db = record w.db {
        refresh_tokens = update (λ row. row.id == rt.id) (revoke w.clock) w.db.refresh_tokens;
      };
    } in
    then_pure-user user r (create_refresh_token env user.id u).1
      (create_refresh_token env user.id u).0 returned

-- What a rotation that returns has done to the row that it found.
record Rotated (h : String) (rt : RefreshToken) (w w' : World) (r : User × String) : Type 0 where
  is_revoked : first (has_hash h) w'.db.refresh_tokens ≡ some (revoke w.clock rt)
  is_owner : r.0.id ≡ rt.user_id

rotate_live-Rotated :
    (env : Env) (rt : RefreshToken) (h : String) (w : World) (r : User × String)
    → first (has_hash h) w.db.refresh_tokens ≡ some rt
    → (rotate_live env rt w).0 ≡ ok r
    → Rotated h rt w (rotate_live env rt w).1 r
unfolding rotate_live
rotate_live-Rotated env rt h w r found = with_expiry (leb rt.expires_at w.clock)
  where
    owner : Option User
    owner = first (λ (u : User). u.id == rt.user_id) w.db.users

    with_active :
        (b : Bool) (user : User)
        → user.id ≡ rt.user_id
        → (if_active b env rt user w).0 ≡ ok r
        → Rotated h rt w (if_active b env rt user w).1 r
    with_active true user e returned = record {
      is_revoked = exchange-first env rt user h w found;
      is_owner = rw (exchange-user env rt user w r returned) e;
    }
    with_active false user e returned = cc

    with_user :
        (o : Option User)
        → owner ≡ o
        → (rotate_for env rt o w).0 ≡ ok r
        → Rotated h rt w (rotate_for env rt o w).1 r
    with_user none e returned = cc
    with_user (some user) e returned =
        with_active user.is_active user
          ((==_iff user.id rt.user_id).0
            (first-test (λ (u : User). u.id == rt.user_id) w.db.users e))
          returned

    with_expiry :
        (b : Bool)
        → (unless_expired b env rt w).0 ≡ ok r
        → Rotated h rt w (unless_expired b env rt w).1 r
    with_expiry true returned = cc
    with_expiry false returned = with_user owner refl returned

rotate_found-Rotated :
    (env : Env) (o : Option RefreshToken) (h : String) (w : World) (r : User × String)
    → first (has_hash h) w.db.refresh_tokens ≡ o
    → (rotate_found env o w).0 ≡ ok r
    → (rt : RefreshToken) × Rotated h rt w (rotate_found env o w).1 r
unfolding revoke_all_refresh_tokens
rotate_found-Rotated env none h w r found returned = cc
rotate_found-Rotated env (some rt) h w r found returned = go (is_some rt.revoked_at) returned
  where
    go :
        (b : Bool)
        → (unless_revoked b env rt w).0 ≡ ok r
        → (x : RefreshToken) × Rotated h x w (unless_revoked b env rt w).1 r
    go true e = cc
    go false e = (rt, rotate_live-Rotated env rt h w r found e)

-- A revoked row that is presented again.
rotate_revoked :
    (env : Env) (raw : String) (user : Uuid) (rt : RefreshToken) (at : ℕ) (w : World)
    → first (has_hash (env.sha256 raw)) w.db.refresh_tokens ≡ some (revoke at rt)
    → user ≡ rt.user_id
    → ((rotate_refresh_token env raw w).0 ≡ err (fails AuthCode.token_revoked))
      × (count (is_live_of user) (rotate_refresh_token env raw w).1.db.refresh_tokens ≡ 0)
unfolding rotate_refresh_token revoke_all_refresh_tokens
rotate_revoked env raw user rt at w found owner =
    rw (found, owner) (refl, revoke_all-count rt.user_id w)

-- After a rotation that returned a user, the same raw token is refused as revoked, whatever the
-- clock reads by then, and the attempt leaves that user without a live refresh token.
pub rotate_once :
    (env : Env) (raw : String) (w : World) (r : User × String) (later : ℕ)
    → (rotate_refresh_token env raw w).0 ≡ ok r
    → let (r', w') =
        rotate_refresh_token env raw
          (record (rotate_refresh_token env raw w).1 { clock = later }) in
      (r' ≡ err (fails AuthCode.token_revoked))
      × (count (is_live_of r.0.id) w'.db.refresh_tokens ≡ 0)
unfolding rotate_refresh_token
rotate_once env raw w r later returned =
    let (rt, done) =
      rotate_found-Rotated env (first (has_hash (env.sha256 raw)) w.db.refresh_tokens)
        (env.sha256 raw) w r refl returned in
    rotate_revoked env raw r.0.id rt w.clock _ done.is_revoked done.is_owner
