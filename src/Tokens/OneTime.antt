-- ===== src/Tokens/OneTime.antt =====
-- One-time tokens: a token is consumed once.
use saasmint_core.Base.{
  ℕ, ◌==◌, leb, ltb, ◌+◌, ◌≤◌, ◌≡◌, refl, String, Bool, true, false, not, ◌&&◌, Option, none, some,
  List, [], ◌∷◌, arith, is_some, first, count, update, first-update_at, first-test,
}
use saasmint_core.Python.{AuthCode, ok, err, Result}
use saasmint_core.Domain.{User, OneTimeToken, TokenKind}
use saasmint_core.State.{Env, World, Action, pure, ◌>>=◌}
use saasmint_core.Tokens.{
  is_token, is_consumable, use_at, claim, fails, if_user_active, with_owner, if_claimed, if_usable,
  consume_found, consume_one_time_token,
}

-- What a consumption that returns has found and left.
pub record Consumed (kind : TokenKind) (h : String) (row : OneTimeToken) (w w' : World)
    (r : OneTimeToken) : Type 0 where
  pub was_found : first (is_token kind h) w.db.one_time_tokens ≡ some row
  pub left : w' ≡ (claim kind h w.clock w).1
  was_unused : row.used_at ≡ none
  was_valid : ltb w.clock row.expires_at ≡ true
  pub owner : User
  pub is_owner : first (λ (u : User). u.id == row.user_id) w.db.users ≡ some owner
  pub was_active : owner.is_active ≡ true
  pub is_used : first (is_token kind h) w'.db.one_time_tokens ≡ some (use_at w.clock row)
  pub returned : r ≡ use_at w.clock row

unused : (o : Option ℕ) → is_some o ≡ false → o ≡ none
unused none e = refl
unused (some t) e = cc

consume_found-Consumed :
    (kind : TokenKind) (h : String) (row : OneTimeToken) (w : World) (r : OneTimeToken)
    → first (is_token kind h) w.db.one_time_tokens ≡ some row
    → (consume_found kind h (some row) w).0 ≡ ok r
    → Consumed kind h row w (consume_found kind h (some row) w).1 r
unfolding claim
consume_found-Consumed kind h row w r found =
    go (is_some row.used_at) (leb row.expires_at w.clock) refl refl
  where
    u : World
    u = (claim kind h w.clock w).1

    is_used :
        row.used_at ≡ none
        → ltb w.clock row.expires_at ≡ true
        → first (is_token kind h) u.db.one_time_tokens ≡ some (use_at w.clock row)
    is_used unused valid =
        first-update_at (is_token kind h) (is_consumable kind h w.clock) (use_at w.clock)
          w.db.one_time_tokens (λ y. refl) found
          (ground (arith, first-test (is_token kind h) w.db.one_time_tokens {x = row}))

    with_active :
        (b : Bool) (user : User)
        → row.used_at ≡ none
        → ltb w.clock row.expires_at ≡ true
        → first (λ (x : User). x.id == row.user_id) w.db.users ≡ some user
        → user.is_active ≡ b
        → (if_user_active b row w.clock u).0 ≡ ok r
        → Consumed kind h row w (if_user_active b row w.clock u).1 r
    with_active true user unused valid e active q = record {
      was_found = found;
      left = refl;
      was_unused = unused;
      was_valid = valid;
      owner = user;
      is_owner = e;
      was_active = active;
      is_used = is_used unused valid;
      returned = cc;
    }
    with_active false user unused valid e active q = cc

    with_user :
        (o : Option User)
        → row.used_at ≡ none
        → ltb w.clock row.expires_at ≡ true
        → first (λ (x : User). x.id == row.user_id) w.db.users ≡ o
        → (with_owner row w.clock o u).0 ≡ ok r
        → Consumed kind h row w (with_owner row w.clock o u).1 r
    with_user none unused valid e q = cc
    with_user (some user) unused valid e q = with_active user.is_active user unused valid e refl q

    claimed :
        (lost : Bool)
        → row.used_at ≡ none
        → ltb w.clock row.expires_at ≡ true
        → (if_claimed lost row w.clock u).0 ≡ ok r
        → Consumed kind h row w (if_claimed lost row w.clock u).1 r
    claimed true unused valid q = cc
    claimed false unused valid q = with_user _ unused valid refl q

    go :
        (used expired : Bool)
        → is_some row.used_at ≡ used
        → leb row.expires_at w.clock ≡ expired
        → (if_usable used expired kind h row w).0 ≡ ok r
        → Consumed kind h row w (if_usable used expired kind h row w).1 r
    go true expired e e' q = cc
    go false true e e' q = cc
    go false false e e' q = claimed _ (unused row.used_at e) (ground arith) q

pub consume_used :
    (env : Env) (kind : TokenKind) (raw : String) (row : OneTimeToken) (at : ℕ) (w : World)
    → first (is_token kind (env.sha256 raw)) w.db.one_time_tokens ≡ some (use_at at row)
    → consume_one_time_token env kind raw w ≡ (err (fails AuthCode.token_used), w)
unfolding consume_one_time_token
consume_used env kind raw row at w found = rw found refl

pub consume-Consumed :
    (kind : TokenKind) (h : String) (o : Option OneTimeToken) (w : World) (r : OneTimeToken)
    → first (is_token kind h) w.db.one_time_tokens ≡ o
    → (consume_found kind h o w).0 ≡ ok r
    → (row : OneTimeToken) × Consumed kind h row w (consume_found kind h o w).1 r
consume-Consumed kind h none w r found returned = cc
consume-Consumed kind h (some row) w r found returned =
    (row, consume_found-Consumed kind h row w r found returned)

-- A consumption that returns has found, under the digest of the raw token, an unused row that
-- expires later than now, and has stamped it with the clock; every later attempt on the same raw
-- token, whatever the clock reads by then, is refused as used and changes nothing.
pub consume_once :
    (env : Env) (kind : TokenKind) (raw : String) (w : World) (r : OneTimeToken) (later : ℕ)
    → (consume_one_time_token env kind raw w).0 ≡ ok r
    → let w' : World = record (consume_one_time_token env kind raw w).1 { clock = later } in
      (row : OneTimeToken) × (r ≡ use_at w.clock row)
      × (row.used_at ≡ none)
      × (ltb w.clock row.expires_at ≡ true)
      × (consume_one_time_token env kind raw w' ≡ (err (fails AuthCode.token_used), w'))
unfolding consume_one_time_token
consume_once env kind raw w r later returned =
    let (row, done) =
      consume-Consumed kind (env.sha256 raw)
        (first (is_token kind (env.sha256 raw)) w.db.one_time_tokens) w r refl returned in
    (
      row,
      done.returned,
      done.was_unused,
      done.was_valid,
      consume_used env kind raw row w.clock _ done.is_used,
    )

-- The rows with a digest that are not used yet.
abbrev is_unused : TokenKind → String → OneTimeToken → Bool
is_unused kind h row = is_token kind h row && not (is_some row.used_at)

-- A conditional update uses up as many rows as it counts.
claim-count :
    (kind : TokenKind) (h : String) (t : ℕ) (rows : List OneTimeToken)
    → count (is_unused kind h) (update (is_consumable kind h t) (use_at t) rows)
        + count (is_consumable kind h t) rows
      ≡ count (is_unused kind h) rows
claim-count kind h t [] = omega arith
claim-count kind h t (row ∷ rows) = ground (arith, claim-count kind h t rows)

count-is_unused :
    (kind : TokenKind) (h : String) (rows : List OneTimeToken)
    → count (is_unused kind h) rows ≤ count (is_token kind h) rows
count-is_unused kind h [] = omega arith
count-is_unused kind h (row ∷ rows) = ground (arith, count-is_unused kind h rows)

-- The conditional updates of requests that race for one token, in the order in which the database
-- runs them, each with the moment that its request has read.
unfoldable pub claims : TokenKind → String → List ℕ → Action ℕ
claims kind h [] = pure 0
claims kind h (t ∷ ts) = do n ← claim kind h t; m ← claims kind h ts; pure (n + m)

plus-ok :
    (n : ℕ) {m : ℕ} (r : Result ℕ) (u : World)
    → r ≡ ok m
    → (((λ _. (r, u)) >>= (λ m. pure (n + m))) u).0 ≡ ok (n + m)
plus-ok n r u e = rw e refl

claims-count :
    (kind : TokenKind) (h : String) (ts : List ℕ) (w : World)
    → (n : ℕ) × ((claims kind h ts w).0 ≡ ok n)
      × (n ≤ count (is_unused kind h) w.db.one_time_tokens)
unfolding claim claims
claims-count kind h [] w = (0, refl, omega arith)
claims-count kind h (t ∷ ts) w =
    let (m, e, le) = claims-count kind h ts (claim kind h t w).1 in
    (
      count (is_consumable kind h t) w.db.one_time_tokens + m,
      plus-ok _ _ _ e,
      omega (arith, claim-count kind h t w.db.one_time_tokens),
    )

-- However many requests race for one token, with whatever moments they have read and in whatever
-- order the database runs their conditional updates, at most one update changes a row, where a
-- digest has at most one row.
pub race_one_winner :
    (kind : TokenKind) (h : String) (ts : List ℕ) (w : World)
    → count (is_token kind h) w.db.one_time_tokens ≤ 1
    → (n : ℕ) × ((claims kind h ts w).0 ≡ ok n) × (n ≤ 1)
race_one_winner kind h ts w one =
    let (n, e, le) = claims-count kind h ts w in
    (n, e, omega (arith, count-is_unused kind h w.db.one_time_tokens))
