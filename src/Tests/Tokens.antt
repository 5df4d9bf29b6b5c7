-- ===== src/Tests/Tokens.antt =====
-- The token theorems at a refresh token and a password reset token of one user.
use saasmint_core.Base.{ℕ, ltb, ◌≤◌, true, none, some, List, [], ◌∷◌, ◌≡◌, refl, count, arith}
use saasmint_core.Python.{AuthCode, ok, err}
use saasmint_core.Domain.{RefreshToken, OneTimeToken, TokenKind}
use saasmint_core.State.{World}
use saasmint_core.Tokens.{
  fails, is_live_of, use_at, claim, rotate_live, exchange, create_refresh_token,
  rotate_refresh_token, consume_one_time_token,
}
use saasmint_core.Tokens.Refresh.{rotate_once}
use saasmint_core.Tokens.OneTime.{claims, consume_once, race_one_winner}
use saasmint_core.Tokens.Cleanup.{delete_expired_rows}
use saasmint_core.Tokens.Cleanup.OneDelete.{cleanup_one_delete}
use saasmint_core.Tests.Data.{env, user, world}

rotated : (rotate_refresh_token env "old" world).0 ≡ ok (user, "raw40")
unfolding rotate_refresh_token rotate_live exchange create_refresh_token
rotated = refl

rotate_once_example :
    let (r', w') =
      rotate_refresh_token env "old"
        (record (rotate_refresh_token env "old" world).1 { clock = 600 }) in
    (r' ≡ err (fails AuthCode.token_revoked)) × (count (is_live_of 6) w'.db.refresh_tokens ≡ 0)
rotate_once_example = rotate_once env "old" world (user, "raw40") 600 rotated

abbrev used : OneTimeToken
used = record {
  kind = TokenKind.password_reset;
  id = 8;
  user_id = 6;
  token_hash = "digest of once";
  expires_at = 1000;
  used_at = some 500;
  link = none;
}

consumed : (consume_one_time_token env TokenKind.password_reset "once" world).0 ≡ ok used
unfolding consume_one_time_token claim
consumed = refl

consume_once_example :
    let w' : World = record (consume_one_time_token env TokenKind.password_reset "once" world).1 {
      clock = 501;
    } in
    (row : OneTimeToken) × (used ≡ use_at 500 row)
    × (row.used_at ≡ none)
    × (ltb 500 row.expires_at ≡ true)
    × (consume_one_time_token env TokenKind.password_reset "once" w'
        ≡ (err (fails AuthCode.token_used), w'))
consume_once_example = consume_once env TokenKind.password_reset "once" world used 501 consumed

race_one_winner_example :
    (n : ℕ) × ((claims TokenKind.password_reset "digest of once" (500 ∷ 499 ∷ 501 ∷ []) world).0
      ≡ ok n)
    × (n ≤ 1)
race_one_winner_example =
    race_one_winner TokenKind.password_reset "digest of once" (500 ∷ 499 ∷ 501 ∷ []) world
      (omega arith)

abbrev old_token : RefreshToken
old_token = record {
  id = 1;
  user_id = 6;
  token_hash = "digest";
  expires_at = 100;
  revoked_at = none;
}

-- Three expired tokens and a live one, in batches of two.
abbrev tokens : List RefreshToken
tokens =
    record old_token { id = 1 }
    ∷ record old_token { id = 2 }
    ∷ record old_token { id = 3; expires_at = 900 }
    ∷ record old_token { id = 4 }
    ∷ []

cleanup_one_delete_example :
    delete_expired_rows
      (λ _. true)
      (λ (t : RefreshToken). t.id)
      (λ (t : RefreshToken). t.expires_at)
      2
      500
      tokens
    ≡ some (3, record old_token { id = 3; expires_at = 900 } ∷ [])
cleanup_one_delete_example =
    cleanup_one_delete (λ _. true) (λ (t : RefreshToken). t.id) (λ (t : RefreshToken). t.expires_at)
      500 2 tokens (omega arith) ((λ h. refl), ((λ h. refl), ((λ h. refl), ((λ h. refl), tt))))
