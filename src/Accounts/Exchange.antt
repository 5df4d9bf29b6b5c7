-- ===== src/Accounts/Exchange.antt =====
-- The one-time code that swaps for a pair of tokens: `_store_oauth_exchange`,
-- `_consume_oauth_exchange` and `OAuthExchangeView` of apps/users/auth_views.py.
use saasmint_core.Base.{
  ℕ, ◌+◌, ltb, Bool, true, false, ◌&&◌, Option, none, some, List, [], ◌∷◌, ◌++◌, ◌≡◌, refl, sym, ap,
  subst, String, first, delete, is_some, first-append, first-delete, first-delete-none,
}
use saasmint_core.Python.{DateTime, Exn, Result, ok, err}
use saasmint_core.State.{
  Env, World, Action, CacheKey, CacheValue, CacheEntry, pure, raise, draw, ◌>>=◌, ◌>>◌,
}
use saasmint_core.Tokens.{seconds}
use saasmint_core.Accounts.Users.{has_key, cache_delete}
use saasmint_core.Accounts.Jwt.{cached, cache_set}
use saasmint_core.Accounts.Views.{Reply}

-- `_OAUTH_EXCHANGE_TTL`
abbrev pub oauth_exchange_ttl : DateTime
oauth_exchange_ttl = seconds 60

unfoldable pub store_oauth_exchange : Env → (access refresh : String) → Action String
store_oauth_exchange env access refresh = do
  n ← draw
  let code = env.token_urlsafe n
  cache_set (CacheKey.oauth_exchange code) (CacheValue.token_pair access refresh) oauth_exchange_ttl
  pure code

-- `cache.get(key)` of an entry for a code.
abbrev pub pair_of : Option CacheEntry → Option (String × String)
pair_of none = none
pair_of (some e) = elim e.value [ CacheValue.token_pair a r ↦ some (a, r) | _ ↦ none ]

-- Where the sentinel was there already, `cache.add` returns false.
abbrev pub unless_consumed : (consumed : Bool) → String → Action (Option (String × String))
unless_consumed true code = pure none
unless_consumed false code = do
  cache_set (CacheKey.oauth_consumed code) CacheValue.sentinel oauth_exchange_ttl
  pair ← λ w. (ok (pair_of (cached (CacheKey.oauth_exchange code) w)), w)
  cache_delete (CacheKey.oauth_exchange code)
  pure pair

unfoldable pub consume_oauth_exchange : String → Action (Option (String × String))
consume_oauth_exchange code w =
    unless_consumed (is_some (cached (CacheKey.oauth_consumed code) w)) code w

abbrev pub exchanged : Option (String × String) → Action Reply
exchanged none = raise (Exn.api_exception 400 "invalid_code")
exchanged (some (access, refresh)) = pure (Reply.token_pair 200 access refresh)

-- `OAuthExchangeView`
unfoldable pub oauth_exchange : String → Action Reply
oauth_exchange code = do pair ← consume_oauth_exchange code; exchanged pair

-- A code that is not in the cache any more, or is expired there, gives nothing.
consume_gone :
    (code : String) (w : World)
    → cached (CacheKey.oauth_exchange code) w ≡ none
    → (consume_oauth_exchange code w).0 ≡ ok none
unfolding consume_oauth_exchange
consume_gone code w gone = go (is_some (cached (CacheKey.oauth_consumed code) w))
  where
    is_it : CacheEntry → Bool
    is_it e = has_key (CacheKey.oauth_exchange code) e && ltb w.clock e.expires_at

    others : List CacheEntry
    others = delete (has_key (CacheKey.oauth_consumed code)) w.cache

    sentinel : CacheEntry
    sentinel = record {
      key = CacheKey.oauth_consumed code;
      value = CacheValue.sentinel;
      expires_at = w.clock + oauth_exchange_ttl;
    }

    still_gone : first is_it (others ++ sentinel ∷ []) ≡ none
    still_gone =
        first-append is_it others (sentinel ∷ [])
          (first-delete-none (has_key (CacheKey.oauth_consumed code)) is_it w.cache gone)

    go : (consumed : Bool) → (unless_consumed consumed code w).0 ≡ ok none
    go true = refl
    go false = ap (λ o. ok (pair_of o)) still_gone

-- What a consumption that gives a pair leaves.
consume-gone :
    (code : String) (w : World) (pair : String × String) (later : ℕ)
    → (consume_oauth_exchange code w).0 ≡ ok (some pair)
    → cached
        (CacheKey.oauth_exchange code)
        (record (consume_oauth_exchange code w).1 { clock = later })
      ≡ none
unfolding consume_oauth_exchange
consume-gone code w pair later = go (is_some (cached (CacheKey.oauth_consumed code) w))
  where
    go :
        (consumed : Bool)
        → (unless_consumed consumed code w).0 ≡ ok (some pair)
        → cached
            (CacheKey.oauth_exchange code)
            (record (unless_consumed consumed code w).1 { clock = later })
          ≡ none
    go true e = cc
    go false e =
        first-delete (has_key (CacheKey.oauth_exchange code)) (λ x. ltb later x.expires_at)
          (cache_set (CacheKey.oauth_consumed code) CacheValue.sentinel oauth_exchange_ttl
            w).1.cache

-- What the view does with the pair.
exchanged-some :
    (r : Result (Option (String × String))) (u : World) (reply : Reply)
    → (((λ _. (r, u)) >>= exchanged) u).0 ≡ ok reply
    → (pair : String × String) × (r ≡ ok (some pair))
exchanged-some (ok none) u reply e = cc
exchanged-some (ok (some pair)) u reply e = (pair, refl)
exchanged-some (err x) u reply e = cc

exchanged-none :
    (r : Result (Option (String × String))) (u : World)
    → r ≡ ok none
    → (((λ _. (r, u)) >>= exchanged) u).0 ≡ err (Exn.api_exception 400 "invalid_code")
exchanged-none (ok none) u e = refl
exchanged-none (ok (some pair)) u e = cc
exchanged-none (err x) u e = cc

exchanged-world :
    (r : Result (Option (String × String))) (u : World) → (((λ _. (r, u)) >>= exchanged) u).1 ≡ u
exchanged-world (ok none) u = refl
exchanged-world (ok (some pair)) u = refl
exchanged-world (err x) u = refl

-- A code that was exchanged for a pair of tokens is refused at every later attempt, whatever the
-- clock reads by then: also when the sentinel of the first exchange has expired.
pub exchange_once :
    (code : String) (w : World) (reply : Reply) (later : ℕ)
    → (oauth_exchange code w).0 ≡ ok reply
    → (oauth_exchange code (record (oauth_exchange code w).1 { clock = later })).0
      ≡ err (Exn.api_exception 400 "invalid_code")
unfolding oauth_exchange
exchange_once code w reply later returned =
    let p = consume_oauth_exchange code w in
    let (pair, e) = exchanged-some p.0 p.1 reply returned in
    exchanged-none _ _ (
      consume_gone code _ (
        subst (λ u. cached (CacheKey.oauth_exchange code) (record u { clock = later }) ≡ none)
          (sym (exchanged-world p.0 p.1)) (consume-gone code w pair later e)))
