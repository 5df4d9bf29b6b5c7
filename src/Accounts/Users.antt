-- ===== src/Accounts/Users.antt =====
-- The rows of users: `UserManager.create_user` of apps/users/managers.py, `email_is_registered` of
-- apps/users/services.py, and a save with the signal of apps/users/models.py that follows it.
use saasmint_core.Base.{
  ◌==◌, Bool, true, false, Option, none, some, [], ◌∷◌, ◌++◌, String, str_eq, any, update, delete,
}
use saasmint_core.Python.{Exn, ok}
use saasmint_core.Domain.{Uuid, User}
use saasmint_core.State.{
  Env, Action, CacheKey, CacheEntry, pure, raise, gets, modify, draw, ◌>>=◌, ◌>>◌,
}

abbrev pub has_id : Uuid → User → Bool
has_id i u = u.id == i

-- The columns that a caller of `create_user` gives.
abbrev pub new_user :
    Uuid → (email full_name : String) → (password : Option String) → (is_verified : Bool) → User
new_user i email full_name password is_verified = record {
  id = i;
  email = email;
  full_name = full_name;
  password = password;
  is_verified = is_verified;
  is_active = true;
  password_changed_at = none;
  preferred_locale = "en";
  preferred_currency = "usd";
}

-- The email breaks the unique indexes on `email` and on its lower case.
abbrev pub insert_user : (taken : Bool) → User → Action User
insert_user true user = raise Exn.integrity_error
insert_user false user = do modify λ db. record db { users = db.users ++ user ∷ [] }; pure user

abbrev pub same_key : CacheKey → CacheKey → Bool
same_key (CacheKey.auth_user i) (CacheKey.auth_user j) = i == j
same_key (CacheKey.oauth_exchange c) (CacheKey.oauth_exchange d) = str_eq c d
same_key (CacheKey.oauth_consumed c) (CacheKey.oauth_consumed d) = str_eq c d
same_key _ _ = false

abbrev pub has_key : CacheKey → CacheEntry → Bool
has_key k e = same_key e.key k

-- `cache.delete(key)`
abbrev pub cache_delete : CacheKey → Action (Unit {0})
cache_delete k w = (ok tt, record w { cache = delete (has_key k) w.cache })

-- `user.save(update_fields=…)` of a change to a user that was read, and the signal
-- `_invalidate_auth_user_cache`, which drops the cached copy.
unfoldable pub save_changes : (User → User) → User → Action User
save_changes change user = do
  modify λ db. record db { users = update (has_id user.id) change db.users }
  cache_delete (CacheKey.auth_user user.id)
  pure (change user)

module _ (env : Env) where
  -- `email__iexact`
  abbrev pub has_email : String → User → Bool
  has_email email u = str_eq (env.lower u.email) (env.lower email)

  unfoldable pub email_is_registered : String → Action Bool
  email_is_registered email = gets (λ db. any (has_email email) db.users)

  -- `user.set_password(raw)`
  unfoldable pub encode : String → Action String
  encode raw = do salt ← draw; pure (env.make_password salt raw)

  -- `set_password` where a password is given, else `set_unusable_password`.
  abbrev pub encode_unless : (absent : Bool) → String → Action (Option String)
  encode_unless true raw = pure none
  encode_unless false raw = do encoded ← encode raw; pure (some encoded)

  abbrev pub encode_if_given : Option String → Action (Option String)
  encode_if_given none = pure none
  encode_if_given (some raw) = encode_unless (str_eq raw "") raw

  abbrev pub save_user :
      (is_empty : Bool)
      → (email full_name : String) → (password : Option String) → (is_verified : Bool) → Action User
  save_user true email full_name password is_verified = raise Exn.value_error
  save_user false email full_name password is_verified = do
    i ← draw
    encoded ← encode_if_given password
    taken ← gets (λ db. any (has_email (env.normalize_email email)) db.users)
    insert_user taken (new_user i (env.normalize_email email) full_name encoded is_verified)

  -- `User.objects.create_user(email=…, password=…, full_name=…, is_verified=…)`
  unfoldable pub create_user :
      (email full_name : String) → (password : Option String) → (is_verified : Bool) → Action User
  create_user email full_name password is_verified =
      save_user (str_eq email "") email full_name password is_verified
