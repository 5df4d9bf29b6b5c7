-- ===== src/Accounts/OAuth/Linking.antt =====
-- When a provider's account is linked to a user.
use saasmint_core.Base.{
  Bool, true, false, ◌&&◌, Option, none, some, ◌≡◌, refl, subst, String, first,
}
use saasmint_core.Python.{ok}
use saasmint_core.Domain.{User}
use saasmint_core.State.{Env, World}
use saasmint_core.Accounts.Users.{has_email}
use saasmint_core.Accounts.Providers.{UserInfo}
use saasmint_core.Accounts.OAuth.{
  Resolution, is_trusted, identity_of, has_identity, link_if, link_or_request, sign_up_if,
  resolve_by_email, resolve_account, resolve_oauth_user,
}

module _ (env : Env) (provider : String) (info : UserInfo) (u : User) where
  proven : Bool
  proven = info.email_verified && is_trusted provider

  -- A link, or nothing to sign in with.
  link_or_request-proven :
      (existing : User) (w : World)
      → (link_or_request provider info existing w).0 ≡ ok (Resolution.resolved u)
      → proven ≡ true
  unfolding link_or_request proven
  link_or_request-proven existing w = go proven
    where
      go :
          (b : Bool)
          → (link_if b (identity_of provider info) existing w).0 ≡ ok (Resolution.resolved u)
          → b ≡ true
      go true e = refl
      go false e = cc

  verified : proven ≡ true → info.email_verified ≡ true
  unfolding proven
  verified = first_of info.email_verified (is_trusted provider)
    where
      first_of : (a b : Bool) → (a && b) ≡ true → a ≡ true
      first_of true b e = refl
      first_of false b e = e

  -- Where no user is linked to the provider's account, a resolution that signs someone in, whether
  -- it links a user or makes one, is of an email that the provider has verified.
  pub sign_in_verified :
      (w : World)
      → first (has_identity (identity_of provider info)) w.db.social_accounts ≡ none
      → (resolve_oauth_user env provider info w).0 ≡ ok (Resolution.resolved u)
      → info.email_verified ≡ true
  unfolding resolve_oauth_user
  sign_in_verified w unlinked returned =
      go (first (has_email env info.email) w.db.users) (by_email returned)
    where
      by_email :
          (resolve_oauth_user env provider info w).0 ≡ ok (Resolution.resolved u)
          → (resolve_account env none provider info w).0 ≡ ok (Resolution.resolved u)
      by_email =
          subst (λ o. (resolve_account env o provider info w).0 ≡ ok (Resolution.resolved u))
            unlinked

      by_verified :
          (b : Bool)
          → info.email_verified ≡ b
          → (sign_up_if env b provider info w).0 ≡ ok (Resolution.resolved u)
          → info.email_verified ≡ true
      by_verified true same e = same
      by_verified false same e = cc

      go :
          (o : Option User)
          → (resolve_by_email env o provider info w).0 ≡ ok (Resolution.resolved u)
          → info.email_verified ≡ true
      go (some existing) e = verified (link_or_request-proven existing w e)
      go none e = by_verified info.email_verified refl e
