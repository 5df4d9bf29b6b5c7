-- ===== src/State.antt =====
-- The state that the operations share, what they take from outside the repository, and the monad
-- in which they are written: state and exceptions, where what was written stays written after a
-- raise unless the operation runs in a transaction.
pub mod Rules
pub mod Ends
pub mod Finds
use saasmint_core.Base.{
  ℕ, suc, String, Bool, Option, none, some, List, [], ◌∷◌, ◌++◌, if◌then◌else◌,
}
use saasmint_core.Python.{DateTime, Json, Exn, Result, ok, err}
use saasmint_core.Domain.{
  Uuid, Subscription, Plan, PlanPrice, ProductPrice, LocalizedPrice, StripeCustomer, Product,
  CreditTransaction, CreditBalance, Org, OrgMember, Invitation, User, SocialAccount, RefreshToken,
  OneTimeToken,
}

-- A row of `stripe_events`.
pub record StripeEvent : Type 0 where
  pub id : Uuid
  pub stripe_id : String
  pub type : String
  pub livemode : Bool
  pub payload : Json
  pub processed_at : Option DateTime
  pub error : Option String

-- The database.
pub record Db : Type 0 where
  pub customers : List StripeCustomer
  pub subscriptions : List Subscription
  pub plans : List Plan
  pub plan_prices : List PlanPrice
  pub product_prices : List ProductPrice
  pub localized_prices : List LocalizedPrice
  pub events : List StripeEvent
  pub products : List Product
  pub credit_transactions : List CreditTransaction
  pub credit_balances : List CreditBalance
  pub orgs : List Org
  pub members : List OrgMember
  pub invitations : List Invitation
  pub users : List User
  pub social_accounts : List SocialAccount
  pub refresh_tokens : List RefreshToken
  pub one_time_tokens : List OneTimeToken

-- One request to Stripe.
pub data StripeCall : Type 0 where
  subscription_retrieve : (id : String) → StripeCall
  subscription_modify_cancel_at : (id cancel_at : String) → StripeCall
  subscription_modify_item : (id : String) (item : Json) (proration : String) → StripeCall
  subscription_cancel : (id : String) (prorate : Option Bool) → StripeCall
  schedule_retrieve schedule_release : (id : String) → StripeCall
  schedule_create : (from_subscription : String) → StripeCall
  schedule_modify : (id : String) (phases : Json) → StripeCall
  price_retrieve : (id : String) → StripeCall
  customer_create :
      (email : String) (name : Option String) (locale : String) (metadata : Json) → StripeCall
  customer_delete : (id : String) → StripeCall
  checkout_session_create portal_session_create : (params : Json) → StripeCall

-- The keys of the cache: `auth_user:…`, `oauth_exchange:…` and `oauth_exchange:…:consumed`.
pub data CacheKey : Type 0 where
  auth_user : Uuid → CacheKey
  oauth_exchange oauth_consumed : (code : String) → CacheKey

pub data CacheValue : Type 0 where
  user : User → CacheValue
  token_pair : (access refresh : String) → CacheValue
  sentinel : CacheValue

pub record CacheEntry : Type 0 where
  pub key : CacheKey
  pub value : CacheValue
  pub expires_at : DateTime

-- How `jwt.decode` ends.
pub data Decoded : Type 0 where
  claims : Json → Decoded
  expired_signature invalid_token : Decoded

-- A Celery message.
pub data Task : Type 0 where
  process_stripe_webhook : (event : Uuid) → Task
  cancel_stripe_subs : (ids : List String) (label : String) → Task
  delete_org_on_cancel : (org : Uuid) → Task
  send_verification_email send_password_reset_email : (email token : String) → Task
  send_invitation_email : (email token org_name inviter_name : String) → Task
  send_social_link_email : (email token provider : String) → Task
  send_cancel_notice : (recipients : List String) (plan_name action : String) → Task

pub record World : Type 0 where
  pub db : Db
  -- what `datetime.now(UTC)` reads; it stands still within one operation
  pub clock : DateTime
  -- the next draw of `uuid4` and of `secrets`
  pub next_draw : ℕ
  pub stripe_calls : List StripeCall
  pub queue : List Task
  pub cache : List CacheEntry

-- What the operations call and the repository does not contain: Stripe, which answers by the
-- requests made so far, and functions of the platform.
pub record Env : Type 0 where
  pub respond : List StripeCall → StripeCall → Result Json
  -- `UUID(text)`; `none` is its `ValueError`
  pub parse_uuid : String → Option Uuid
  -- `str(uuid)`
  pub uuid_text : Uuid → String
  -- `int(text)`; `none` is its `ValueError`
  pub parse_int : String → Option ℕ
  -- `text.lower()`
  pub lower : String → String
  -- `str(v)` of a value that is not a text
  pub repr : Json → String
  -- the text stored for a transient or unexpected exception
  pub message : Exn → String
  -- the SHA-256 digest in hexadecimal
  pub sha256 : String → String
  -- the text of a draw of `secrets.token_urlsafe`
  pub token_urlsafe : ℕ → String
  -- Django's `normalize_email`
  pub normalize_email : String → String
  -- Django's `make_password`, with a salt from a draw, and `check_password`
  pub make_password : (salt : ℕ) → (raw : String) → String
  pub check_password : (raw encoded : String) → Bool
  -- `jwt.encode`, and `jwt.decode` at a time, with the signing key of the settings
  pub jwt_encode : Json → String
  pub jwt_decode : DateTime → String → Decoded

abbrev pub Action : Type 0 → Type 0
Action A = World → Result A × World

module _ {A : Type 0} where
  abbrev pub pure : A → Action A
  pure a w = (ok a, w)

  abbrev pub raise : Exn → Action A
  raise e w = (err e, w)

  abbrev pub gets : (Db → A) → Action A
  gets f w = (ok (f w.db), w)

  abbrev pub lift : Result A → Action A
  lift r w = (r, w)

  -- The value of an `Option`, or an exception.
  abbrev pub some_or_raise : Option A → Exn → Action A
  some_or_raise none e = raise e
  some_or_raise (some a) e = pure a

  -- `with transaction.atomic():` undoes the writes, and the messages held for the commit, when
  -- the block raises.
  abbrev pub atomic : Action A → Action A
  atomic m w =
      let (r, w') = m w in
      elim r [ ok a ↦ (ok a, w') | err e ↦ (err e, record w' { db = w.db; queue = w.queue }) ]

  -- `try: m  except e: handler(e)`
  abbrev pub try_except : Action A → (Exn → Action A) → Action A
  try_except m handler w = let (r, w') = m w in elim r [ ok a ↦ (ok a, w') | err e ↦ handler e w' ]

infixl 5 ◌>>=◌ ◌>>◌
abbrev pub ◌>>=◌ : {A B : Type 0} → Action A → (A → Action B) → Action B
◌>>=◌ m f w = let (r, w') = m w in elim r [ ok a ↦ f a w' | err e ↦ (err e, w') ]

abbrev pub ◌>>◌ : {A B : Type 0} → Action A → Action B → Action B
m >> k = m >>= λ _. k

abbrev pub raise_if : Bool → Exn → Action (Unit {0})
raise_if b e = if b then raise e else pure tt

abbrev pub modify : (Db → Db) → Action (Unit {0})
modify f w = (ok tt, record w { db = f w.db })

abbrev pub now : Action DateTime
now w = (ok w.clock, w)

-- A fresh draw of `uuid4`, or of `secrets`.
abbrev pub draw : Action ℕ
draw w = (ok w.next_draw, record w { next_draw = suc w.next_draw })

abbrev pub enqueue : Task → Action (Unit {0})
enqueue t w = (ok tt, record w { queue = w.queue ++ t ∷ [] })

-- A request to Stripe is on record whether or not it succeeds.
abbrev pub request : Env → StripeCall → Action Json
request env c w =
    (env.respond w.stripe_calls c, record w { stripe_calls = w.stripe_calls ++ c ∷ [] })
