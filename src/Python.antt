-- ===== src/Python.antt =====
-- The dynamic values of the program: a decoded JSON value, or an object of the Stripe SDK, with
-- the ways in which the code reads one and the exceptions that these raise. Numbers are
-- non-negative integers, as Stripe's timestamps, quantities and amounts are.
use Prim.Native.String
use saasmint_core.Base.{
  ◌≡◌, refl, ap, ◌⊎◌, inl, inr, ℕ, zero, suc, ◌*◌, String, Bool, true, false, not, Option, none,
  some, leb, ◌==◌, str_eq, if◌then◌else◌,
}

-- A moment, in microseconds since the epoch.
abbrev pub DateTime : Type 0
DateTime = ℕ

-- The codes that an authentication failure carries.
pub data AuthCode : Type 0 where
  invalid_token token_used token_revoked token_expired user_not_found : AuthCode

-- The exceptions that the modelled code raises or handles.
pub data Exn : Type 0 where
  key_error type_error attribute_error index_error value_error : Exn
  integrity_error does_not_exist multiple_objects : Exn
  webhook_data_error : (message : String) → Exn
  subscription_not_found user_not_found org_not_found insufficient_permission seat_cap_reached : Exn
  invalid_request : (code : String) → Exn
  stripe_error connection_error operational_error : Exn
  auth_failed : AuthCode → Exn
  oauth_error email_not_verified seats_below_member_count : Exn
  -- an `APIException` of a view, with its status and its code
  api_exception : (status : ℕ) → (code : String) → Exn

pub data Result (A : Type 0) : Type 0 where
  ok : A → Result A
  err : Exn → Result A

pub Result-cases : {A : Type 0} (r : Result A) → ((a : A) × (r ≡ ok a)) ⊎ ((e : Exn) × (r ≡ err e))
Result-cases (ok a) = inl (a, refl)
Result-cases (err e) = inr (e, refl)

abbrev value_or : {A : Type 0} → A → Result A → A
value_or d (ok a) = a
value_or d (err e) = d

pub ok-same : {A : Type 0} {a b : A} → ◌≡◌ {A = Result A} (ok a) (ok b) → a ≡ b
ok-same {a} e = ap (value_or a) e

infixl 5 ◌>>=◌ ◌>>◌
abbrev pub ◌>>=◌ : {A B : Type 0} → Result A → (A → Result B) → Result B
ok a >>= f = f a
err e >>= f = err e

abbrev pub ◌>>◌ : {A B : Type 0} → Result A → Result B → Result B
m >> k = m >>= λ _. k

module _ {A B : Type 0} where
  -- A block that returns has a first step that returns.
  pub >>=-ok :
      {C : Type 0} (m : Result A) (f : A → Result B) {b : B}
      → (m >>= f) ≡ ok b
      → ((a : A) → m ≡ ok a → f a ≡ ok b → C)
      → C
  >>=-ok (ok a) f e k = k a refl e
  >>=-ok (err x) f e k = absurd (cc)

  -- After a step that returns, a block is the rest of it.
  pub >>=-after : {m : Result A} (f : A → Result B) {a : A} → m ≡ ok a → (m >>= f) ≡ f a
  >>=-after f e = λ i. e i >>= f

abbrev pub raise_if : Bool → Exn → Result (Unit {0})
raise_if b e = if b then err e else ok tt

mutual
  pub data Json : Type 0 where
    null : Json
    bool : Bool → Json
    int : ℕ → Json
    str : String → Json
    arr : Items → Json
    obj : Fields → Json

  pub data Items : Type 0 where
    nil : Items
    cons : Json → Items → Items

  pub data Fields : Type 0 where
    end : Fields
    field : String → Json → Fields → Fields

-- The value under a key.
unfoldable pub lookup : String → Fields → Option Json
lookup k Fields.end = none
lookup k (Fields.field j v fs) = if str_eq j k then some v else lookup k fs

-- `e` where the key is missing.
abbrev pub or_raise : {A : Type 0} → Option A → Exn → Result A
or_raise none e = err e
or_raise (some a) e = ok a

abbrev pub or_null : Option Json → Json
or_null none = Json.null
or_null (some v) = v

-- `d[k]`
unfoldable pub index : Json → String → Result Json
unfolding lookup
index (Json.obj fs) k = or_raise (lookup k fs) Exn.key_error
index Json.null k = err Exn.type_error
index _ k = err Exn.type_error

-- `d.get(k)`
unfoldable pub get : Json → String → Result Json
unfolding lookup
get (Json.obj fs) k = ok (or_null (lookup k fs))
get Json.null k = err Exn.attribute_error
get _ k = err Exn.attribute_error

-- `d.get(k, default)`, with a default that is computed first.
unfoldable pub get_or : Json → String → Json → Result Json
unfolding lookup
get_or (Json.obj fs) k d = ok (elim (lookup k fs) [ none ↦ d | some v ↦ v ])
get_or Json.null k d = err Exn.attribute_error
get_or _ k d = err Exn.attribute_error

-- `o.k` on an object of the SDK.
unfoldable pub attr : Json → String → Result Json
unfolding lookup
attr (Json.obj fs) k = or_raise (lookup k fs) Exn.attribute_error
attr Json.null k = err Exn.attribute_error
attr _ k = err Exn.attribute_error

unfoldable pub item : Items → ℕ → Result Json
item Items.nil n = err Exn.index_error
item (Items.cons v vs) zero = ok v
item (Items.cons v vs) (suc n) = item vs n

-- `l[n]`; a text in the place of a list raises in the model, since what follows would raise.
unfoldable pub at : Json → ℕ → Result Json
unfolding item
at (Json.arr vs) n = item vs n
at (Json.obj fs) n = err Exn.key_error
at _ n = err Exn.type_error

unfoldable pub length_items : Items → ℕ
length_items Items.nil = 0
length_items (Items.cons v vs) = suc (length_items vs)

unfoldable pub length_fields : Fields → ℕ
length_fields Fields.end = 0
length_fields (Fields.field k v fs) = suc (length_fields fs)

-- `len(v)`
unfoldable pub length : Json → Result ℕ
unfolding length_items length_fields
length (Json.arr vs) = ok (length_items vs)
length (Json.obj fs) = ok (length_fields fs)
length (Json.str s) = ok (String.count s)
length _ = err Exn.type_error

-- `bool(v)`
unfoldable pub truthy : Json → Bool
unfolding length_items length_fields
truthy Json.null = false
truthy (Json.bool b) = b
truthy (Json.int n) = not (n == 0)
truthy (Json.str s) = not (str_eq s "")
truthy (Json.arr vs) = not (length_items vs == 0)
truthy (Json.obj fs) = not (length_fields fs == 0)

-- `a or b`
abbrev pub or_else : Json → Json → Json
or_else a b = if truthy a then a else b

-- `v if isinstance(v, int)`: a Boolean is an integer.
unfoldable pub as_int : Json → Option ℕ
as_int (Json.int n) = some n
as_int (Json.bool b) = some (if b then 1 else 0)
as_int _ = none

-- `v == text`
abbrev pub is_text : Json → String → Bool
is_text (Json.str s) t = str_eq s t
is_text _ t = false

abbrev pub is_null : Json → Bool
is_null Json.null = true
is_null _ = false

-- The last second of the year 9999.
abbrev pub max_timestamp : ℕ
max_timestamp = 253402300799

-- `datetime.fromtimestamp(t, tz=UTC)`
unfoldable pub from_timestamp : ℕ → Result DateTime
from_timestamp t = if leb t max_timestamp then ok (t * 1000000) else err Exn.value_error
