-- ===== src/Accounts/Providers/Verified.antt =====
-- When an email of Microsoft counts as verified.
use text.Mathlib.Text.{starts_with}
use saasmint_core.Base.{
  Bool, true, false, ◌&&◌, Option, none, some, ◌≡◌, refl, ap, subst, ◌∙◌, String, if◌then◌else◌,
}
use saasmint_core.Python.{Json, Result, ok, err, get, get_or, index, truthy, ◌>>=◌}
use saasmint_core.Values.{as_text, to_text}
use saasmint_core.State.{Env}
use saasmint_core.Payments.Redirects.{ends_with}
use saasmint_core.Accounts.Providers.{
  UserInfo, Answers, text_or_raise, is_microsofts, if_decoded, verify_microsoft_id_token,
  claims_if_sent, is_true, is_object, or_text, required_email, unproven_user, signed_user,
  object_id, if_attested, with_claims, microsoft_user, unless_malformed, with_access_token,
  exchange_code,
}

-- What holds of every value that the result returns.
record Yields {A : Type 0} (P : A → Type 0) (r : Result A) : Type 0 where
  run : (a : A) → r ≡ ok a → P a

after :
    {A B : Type 0} {P : B → Type 0} (m : Result A) {f : A → Result B}
    → ((a : A) → m ≡ ok a → Yields P (f a))
    → Yields P (m >>= f)
after (ok a) h = h a refl
after (err e) h = record { run = λ b q. cc }

ok-Yields : {A : Type 0} (P : A → Type 0) (a : A) → P a → Yields P (ok a)
ok-Yields P a h = record { run = λ b q. subst P (ok_inj q) h }
  where
    ok_inj : {A : Type 0} {a b : A} → ok a ≡ ok b → a ≡ b
    ok_inj e = cc

-- PyJWT accepts the token, signed with RS256 for this client, and Microsoft issued it.
pub record IsSigned (answers : Answers) (id_token signed : Json) : Type 0 where
  pub decoded : answers.jwt_decode id_token "RS256" answers.client_id ≡ some signed
  pub iss : String
  pub has_issuer : get_or signed "iss" (Json.str "") ≡ ok (Json.str iss)
  pub issuer_prefix : starts_with iss "https://login.microsoftonline.com/" ≡ true
  pub issuer_suffix : ends_with iss "/v2.0" ≡ true

-- A signed token of Microsoft carries the email and says that Microsoft has verified its domain.
pub record IsAttested (answers : Answers) (u : UserInfo) : Type 0 where
  pub id_token : Json
  pub signed : Json
  pub is_signed : IsSigned answers id_token signed
  pub is_verified : get signed "xms_edov" ≡ ok (Json.bool true)
  pub has_email : get signed "email" ≡ ok (Json.str u.email)

module _ (env : Env) (answers : Answers) where
  abbrev Proven : UserInfo → Type 0
  Proven u = u.email_verified ≡ true → IsAttested answers u

  unverified-Yields : (u : UserInfo) → u.email_verified ≡ false → Yields Proven (ok u)
  unverified-Yields u e = ok-Yields Proven u (λ verified. cc)

  unproven_user-Yields : (info : Json) → Yields Proven (unproven_user env answers info)
  unfolding unproven_user
  unproven_user-Yields info = after (get info "mail") λ mail e1.
      after (get info "userPrincipalName") λ principal e2.
        after (required_email (or_text mail principal)) λ email e3.
          after (get_or info "displayName" (Json.str "")) λ name e4.
            after (index info "id") λ id e5. after (as_text name) λ full_name e6.
              unverified-Yields
                (record {
                  email = email;
                  full_name = full_name;
                  provider_user_id = to_text env id;
                  email_verified = false;
                })
                refl

  as_text-str : (v : Json) (t : String) → as_text v ≡ ok t → v ≡ Json.str t
  unfolding as_text
  as_text-str (Json.str s) t e = cc
  as_text-str Json.null t e = cc
  as_text-str (Json.bool b) t e = cc
  as_text-str (Json.int n) t e = cc
  as_text-str (Json.arr vs) t e = cc
  as_text-str (Json.obj fs) t e = cc

  signed_user-Yields :
      (id_token signed info : Json)
      → IsSigned answers id_token signed
      → get signed "xms_edov" ≡ ok (Json.bool true)
      → Yields Proven (signed_user env answers signed info)
  unfolding signed_user
  signed_user-Yields id_token signed info is_signed attested =
      after (get signed "email") λ given e1. after (as_text given) λ email e2.
        after (get signed "name") λ name e3.
          after (get_or info "displayName" (Json.str "")) λ shown e4.
            after (get signed "oid") λ oid e5.
              after (object_id env answers (truthy oid) oid info) λ id e6.
                after (as_text (or_text name shown)) λ full_name e7.
                  ok-Yields Proven
                    (record {
                      email = email;
                      full_name = full_name;
                      provider_user_id = to_text env id;
                      email_verified = true;
                    })
                    λ verified. record {
                      id_token = id_token;
                      signed = signed;
                      is_signed = is_signed;
                      is_verified = attested;
                      has_email = e1 ∙ ap ok (as_text-str given email e2);
                    }

  is_true-bool : (v : Json) → is_true v ≡ true → v ≡ Json.bool true
  is_true-bool (Json.bool b) e = ap Json.bool e
  is_true-bool Json.null e = cc
  is_true-bool (Json.str s) e = cc
  is_true-bool (Json.int n) e = cc
  is_true-bool (Json.arr vs) e = cc
  is_true-bool (Json.obj fs) e = cc

  attested-Yields :
      (id_token signed info attested : Json) (present : Bool)
      → IsSigned answers id_token signed
      → get signed "xms_edov" ≡ ok attested
      → Yields Proven (if_attested env answers (is_true attested && present) signed info)
  attested-Yields id_token signed info attested present is_signed e =
      go (is_true attested) present refl
    where
      go :
          (b p : Bool)
          → is_true attested ≡ b
          → Yields Proven (if_attested env answers (b && p) signed info)
      go true true q =
          signed_user-Yields id_token signed info is_signed (e ∙ ap ok (is_true-bool attested q))
      go true false q = unproven_user-Yields info
      go false p q = unproven_user-Yields info

  claims-Yields :
      (id_token info : Json) (o : Option Json)
      → ((signed : Json) → o ≡ some signed → IsSigned answers id_token signed)
      → Yields Proven (with_claims env answers o info)
  claims-Yields id_token info none is_signed = unproven_user-Yields info
  claims-Yields id_token info (some signed) is_signed = after (get signed "email") λ email e1.
      after (get signed "xms_edov") λ attested e2.
        attested-Yields id_token signed info attested (truthy email) (is_signed signed refl) e2

  text-str : (v : Json) (t : String) → text_or_raise v ≡ ok t → v ≡ Json.str t
  text-str (Json.str s) t e = cc
  text-str Json.null t e = cc
  text-str (Json.bool b) t e = cc
  text-str (Json.int n) t e = cc
  text-str (Json.arr vs) t e = cc
  text-str (Json.obj fs) t e = cc

  both : (a b : Bool) → (a && b) ≡ true → (a ≡ true) × (b ≡ true)
  both true true e = (refl, refl)
  both true false e = cc
  both false b e = cc

  -- Claims that were taken are signed.
  abbrev AreSigned : Json → Option Json → Type 0
  AreSigned id_token o = (signed : Json) → o ≡ some signed → IsSigned answers id_token signed

  decoded-Yields :
      (id_token : Json) (o : Option Json)
      → answers.jwt_decode id_token "RS256" answers.client_id ≡ o
      → Yields (AreSigned id_token) (if_decoded o)
  decoded-Yields id_token none e = ok-Yields (AreSigned id_token) none (λ signed q. cc)
  decoded-Yields id_token (some claims) e = after (get_or claims "iss" (Json.str "")) λ iss e1.
      after (text_or_raise iss) λ t e2.
        ok-Yields (AreSigned id_token) _
          (issued t (e1 ∙ ap ok (text-str iss t e2)) (is_microsofts t) refl)
    where
      issued :
          (t : String)
          → get_or claims "iss" (Json.str "") ≡ ok (Json.str t)
          → (b : Bool) → is_microsofts t ≡ b
          → AreSigned id_token (if b then some claims else none)
      issued t has true own signed q =
          let parts = both _ _ own in
          subst (IsSigned answers id_token) (ap (λ o. elim o [ none ↦ claims | some x ↦ x ]) q)
            (record {
              decoded = e;
              iss = t;
              has_issuer = has;
              issuer_prefix = parts.0;
              issuer_suffix = parts.1;
            })
      issued t has false own signed q = cc

  sent-Yields :
      (id_token : Json) (b : Bool)
      → Yields
          (AreSigned id_token)
          (if b then verify_microsoft_id_token env answers id_token else ok none)
  unfolding verify_microsoft_id_token
  sent-Yields id_token true = decoded-Yields id_token _ refl
  sent-Yields id_token false = ok-Yields (AreSigned id_token) none (λ signed q. cc)

  microsoft_user-Yields :
      (token info : Json) → Yields Proven (microsoft_user env answers token info)
  unfolding microsoft_user
  microsoft_user-Yields token info = after (get token "id_token") λ id_token e.
      after (claims_if_sent env answers id_token) λ claims sent.
        claims-Yields id_token info claims
          ((sent-Yields id_token (truthy id_token)).run claims sent)

  object-Yields :
      (b : Bool) (token info : Json)
      → Yields Proven (unless_malformed env answers b "microsoft" token info)
  object-Yields true token info = microsoft_user-Yields token info
  object-Yields false token info = record { run = λ u e. cc }

  present-Yields :
      (b : Bool) (token : Json) → Yields Proven (with_access_token env answers b "microsoft" token)
  present-Yields true token =
      after answers.userinfo λ info e. object-Yields (is_object info) token info
  present-Yields false token = record { run = λ u e. cc }

  -- An exchange with Microsoft that returns an email as verified has a token that PyJWT accepts
  -- for this client and that Microsoft issued, which carries this very email and says that its domain
  -- is verified.
  pub microsoft-IsAttested :
      (u : UserInfo)
      → exchange_code env answers "microsoft" ≡ ok u
      → u.email_verified ≡ true
      → IsAttested answers u
  unfolding exchange_code
  microsoft-IsAttested u = whole.run u
    where
      whole : Yields Proven (exchange_code env answers "microsoft")
      whole = after answers.token λ token e1.
          after (get token "access_token")
            λ access_token e2. present-Yields (truthy access_token) token
