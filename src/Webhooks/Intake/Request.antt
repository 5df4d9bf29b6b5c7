-- ===== src/Webhooks/Intake/Request.antt =====
-- What `stripe_webhook` of apps/billing/webhook.py checks before it touches the database. A request
-- is two headers and the body, with a byte as a character; the verification of the SDK and the
-- JSON decoder are parameters; an answer is its status code.
use Prim.Native.String
use saasmint_core.Base.{ℕ, String, ◌*◌, ltb, Bool, xor, ◌||◌, Option, none, some, if◌then◌else◌}
use saasmint_core.Python.{Json, Exn, Result, ok, err, index, truthy, ◌>>=◌}
use saasmint_core.Values.{to_text}
use saasmint_core.State.{Env}
use text.Mathlib.Text.{starts_with}

pub record HttpRequest : Type 0 where
  pub content_length : Option String
  pub signature : Option String
  pub body : String

-- How `stripe.Webhook.construct_event` ends; `other` is an exception that the view lets through.
pub data Verification : Type 0 where
  verified bad_signature invalid_payload : Verification
  other : Exn → Verification

-- The SDK, the decoder, and the settings `STRIPE_WEBHOOK_SECRET` and `STRIPE_SECRET_KEY`.
pub record Gateway : Type 0 where
  pub construct_event : (payload signature secret : String) → Verification
  -- `json.loads`; `none` is its `JSONDecodeError`
  pub json_loads : String → Option Json
  pub webhook_secret : String
  pub secret_key : String

-- The fields of a decoded event.
pub record Incoming : Type 0 where
  pub stripe_id : String
  pub type : String
  pub livemode : Bool
  pub payload : Json

-- What the checks come to.
pub data Screening : Type 0 where
  answer : (status : ℕ) → Screening
  raises : Exn → Screening
  accepted : Incoming → Screening

-- `_MAX_WEBHOOK_BODY`
abbrev pub max_webhook_body : ℕ
max_webhook_body = 256 * 1024

abbrev pub or_empty : Option String → String
or_empty none = ""
or_empty (some s) = s

-- `settings.STRIPE_SECRET_KEY.startswith(("sk_live_", "rk_live_"))`
abbrev pub key_is_live : String → Bool
key_is_live key = starts_with key "sk_live_" || starts_with key "rk_live_"

-- The comparison of `livemode` with the key.
abbrev pub unless_mismatch : (key_live : Bool) → Incoming → Screening
unless_mismatch key_live incoming =
    if xor incoming.livemode key_live then Screening.answer 202 else Screening.accepted incoming

-- The exceptions of the reads that are answered; the others go through.
abbrev pub read_or_refuse : (key_live : Bool) → Result Incoming → Screening
read_or_refuse key_live (ok incoming) = unless_mismatch key_live incoming
read_or_refuse key_live (err Exn.key_error) = Screening.answer 400
read_or_refuse key_live (err Exn.type_error) = Screening.answer 400
read_or_refuse key_live (err e) = Screening.raises e

module _ (env : Env) where
  -- `int(request.META.get("CONTENT_LENGTH") or 0)`, with 0 for what is no number
  abbrev pub declared_length : Option String → ℕ
  declared_length none = 0
  declared_length (some text) = elim (env.parse_int text) [ none ↦ 0 | some n ↦ n ]

  unfoldable pub read_incoming : Json → Result Incoming
  read_incoming event = do
    id ← index event "id"
    type ← index event "type"
    livemode ← index event "livemode"
    ok (record {
      stripe_id = to_text env id;
      type = to_text env type;
      livemode = truthy livemode;
      payload = event;
    })

  module _ (gateway : Gateway) where
    abbrev pub decode : Option Json → Screening
    decode none = Screening.answer 400
    decode (some event) = read_or_refuse (key_is_live gateway.secret_key) (read_incoming event)

    abbrev pub if_verified : Verification → (body : String) → Screening
    if_verified Verification.verified body = decode (gateway.json_loads body)
    if_verified Verification.bad_signature body = Screening.answer 400
    if_verified Verification.invalid_payload body = Screening.answer 400
    if_verified (Verification.other e) body = Screening.raises e

    -- Whether the declared length, or else the length of the body, is over the cap.
    abbrev pub is_oversized : HttpRequest → Bool
    is_oversized request =
        ltb max_webhook_body (declared_length request.content_length)
        || ltb max_webhook_body (String.count request.body)

    unfoldable pub screen : HttpRequest → Screening
    screen request =
        if is_oversized request
        then Screening.answer 413
        else if_verified
            (gateway.construct_event request.body (or_empty request.signature)
              gateway.webhook_secret)
            request.body
