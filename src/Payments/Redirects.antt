-- ===== src/Payments/Redirects.antt =====
-- The redirect URLs that a request may name: `_validate_redirect_url` of
-- apps/billing/serializers.py. Python's `urlparse` is a parameter.
use Prim.Native.String.{◌++◌, slice, len}
use saasmint_core.Base.{
  String, ◌-◌, leb, Bool, not, ◌&&◌, ◌||◌, List, str_eq, any, select, if◌then◌else◌,
}
use saasmint_core.Python.{Result, ok, err}
use saasmint_core.Payments.Prices.{invalid, is_in}
use text.Mathlib.Text.{starts_with}

-- What the code reads of a parsed URL; an absent host is the empty text.
pub record Parsed : Type 0 where
  pub scheme : String
  pub netloc : String
  pub hostname : String

-- The settings.
pub record Allowed : Type 0 where
  pub cors_allowed_origins : List String
  pub allowed_hosts : List String
  pub cors_allow_all : Bool

-- `s.endswith(t)`
abbrev pub ends_with : String → String → Bool
ends_with s t = leb (len t) (len s) && str_eq (slice s (len s - len t) (len s)) t

abbrev pub is_exact : String → Bool
is_exact h = not (str_eq h "*") && not (starts_with h ".")

abbrev pub is_suffix_host : String → Bool
is_suffix_host h = starts_with h "."

abbrev pub origin_no_port : Parsed → String
origin_no_port p =
    if str_eq p.hostname "" then p.scheme ++ "://" ++ p.netloc else p.scheme ++ "://" ++ p.hostname

abbrev pub is_allowed_origin : Allowed → Parsed → Bool
is_allowed_origin a p =
    is_in a.cors_allowed_origins (p.scheme ++ "://" ++ p.netloc)
    || is_in a.cors_allowed_origins (origin_no_port p)

abbrev pub is_allowed_host : Allowed → Parsed → Bool
is_allowed_host a p =
    is_in (select is_exact a.allowed_hosts) p.hostname
    || any (λ s. ends_with p.hostname s) (select is_suffix_host a.allowed_hosts)

unfoldable pub validate_redirect_url :
    (urlparse : String → Parsed) → Allowed → String → Result String
validate_redirect_url urlparse a url =
    let p : Parsed = urlparse url in
    if not (str_eq p.scheme "http" || str_eq p.scheme "https")
    then err invalid
    else if a.cors_allow_all
    then ok url
    else if is_allowed_origin a p
    then ok url
    else if is_allowed_host a p
    then ok url
    else err invalid
