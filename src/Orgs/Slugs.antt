-- ===== src/Orgs/Slugs.antt =====
-- `generate_unique_slug` of apps/orgs/services.py. Django's `slugify` is a parameter.
pub mod Free
use Prim.Native.String.{[], ◌∷◌, ◌++◌, count, slice, len}
use Prim.Native.Char.{Char, code}
use saasmint_core.Base.{
  ℕ, zero, suc, ◌/◌, ◌%◌, leb, ltb, ◌==◌, Bool, true, not, ◌&&◌, ◌||◌, Option, none, some, List,
  String, str_eq, any, select, length, if◌then◌else◌,
}
use text.Mathlib.Text.{starts_with}

-- A character of `[a-z0-9-]`.
abbrev pub is_allowed : Char → Bool
is_allowed c =
    (leb 97 (code c) && leb (code c) 122) || ((leb 48 (code c) && leb (code c) 57) || code c == 45)

-- `re.sub(r"[^a-z0-9-]", "", text)`
unfoldable pub keep_allowed : String → String
keep_allowed [] = []
keep_allowed (c ∷ s) = let rest = keep_allowed s in if is_allowed c then c ∷ rest else rest

abbrev pub is_hyphen : Char → Bool
is_hyphen c = code c == 45

-- `text.lstrip("-")` and `text.rstrip("-")`
unfoldable pub strip_left : String → String
strip_left [] = []
strip_left (c ∷ s) = let rest = strip_left s in if is_hyphen c then rest else c ∷ s

unfoldable pub strip_right : String → String
strip_right [] = []
strip_right (c ∷ s) =
    let rest = strip_right s in if is_hyphen c && str_eq rest "" then [] else c ∷ rest

-- The base of a slug: what is left of the name, if that is long enough.
abbrev pub or_org : String → String
or_org base = if ltb (count base) 2 then "org" else base

unfoldable pub base_of : (slugify : String → String) → (name : String) → String
base_of slugify name = or_org (strip_right (strip_left (keep_allowed (slugify name))))

abbrev pub is_digit : Char → Bool
is_digit c = leb 48 (code c) && leb (code c) 57

unfoldable pub all_digits : String → Bool
all_digits [] = true
all_digits (c ∷ s) = is_digit c && all_digits s

-- `(?:-\d+)?$`, on what follows the base
abbrev pub is_suffix : String → Bool
is_suffix [] = true
is_suffix (c ∷ s) = is_hyphen c && (not (str_eq s "") && all_digits s)

-- The slugs that `_suffix_re` matches.
abbrev pub is_variant : (base : String) → String → Bool
is_variant base slug = starts_with slug base && is_suffix (slice slug (len base) (len slug))

abbrev pub digit : ℕ → String
digit n =
    if n == 0
    then "0"
    else if n == 1
    then "1"
    else if n == 2
    then "2"
    else if n == 3
    then "3"
    else if n == 4
    then "4"
    else if n == 5
    then "5"
    else if n == 6
    then "6"
    else if n == 7
    then "7"
    else if n == 8
    then "8"
    else "9"

-- `str(n)`, with fuel for its digits.
unfoldable pub digits : (fuel n : ℕ) → String
digits zero n = ""
digits (suc fuel) n =
    let rest = digits fuel (n / 10) in if ltb n 10 then digit n else rest ++ digit (n % 10)

-- A number has fewer digits than its successor counts.
abbrev pub decimal : ℕ → String
decimal n = digits (suc n) n

-- `f"{base}-{suffix}"`
abbrev pub numbered : (base : String) → (suffix : ℕ) → String
numbered base suffix = base ++ ("-" ++ decimal suffix)

abbrev pub contains : String → List String → Bool
contains s xs = any (λ t. str_eq t s) xs

-- The `while` loop, with fuel; `none` is that the fuel is used up.
unfoldable pub next_free :
    (fuel : ℕ) → (base : String) → (suffix : ℕ) → (existing : List String) → Option String
next_free zero base suffix existing = none
next_free (suc fuel) base suffix existing =
    let rest = next_free fuel base (suc suffix) existing in
    if contains (numbered base suffix) existing then rest else some (numbered base suffix)

-- `generate_unique_slug`, over the slugs of all orgs. Each number that the loop passes over is in
-- the list, so that one more than the length of the list is enough fuel.
unfoldable pub free_slug : (base : String) → (slugs : List String) → Option String
free_slug base slugs =
    let existing = select (is_variant base) slugs in
    if contains base existing then next_free (suc (length existing)) base 2 existing else some base
