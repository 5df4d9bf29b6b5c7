-- ===== src/Orgs/Slugs/Free.antt =====
-- The generator finds a free slug.
use Prim.Native.String.{◌++◌, count}
use saasmint_core.Base.{
  ℕ, zero, suc, ◌/◌, ◌%◌, ◌≤◌, ◌<◌, ltb, Bool, true, false, some, List, [], ◌∷◌, ◌≡◌, ◌≢◌, refl,
  sym, ap, subst, select, ◌∙◌, inl, inr, String, str_eq, delete, length, if◌then◌else◌, arith,
  Bool-cases, eq_iff, str_eq_refl,
}
use saasmint_core.Orgs.Slugs.{
  digit, digits, decimal, numbered, contains, next_free, free_slug, is_variant, is_suffix,
  all_digits,
}
use text.Mathlib.TextPositions.{len-append, slice-append_right, starts_with-append}
use text.Mathlib.TextLemmas.{
  append_inj, append-nil, append_cancel_left, length-append, nil-append, cons-append,
}

digit_value : String → ℕ
digit_value s =
    if str_eq s "0"
    then 0
    else if str_eq s "1"
    then 1
    else if str_eq s "2"
    then 2
    else if str_eq s "3"
    then 3
    else if str_eq s "4"
    then 4
    else if str_eq s "5"
    then 5
    else if str_eq s "6"
    then 6
    else if str_eq s "7"
    then 7
    else if str_eq s "8"
    then 8
    else 9

digit-back : (n : ℕ) → n < 10 → (digit_value (digit n) ≡ n) × (count (digit n) ≡ 1)
unfolding digit_value
digit-back zero h = (refl, refl)
digit-back (suc zero) h = (refl, refl)
digit-back (suc (suc zero)) h = (refl, refl)
digit-back (suc (suc (suc zero))) h = (refl, refl)
digit-back (suc (suc (suc (suc zero)))) h = (refl, refl)
digit-back (suc (suc (suc (suc (suc zero))))) h = (refl, refl)
digit-back (suc (suc (suc (suc (suc (suc zero)))))) h = (refl, refl)
digit-back (suc (suc (suc (suc (suc (suc (suc zero))))))) h = (refl, refl)
digit-back (suc (suc (suc (suc (suc (suc (suc (suc zero)))))))) h = (refl, refl)
digit-back (suc (suc (suc (suc (suc (suc (suc (suc (suc zero))))))))) h = (refl, refl)
digit-back (suc (suc (suc (suc (suc (suc (suc (suc (suc (suc n)))))))))) h = absurd (omega arith)

-- A number has a digit.
digits-count : (fuel n : ℕ) → 0 < fuel → 1 ≤ count (digits fuel n)
unfolding digits
digits-count zero n h = absurd (omega arith)
digits-count (suc fuel) n h = elim (Bool-cases (ltb n 10)) [
  | inl small ↦ rw small (omega (arith, (digit-back n (ground arith)).1))
  | inr large ↦ rw large (
      omega (
        arith,
        (digit-back (n % 10) (omega arith)).1,
        length-append (digits fuel (n / 10)) (digit (n % 10)),
      ))
]

digit-inj : (n m : ℕ) → n < 10 → m < 10 → digit n ≡ digit m → n ≡ m
digit-inj n m h k e = sym (digit-back n h).0 ∙ ap digit_value e ∙ (digit-back m k).0

-- Numbers of more than one digit: the last digit and the others agree.
last-inj :
    (s t : String) (n m : ℕ) → n < 10 → m < 10 → s ++ digit n ≡ t ++ digit m → (s ≡ t) × (n ≡ m)
last-inj s t n m h k e =
    let (same, last) = append_inj e (
      omega (
        arith,
        (digit-back n h).1,
        (digit-back m k).1,
        length-append s (digit n),
        length-append t (digit m),
        ap count e,
      )) in
    (same, digit-inj n m h k last)

-- One digit is no number of more.
one_digit : (s : String) (n m : ℕ) → n < 10 → m < 10 → 1 ≤ count s → digit n ≢ s ++ digit m
one_digit s n m h k more e =
    omega (arith, (digit-back n h).1, (digit-back m k).1, length-append s (digit m), ap count e)

digits-inj : (f g n m : ℕ) → n < f → m < g → digits f n ≡ digits g m → n ≡ m
unfolding digits
digits-inj zero g n m h k = λ e. absurd (omega arith)
digits-inj (suc f) zero n m h k = λ e. absurd (omega arith)
digits-inj (suc f) (suc g) n m h k =
    go (ltb n 10) (ltb m 10) refl refl (digits-inj f g (n / 10) (m / 10))
  where
    go :
        (a b : Bool)
        → ltb n 10 ≡ a
        → ltb m 10 ≡ b
        → (n / 10 < f → m / 10 < g → digits f (n / 10) ≡ digits g (m / 10) → n / 10 ≡ m / 10)
        → (if a then digit n else digits f (n / 10) ++ digit (n % 10))
          ≡ (if b then digit m else digits g (m / 10) ++ digit (m % 10))
        → n ≡ m
    go true true p q rest e = digit-inj n m (ground arith) (ground arith) e
    go true false p q rest e = absurd (
        one_digit (digits g (m / 10)) n (m % 10) (ground arith) (omega arith)
          (digits-count g (m / 10) (ground arith)) e)
    go false true p q rest e = absurd (
        one_digit (digits f (n / 10)) m (n % 10) (ground arith) (omega arith)
          (digits-count f (n / 10) (ground arith)) (sym e))
    go false false p q rest e =
        let big : 10 ≤ n = ground arith in
        let big' : 10 ≤ m = ground arith in
        let (heads, lasts) =
          last-inj (digits f (n / 10)) (digits g (m / 10)) (n % 10) (m % 10) (omega arith)
            (omega arith) e in
        let tens = rest (omega (arith, h)) (omega (arith, k)) heads in omega (arith, tens, lasts)

numbered-inj : (base : String) (n m : ℕ) → numbered base n ≡ numbered base m → n ≡ m
numbered-inj base n m e = digits-inj (suc n) (suc m) n m (omega arith) (omega arith) (
    append_cancel_left "-" (decimal n) (decimal m)
      (append_cancel_left base ("-" ++ decimal n) ("-" ++ decimal m) e))

contains-delete :
    (s t : String) (xs : List String)
    → str_eq t s ≡ false
    → contains s xs ≡ true
    → contains s (delete (λ x. str_eq x t) xs) ≡ true
contains-delete s t [] other e = e
contains-delete s t (x ∷ xs) other e =
    ground (arith, contains-delete s t xs, eq_iff x t, eq_iff x s, eq_iff t s)

length-delete_le : (p : String → Bool) (xs : List String) → length (delete p xs) ≤ length xs
length-delete_le p [] = omega arith
length-delete_le p (x ∷ xs) = ground (arith, length-delete_le p xs)

length-delete :
    (s : String) (xs : List String)
    → contains s xs ≡ true
    → length (delete (λ x. str_eq x s) xs) < length xs
length-delete s [] e = cc
length-delete s (x ∷ xs) e =
    ground (arith, length-delete s xs, length-delete_le (λ y. str_eq y s) xs)

digit-all_digits : (n : ℕ) → n < 10 → all_digits (digit n) ≡ true
unfolding all_digits
digit-all_digits zero h = refl
digit-all_digits (suc zero) h = refl
digit-all_digits (suc (suc zero)) h = refl
digit-all_digits (suc (suc (suc zero))) h = refl
digit-all_digits (suc (suc (suc (suc zero)))) h = refl
digit-all_digits (suc (suc (suc (suc (suc zero))))) h = refl
digit-all_digits (suc (suc (suc (suc (suc (suc zero)))))) h = refl
digit-all_digits (suc (suc (suc (suc (suc (suc (suc zero))))))) h = refl
digit-all_digits (suc (suc (suc (suc (suc (suc (suc (suc zero)))))))) h = refl
digit-all_digits (suc (suc (suc (suc (suc (suc (suc (suc (suc zero))))))))) h = refl
digit-all_digits (suc (suc (suc (suc (suc (suc (suc (suc (suc (suc n)))))))))) h =
    absurd (omega arith)

all_digits-append :
    (s t : String) → all_digits s ≡ true → all_digits t ≡ true → all_digits (s ++ t) ≡ true
unfolding all_digits
all_digits-append String.[] t e f = rw (nil-append t) f
all_digits-append (String.◌∷◌ c s) t e f =
    rw (cons-append c s t) (ground (arith, all_digits-append s t))

digits-all_digits : (fuel n : ℕ) → all_digits (digits fuel n) ≡ true
unfolding digits all_digits
digits-all_digits zero n = refl
digits-all_digits (suc fuel) n = elim (Bool-cases (ltb n 10)) [
  | inl small ↦ rw small (digit-all_digits n (ground arith))
  | inr large ↦ rw large (
      all_digits-append (digits fuel (n / 10)) (digit (n % 10)) (digits-all_digits fuel (n / 10))
        (digit-all_digits (n % 10) (omega arith)))
]

-- A number is no empty text.
decimal-full : (n : ℕ) → str_eq (decimal n) "" ≡ false
decimal-full n = elim (Bool-cases (str_eq (decimal n) "")) [
  | inr full ↦ full
  | inl empty ↦ absurd (
      omega
        (arith, digits-count (suc n) n (omega arith), ap count ((eq_iff (decimal n) "").0 empty)))
]

hyphen-append : (s : String) → "-" ++ s ≡ String.◌∷◌ "-" s
hyphen-append s = cons-append "-" "" s ∙ ap (String.◌∷◌ "-") (nil-append s)

-- A hyphen and a number are a suffix.
hyphen-is_suffix : (n : ℕ) → is_suffix ("-" ++ decimal n) ≡ true
hyphen-is_suffix n =
    ap is_suffix (hyphen-append (decimal n))
    ∙ ground (arith, decimal-full n, digits-all_digits (suc n) n)

-- The loop tries variants of the base only.
numbered-is_variant : (base : String) (n : ℕ) → is_variant base (numbered base n) ≡ true
numbered-is_variant base n =
    rw
      (
        starts_with-append base ("-" ++ decimal n),
        len-append base ("-" ++ decimal n),
        slice-append_right base ("-" ++ decimal n),
      )
      (hyphen-is_suffix n)

-- The numbers from `n` on that are in `existing` are in `left`, which gets shorter by each number
-- that the loop passes over.
next_free-found :
    (base : String) (existing left : List String) (fuel n : ℕ)
    → length left < fuel
    → ((k : ℕ)
        → n ≤ k
        → contains (numbered base k) existing ≡ true
        → contains (numbered base k) left ≡ true)
    → (slug : String) × (next_free fuel base n existing ≡ some slug)
      × (contains slug existing ≡ false)
      × (is_variant base slug ≡ true)
unfolding next_free
next_free-found base existing left zero n enough inside = absurd (omega arith)
next_free-found base existing left (suc fuel) n enough inside =
    elim (Bool-cases (contains (numbered base n) existing)) [
      | inr free ↦ (numbered base n, rw free refl, free, numbered-is_variant base n)
      | inl taken ↦
          let rest : List String = delete (λ x. str_eq x (numbered base n)) left in
          let (slug, found, free, fits) =
            next_free-found base existing rest fuel (suc n)
              (omega (arith, length-delete (numbered base n) left (inside n (omega arith) taken)))
              (λ k le e.
                contains-delete (numbered base k) (numbered base n) left (other k n le)
                  (inside k (omega arith) e)) in
          (slug, rw taken found, free, fits)
    ]
  where
    other : (k n : ℕ) → suc n ≤ k → str_eq (numbered base n) (numbered base k) ≡ false
    other k n le = elim (Bool-cases (str_eq (numbered base n) (numbered base k))) [
      | inl same ↦ absurd (
          omega
            (arith, numbered-inj base n k ((eq_iff (numbered base n) (numbered base k)).0 same)))
      | inr differ ↦ differ
    ]

-- A variant that the selection has not is not there at all.
contains-select :
    (p : String → Bool) (s : String) (xs : List String)
    → p s ≡ true
    → contains s (select p xs) ≡ false
    → contains s xs ≡ false
contains-select p s [] passes e = refl
contains-select p s (x ∷ xs) passes e = elim (Bool-cases (str_eq x s)) [
  | inl same ↦ cc_of same
  | inr differ ↦ ground (arith, contains-select p s xs)
]
  where
    cc_of : str_eq x s ≡ true → contains s (x ∷ xs) ≡ false
    cc_of same =
        let e' = subst (λ y. contains s (select p (y ∷ xs)) ≡ false) ((eq_iff x s).0 same) e in
        ground (arith, str_eq_refl s, passes, e')

base-is_variant : (base : String) → is_variant base base ≡ true
base-is_variant base =
    subst (λ s. is_variant base s ≡ true) (append-nil base)
      (rw (starts_with-append base "", len-append base "", slice-append_right base "") refl)

-- The generator always finds a slug, within the fuel that it has, and no org has that slug.
pub free_slug_found :
    (base : String) (slugs : List String)
    → (slug : String) × (free_slug base slugs ≡ some slug) × (contains slug slugs ≡ false)
unfolding free_slug
free_slug_found base slugs =
    let existing : List String = select (is_variant base) slugs in
    elim (Bool-cases (contains base existing)) [
      | inr free ↦ (
        base,
        rw free refl,
        contains-select (is_variant base) base slugs (base-is_variant base) free,
      )
      | inl taken ↦
          let (slug, found, free, fits) =
            next_free-found base existing existing (suc (length existing)) 2 (omega arith)
              (λ k le e. e) in
          (slug, rw taken found, contains-select (is_variant base) slug slugs fits free)
    ]
