-- ===== src/Money/RoundTrip.antt =====
-- Printing an amount and parsing it again (packages/money/src/money.ts).
use z_float_2_main.Prelude.{
  ℕ, suc, ◌+◌, ◌*◌, ◌/◌, ◌%◌, ◌<◌, ◌≡◌, refl, ap, ◌∙◌, true, false, not, some, [], ◌∷◌, ◌++◌, all,
  all-append, all-imp, keep, keep-all, arith, leb, ◌==◌, length, both-true, and-false, middle-false,
  ==_self,
}
use z_float_2_main.Prelude.Int.{ℤ, pos, negsuc, ◌-ℤ◌, ltb_ℤ, int_laws}
use z_float_2_main.Text.{Text, is_space, is_digit, to_string, big_int}
use z_float_2_main.Money.{
  strip_grouping, leading_digits, after_digits, is_comma_grouped, is_dot_grouped, is_plain,
  decimal_separator, before, behind, unsigned_minor, with_sign, parse_cleaned, parse_minor,
  decimal_string, minor_to_decimal_string,
}
use z_float_2_main.Money.Digits.{big_int-to_string, to_string-all, to_string-some, two_digits}

digit-not-space : (c : ℕ) → is_digit c ≡ true → not (is_space c) ≡ true
unfolding is_space
digit-not-space c h = ground arith

digit-not : (c d : ℕ) → is_digit d ≡ false → is_digit c ≡ true → (c == d) ≡ false
digit-not c d h k = ground arith

module _ (c : ℕ) (s : Text) (mark : is_digit c ≡ false) where
  after_digits-append : (d : Text) → all is_digit d ≡ true → after_digits (d ++ c ∷ s) ≡ c ∷ s
  after_digits-append [] h = rw mark refl
  after_digits-append (x ∷ d) h =
      let (good, rest) = both-true (is_digit x) (all is_digit d) h in
      rw good (after_digits-append d rest)

  before-append : (d : Text) → all is_digit d ≡ true → before c (d ++ c ∷ s) ≡ d
  before-append [] h = rw (==_self c) refl
  before-append (x ∷ d) h =
      let (good, rest) = both-true (is_digit x) (all is_digit d) h in
      rw (digit-not x c mark good) (ap (λ t. x ∷ t) (before-append d rest))

  behind-append : (d : Text) → all is_digit d ≡ true → behind c (d ++ c ∷ s) ≡ s
  behind-append [] h = rw (==_self c) refl
  behind-append (x ∷ d) h =
      let (good, rest) = both-true (is_digit x) (all is_digit d) h in
      rw (digit-not x c mark good) (behind-append d rest)

leading_digits-some :
    (d s : Text) → all is_digit d ≡ true → 0 < length d → leb 1 (leading_digits (d ++ s)) ≡ true
leading_digits-some [] s h k = absurd (omega arith)
leading_digits-some (x ∷ d) s h k =
    let (good, rest) = both-true (is_digit x) (all is_digit d) h in rw good (ground arith)

-- A whole part of digits, a dot and two digits.
module _ (d : Text) (x y : ℕ) (whole : all is_digit d ≡ true) (filled : 0 < length d)
    (first : is_digit x ≡ true) (second : is_digit y ≡ true) where
  abbrev spelt : Text
  spelt = d ++ b'.' ∷ x ∷ y ∷ []

  rest_of : after_digits spelt ≡ b'.' ∷ x ∷ y ∷ []
  rest_of = after_digits-append b'.' (x ∷ y ∷ []) refl d whole

  not_comma_grouped : is_comma_grouped spelt ≡ false
  unfolding is_comma_grouped
  not_comma_grouped = rw rest_of (middle-false _ _)

  not_dot_grouped : is_dot_grouped spelt ≡ false
  unfolding is_dot_grouped
  not_dot_grouped = rw rest_of (and-false _)

  plain : is_plain b'.' spelt ≡ true
  unfolding is_plain
  plain = rw (leading_digits-some d (b'.' ∷ x ∷ y ∷ []) whole filled, rest_of, first, second) refl

  separator : decimal_separator spelt ≡ some b'.'
  unfolding decimal_separator
  separator = rw (not_comma_grouped, not_dot_grouped, plain) refl

  ungrouped : keep (λ c. not (c == b',')) d ≡ d
  ungrouped =
      keep-all (λ c. not (c == b',')) d
        (all-imp is_digit (λ c. not (c == b',')) d (λ c h. rw (digit-not c b',' refl h) refl) whole)

  spelt_minor : unsigned_minor spelt ≡ some (big_int d * 100 + big_int (x ∷ y ∷ []))
  spelt_minor =
      rw
        (
          separator,
          before-append b'.' (x ∷ y ∷ []) refl d whole,
          behind-append b'.' (x ∷ y ∷ []) refl d whole,
          digit-not x b'.' refl first,
          digit-not y b'.' refl second,
          ungrouped,
        )
        refl

  spaceless : strip_grouping spelt ≡ spelt
  unfolding strip_grouping is_space
  spaceless =
      keep-all (λ c. not (is_space c)) spelt
        (all-append (λ c. not (is_space c)) d (b'.' ∷ x ∷ y ∷ [])
          (all-imp is_digit (λ c. not (is_space c)) d digit-not-space whole)
          (rw (digit-not-space x first, digit-not-space y second) refl))

  -- A minus sign before it is read as such.
  negative_spaceless : strip_grouping (b'-' ∷ spelt) ≡ b'-' ∷ spelt
  unfolding strip_grouping is_space
  negative_spaceless = ap (λ s. b'-' ∷ s) spaceless

unsigned_cleaned :
    (d s : Text)
    → all is_digit d ≡ true
    → 0 < length d
    → parse_cleaned (d ++ s) ≡ with_sign false (unsigned_minor (d ++ s))
unsigned_cleaned [] s h k = absurd (omega arith)
unsigned_cleaned (x ∷ d) s h k =
    let (good, rest) = both-true (is_digit x) (all is_digit d) h in
    rw (digit-not x b'-' refl good) refl

-- The print of a number of cents.
module _ (n : ℕ) where
  abbrev tens : ℕ
  tens = b'0' + n % 100 / 10

  abbrev ones : ℕ
  ones = b'0' + n % 100 % 10

  printed : decimal_string n ≡ to_string (n / 100) ++ b'.' ∷ tens ∷ ones ∷ []
  printed = ap (λ t. to_string (n / 100) ++ b'.' ∷ t) (two_digits (n % 100) (omega arith))

  read_back : big_int (to_string (n / 100)) * 100 + big_int (tens ∷ ones ∷ []) ≡ n
  read_back = rw (big_int-to_string (n / 100)) (omega arith)

  unsigned_back : unsigned_minor (decimal_string n) ≡ some n
  unsigned_back = rw printed (
      spelt_minor (to_string (n / 100)) tens ones (to_string-all (n / 100))
        (to_string-some (n / 100)) (ground arith) (ground arith)
      ∙ ap some read_back)

  positive_back : parse_minor (decimal_string n) ≡ some (pos n)
  unfolding parse_minor
  positive_back =
      let whole = to_string-all (n / 100) in
      let filled = to_string-some (n / 100) in
      rw
        (
          printed,
          spaceless (to_string (n / 100)) tens ones whole filled (ground arith) (ground arith),
          unsigned_cleaned (to_string (n / 100)) (b'.' ∷ tens ∷ ones ∷ []) whole filled,
          ← printed,
          unsigned_back,
        )
        refl

  negative_back : parse_minor (b'-' ∷ decimal_string n) ≡ some (pos 0 -ℤ pos n)
  unfolding parse_minor
  negative_back =
      let whole = to_string-all (n / 100) in
      let filled = to_string-some (n / 100) in
      rw
        (
          printed,
          negative_spaceless (to_string (n / 100)) tens ones whole filled (ground arith)
              (ground arith),
          ← printed,
          unsigned_back,
        )
        refl

pos-sign : (n : ℕ) → ltb_ℤ (pos n) (pos 0) ≡ false
pos-sign n = ground arith

negsuc-sign : (n : ℕ) → ltb_ℤ (negsuc n) (pos 0) ≡ true
negsuc-sign n = ground arith

-- Parsing the decimal string of an amount, negative or not, gives the amount.
pub parse_minor-minor_to_decimal_string :
    (minor : ℤ) → parse_minor (minor_to_decimal_string minor) ≡ some minor
unfolding minor_to_decimal_string
parse_minor-minor_to_decimal_string (pos n) = rw (pos-sign n) (positive_back n)
parse_minor-minor_to_decimal_string (negsuc n) =
    let minus : pos 0 -ℤ pos (suc n) ≡ negsuc n = omega int_laws in
    rw (negsuc-sign n) (negative_back (suc n) ∙ ap some minus)
