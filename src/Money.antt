-- ===== src/Money.antt =====
-- packages/money/src/money.ts: amounts as text. `percentFloor` stands with the fees.
pub mod Digits
pub mod RoundTrip
mod Tests
use z_float_2_main.Prelude.{
  ℕ, zero, suc, ◌+◌, ◌*◌, ◌/◌, ◌%◌, Bool, true, false, not, ◌&&◌, ◌||◌, Option, none, some, List,
  [], ◌∷◌, ◌++◌, length, keep, take, ltb, leb, ◌==◌, if◌then◌else◌,
}
use z_float_2_main.Prelude.Int.{ℤ, pos, negsuc, pos_part, neg_part, ◌-ℤ◌, ltb_ℤ}
use z_float_2_main.Text.{Text, is_space, is_digit, pad_start, to_string, big_int}

-- `stripGrouping`, of a trimmed text: spaces anywhere are dropped.
unfoldable pub strip_grouping : Text → Text
strip_grouping s = keep (λ c. not (is_space c)) s

-- How many digits a text starts with, and what comes after them.
abbrev pub leading_digits : Text → ℕ
leading_digits [] = 0
leading_digits (c ∷ s) = if is_digit c then suc (leading_digits s) else 0

abbrev pub after_digits : Text → Text
after_digits [] = []
after_digits (c ∷ s) = if is_digit c then after_digits s else c ∷ s

-- `\d{1,2}` and the end.
abbrev is_fraction : Text → Bool
is_fraction (a ∷ []) = is_digit a
is_fraction (a ∷ b ∷ []) = is_digit a && is_digit b
is_fraction _ = false

-- `(sep \d{1,2})` and the end, and the same with a `?`.
abbrev pub is_decimal_part : ℕ → Text → Bool
is_decimal_part sep [] = false
is_decimal_part sep (c ∷ s) = c == sep && is_fraction s

abbrev pub ends_number : ℕ → Text → Bool
ends_number sep [] = true
ends_number sep (c ∷ s) = is_decimal_part sep (c ∷ s)

-- `(sep \d{3})*`: how many groups there are, and what comes after them.
abbrev pub groups : ℕ → Text → ℕ × Text
groups sep (c ∷ x ∷ y ∷ z ∷ s) =
    let (n, rest) = groups sep s in
    if c == sep && is_digit x && is_digit y && is_digit z
    then (suc n, rest)
    else (0, c ∷ x ∷ y ∷ z ∷ s)
groups sep s = (0, s)

-- `^\d{1,3}`
abbrev has_lead : Text → Bool
has_lead s = leb 1 (leading_digits s) && leb (leading_digits s) 3

-- `/^\d{1,3}(,\d{3})+(\.\d{1,2})?$/`
unfoldable pub is_comma_grouped : Text → Bool
is_comma_grouped s =
    let (n, rest) = groups b',' (after_digits s) in has_lead s && leb 1 n && ends_number b'.' rest

-- `/^(?:\d{1,3}(?:\.\d{3})+(?:,\d{1,2})|\d{1,3}(?:\.\d{3}){2,})$/`
unfoldable pub is_dot_grouped : Text → Bool
is_dot_grouped s =
    let (n, rest) = groups b'.' (after_digits s) in
    has_lead s && (leb 1 n && is_decimal_part b',' rest || leb 2 n && length rest == 0)

-- `/^\d+(\.\d{1,2})?$/`, and the same with a comma.
unfoldable pub is_plain : ℕ → Text → Bool
is_plain sep s = leb 1 (leading_digits s) && ends_number sep (after_digits s)

-- The decimal separator, if the text is an amount.
unfoldable pub decimal_separator : Text → Option ℕ
decimal_separator s =
    if is_comma_grouped s
    then some b'.'
    else if is_dot_grouped s
    then some b','
    else if is_plain b'.' s
    then some b'.'
    else if is_plain b',' s
    then some b','
    else none

-- `s.split(sep)`: the first part, and what comes after it.
abbrev pub before : ℕ → Text → Text
before sep [] = []
before sep (c ∷ s) = if c == sep then [] else c ∷ before sep s

abbrev pub behind : ℕ → Text → Text
behind sep [] = []
behind sep (c ∷ s) = if c == sep then s else behind sep s

-- `s.padEnd(2, "0").slice(0, 2)`
abbrev pub two_places : Text → Text
two_places [] = b'0' ∷ b'0' ∷ []
two_places (a ∷ []) = a ∷ b'0' ∷ []
two_places (a ∷ b ∷ s) = a ∷ b ∷ []

-- The separator of thousands.
abbrev pub grouping_of : ℕ → ℕ
grouping_of sep = if sep == b'.' then b',' else b'.'

abbrev pub minor_of : ℕ → Text → ℕ
minor_of sep s =
    big_int (keep (λ c. not (c == grouping_of sep)) (before sep s)) * 100
    + big_int (two_places (before sep (behind sep s)))

abbrev pub minor_if : Text → Option ℕ → Option ℕ
minor_if s none = none
minor_if s (some sep) = some (minor_of sep s)

abbrev pub unsigned_minor : Text → Option ℕ
unsigned_minor s = minor_if s (decimal_separator s)

abbrev pub with_sign : Bool → Option ℕ → Option ℤ
with_sign negative none = none
with_sign true (some n) = some (pos 0 -ℤ pos n)
with_sign false (some n) = some (pos n)

abbrev pub parse_cleaned : Text → Option ℤ
parse_cleaned [] = with_sign false (unsigned_minor [])
parse_cleaned (c ∷ s) =
    if c == b'-'
    then with_sign true (unsigned_minor s)
    else with_sign false (unsigned_minor (c ∷ s))

-- `parseMinor` of a text; none is its MoneyParseError.
unfoldable pub parse_minor : Text → Option ℤ
parse_minor raw = parse_cleaned (strip_grouping raw)

-- `parseMinor` of a bigint.
unfoldable pub parse_minor_bigint : ℤ → Option ℤ
parse_minor_bigint raw = if ltb_ℤ raw (pos 0) then none else some raw

abbrev pub decimal_string : ℕ → Text
decimal_string n = to_string (n / 100) ++ b'.' ∷ pad_start 2 (to_string (n % 100))

-- `minorToDecimalString`
unfoldable pub minor_to_decimal_string : ℤ → Text
minor_to_decimal_string minor =
    if ltb_ℤ minor (pos 0)
    then b'-' ∷ decimal_string (neg_part minor)
    else decimal_string (pos_part minor)
