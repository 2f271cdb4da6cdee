-- ===== src/Text.antt =====
-- JavaScript strings as lists of code units, with the methods that packages/etims and
-- packages/money call: `trim`, `slice`, `padStart`, and the decimal print and reading of a bigint.
use Prim.Native.Char.{code}
use Prim.Native.String.{String}
use z_float_2_main.Prelude.Int.{ℤ, pos, ◌-ℤ◌}
use z_float_2_main.Prelude.{
  reverse, Option, none, some, not, ℕ, zero, suc, ◌+◌, ◌-◌, ◌*◌, ◌/◌, ◌%◌, Bool, ◌&&◌, ◌||◌, List,
  [], ◌∷◌, ◌++◌, length, ltb, leb, all, false, ◌==◌, if◌then◌else◌,
}

abbrev pub Text : Type 0
Text = List ℕ

-- The code units of an ASCII literal.
abbrev pub codes : String → Text
codes String.[] = []
codes (String.◌∷◌ c s) = code c ∷ codes s

-- `\s`, which is also what `trim` takes away.
unfoldable pub is_space : ℕ → Bool
is_space c =
    leb 9 c && leb c 13
    || c == 32
    || c == 160
    || c == 5760
    || leb 8192 c && leb c 8202
    || c == 8232
    || c == 8233
    || c == 8239
    || c == 8287
    || c == 12288
    || c == 65279

unfoldable pub drop_spaces : Text → Text
drop_spaces [] = []
drop_spaces (c ∷ s) = if is_space c then drop_spaces s else c ∷ s

unfoldable pub trim : Text → Text
trim s = reverse (drop_spaces (reverse (drop_spaces s)))

abbrev pub repeat : ℕ → ℕ → Text
repeat zero c = []
repeat (suc n) c = c ∷ repeat n c

-- `s.padStart(n, "0")`
abbrev pub pad_start : ℕ → Text → Text
pad_start n s = repeat (n - length s) b'0' ++ s

-- The decimal digits of `n`; `fuel` bounds their number.
unfoldable pub digits : ℕ → ℕ → Text
digits zero n = []
digits (suc fuel) n =
    let front = digits fuel (n / 10) in
    if ltb n 10 then (b'0' + n) ∷ [] else front ++ (b'0' + n % 10) ∷ []

-- `n.toString()` of a bigint that is not negative.
unfoldable pub to_string : ℕ → Text
to_string n = digits (suc n) n

abbrev pub is_digit : ℕ → Bool
is_digit c = leb b'0' c && leb c b'9'

abbrev pub value_from : ℕ → Text → ℕ
value_from n [] = n
value_from n (c ∷ s) = value_from (n * 10 + (c - b'0')) s

-- `BigInt(s)` of digits; of the empty text it is 0.
abbrev pub big_int : Text → ℕ
big_int s = value_from 0 s

-- `/^\d+$/`
abbrev pub is_number : Text → Bool
is_number [] = false
is_number (c ∷ s) = all is_digit (c ∷ s)

-- `BigInt(s)` of a text: spaces around it are dropped, a sign may stand before decimal digits, and
-- `0x`, `0o` or `0b` before those of another base. None is its SyntaxError.
abbrev digit_value : ℕ → ℕ
digit_value c =
    if is_digit c
    then c - b'0'
    else if leb b'a' c && leb c b'f'
    then c - b'a' + 10
    else if leb b'A' c && leb c b'F'
    then c - b'A' + 10
    else 16

abbrev radix_from : ℕ → ℕ → Text → Option ℕ
radix_from base n [] = some n
radix_from base n (c ∷ s) =
    let rest = radix_from base (n * base + digit_value c) s in
    if ltb (digit_value c) base then rest else none

abbrev radix : ℕ → Text → Option ℕ
radix base [] = none
radix base (c ∷ s) = radix_from base 0 (c ∷ s)

abbrev as_positive : Option ℕ → Option ℤ
as_positive none = none
as_positive (some n) = some (pos n)

abbrev as_negative : Option ℕ → Option ℤ
as_negative none = none
as_negative (some n) = some (pos 0 -ℤ pos n)

abbrev signed : Text → Option ℤ
signed [] = some (pos 0)
signed (c ∷ s) =
    if c == b'-'
    then as_negative (radix 10 s)
    else if c == b'+'
    then as_positive (radix 10 s)
    else as_positive (radix 10 (c ∷ s))

abbrev base_of : ℕ → ℕ → ℕ
base_of c d =
    if not (c == b'0')
    then 10
    else if d == b'x' || d == b'X'
    then 16
    else if d == b'o' || d == b'O'
    then 8
    else if d == b'b' || d == b'B'
    then 2
    else 10

abbrev literal : Text → Option ℤ
literal (c ∷ d ∷ s) =
    if base_of c d == 10 then signed (c ∷ d ∷ s) else as_positive (radix (base_of c d) s)
literal t = signed t

unfoldable pub read_big_int : Text → Option ℤ
read_big_int s = literal (trim s)
