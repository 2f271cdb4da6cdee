-- ===== src/Money/Tests.antt =====
-- Amounts as text.
use z_float_2_main.Prelude.{◌≡◌, refl, some, none}
use z_float_2_main.Prelude.Int.{pos, negsuc, ◌-ℤ◌}
use z_float_2_main.Text.{codes, is_space, digits, to_string}
use z_float_2_main.Money.{
  strip_grouping, is_comma_grouped, is_dot_grouped, is_plain, decimal_separator, parse_minor,
  minor_to_decimal_string,
}
use z_float_2_main.Money.RoundTrip.{parse_minor-minor_to_decimal_string}

defs : Unit {0}
unfolding is_space digits to_string strip_grouping is_comma_grouped is_dot_grouped is_plain
    decimal_separator parse_minor minor_to_decimal_string ◌-ℤ◌
defs = tt

grouped :
    (parse_minor (codes "1,234.50") ≡ some (pos 123450))
    × (parse_minor (codes "1.234.567,8") ≡ some (pos 123456780))
unfolding defs
grouped = (refl, refl)

plain :
    (parse_minor (codes " 12 345 ") ≡ some (pos 1234500))
    × (parse_minor (codes "-0,5") ≡ some (negsuc 49))
unfolding defs
plain = (refl, refl)

-- One group behind a dot is refused, as it may be a fraction; so is no number.
refuses : (parse_minor (codes "1.234") ≡ none) × (parse_minor (codes "1e3") ≡ none)
unfolding defs
refuses = (refl, refl)

parse_minor-minor_to_decimal_string_example :
    parse_minor (minor_to_decimal_string (negsuc 4)) ≡ some (negsuc 4)
parse_minor-minor_to_decimal_string_example = parse_minor-minor_to_decimal_string (negsuc 4)

five_cents : minor_to_decimal_string (negsuc 4) ≡ codes "-0.05"
unfolding defs
five_cents = refl
