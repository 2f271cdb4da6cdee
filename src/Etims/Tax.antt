-- ===== src/Etims/Tax.antt =====
-- packages/etims/src/tax.ts: the amounts and the tax of a fiscal document.
pub mod Document
pub mod Laws
use Prim.Native.String.{String}
use text.Mathlib.Text.{◌==◌ as str_eq}
use z_float_2_main.Prelude.{
  take, ℕ, suc, ◌+◌, ◌*◌, ◌/◌, Bool, true, false, ◌||◌, Option, none, some, List, [], ◌∷◌, ◌++◌,
  length, ltb, ◌==◌, if◌then◌else◌,
}
use z_float_2_main.Prelude.Int.{ℤ, pos, pos_part, neg_part, ◌+ℤ◌, ◌-ℤ◌, ◌*ℤ◌, ltb_ℤ, leb_ℤ}
use z_float_2_main.Text.{Text, codes, trim, pad_start, to_string}

pub data TaxType : Type 0 where
  A B C D E : TaxType

-- `TAX_RATES`, in percent.
unfoldable pub tax_rate : TaxType → ℕ
tax_rate A = 0
tax_rate B = 16
tax_rate C = 0
tax_rate D = 0
tax_rate E = 8

-- `isTaxType`, with the type that the text names.
unfoldable pub read_tax_type : String → Option TaxType
read_tax_type v =
    if str_eq v "A"
    then some A
    else if str_eq v "B"
    then some B
    else if str_eq v "C"
    then some C
    else if str_eq v "D"
    then some D
    else if str_eq v "E"
    then some E
    else none

-- `TaxComputationError`, and the plain error of a division by zero. The number is that of the line.
pub data TaxError : Type 0 where
  no_lines too_many_lines total_not_positive division_by_zero : TaxError
  no_description quantity_not_positive negative_price unknown_type invalid_discount : ℕ → TaxError

pub data Checked (R : Type 0) : Type 0 where
  computed : R → Checked R
  refused : TaxError → Checked R

infixl 10 ◌>>=◌ ◌>>◌
abbrev pub ◌>>=◌ : {R S : Type 0} → Checked R → (R → Checked S) → Checked S
computed r >>= rest = rest r
refused e >>= rest = refused e

abbrev pub ◌>>◌ : {R S : Type 0} → Checked R → Checked S → Checked S
first >> second = first >>= λ _. second

-- `if (b) throw …`
abbrev pub refuse_if : Bool → TaxError → Checked (Unit {0})
refuse_if true e = refused e
refuse_if false e = computed tt

abbrev pub or_refuse : {R : Type 0} → TaxError → Option R → Checked R
or_refuse e none = refused e
or_refuse e (some r) = computed r

-- `divRound`
unfoldable pub div_round : ℤ → ℕ → Checked ℤ
div_round n d =
    let q = ((pos_part n + neg_part n) * 2 + d) / (2 * d) in
    if d == 0
    then refused division_by_zero
    else computed (if ltb_ℤ n (pos 0) then pos 0 -ℤ pos q else pos q)

pub record LineInput : Type 0 where
  pub description : Text
  pub qty_milli : ℤ
  pub unit_price_minor : ℤ
  pub discount_minor : Option ℤ
  pub tax_type : String
  pub item_code : Option Text
  pub item_class_code : Option Text
  pub unit_code : Option Text

-- The source prints the amounts; here they stay numbers.
pub record ComputedLine : Type 0 where
  pub seq : ℕ
  pub description : Text
  pub qty_milli : ℤ
  pub unit_price_minor : ℤ
  pub discount_minor : ℤ
  pub tax_type : TaxType
  pub tax_rate : ℕ
  pub supply_minor : ℤ
  pub taxable_minor : ℤ
  pub tax_minor : ℤ
  pub total_minor : ℤ
  pub net_minor : ℤ
  pub item_code : Text
  pub item_class_code : Text
  pub unit_code : Text

-- `x ?? y`
abbrev pub or_else : {R : Type 0} → Option R → R → R
or_else none y = y
or_else (some x) y = x

abbrev pub is_blank : Text → Bool
is_blank [] = true
is_blank (c ∷ s) = false

abbrev pub default_item_class_code : Text
default_item_class_code = codes "99000000"

-- `lineTax` of a net amount, in both ways to quote a price.
unfoldable pub tax_on : Bool → ℕ → ℤ → Checked ℤ
tax_on prices_include_tax rate net =
    if rate == 0
    then computed (pos 0)
    else div_round (net *ℤ pos rate) (if prices_include_tax then 100 + rate else 100)

unfoldable pub line_of : ℕ → LineInput → TaxType → ℤ → ℤ → ℤ → ℤ → ComputedLine
line_of i l t discount supply tax total = record {
  seq = i + 1;
  description = take 200 (trim l.description);
  qty_milli = l.qty_milli;
  unit_price_minor = l.unit_price_minor;
  discount_minor = discount;
  tax_type = t;
  tax_rate = tax_rate t;
  supply_minor = supply;
  taxable_minor = total;
  tax_minor = tax;
  total_minor = total;
  net_minor = total -ℤ tax;
  item_code = or_else l.item_code (codes "KE2NTU" ++ pad_start 7 (to_string (i + 1)));
  item_class_code = or_else l.item_class_code default_item_class_code;
  unit_code = or_else l.unit_code (codes "U");
}

-- The body of `inputs.map((l, i) => …)`, up to the sums.
unfoldable pub compute_line : Bool → ℕ → LineInput → Checked ComputedLine
compute_line prices_include_tax i l = do
  refuse_if (is_blank (trim l.description)) (no_description (i + 1))
  refuse_if (leb_ℤ l.qty_milli (pos 0)) (quantity_not_positive (i + 1))
  refuse_if (ltb_ℤ l.unit_price_minor (pos 0)) (negative_price (i + 1))
  t ← or_refuse (unknown_type (i + 1)) (read_tax_type l.tax_type)
  let discount = or_else l.discount_minor (pos 0)
  supply ← div_round (l.unit_price_minor *ℤ l.qty_milli) 1000
  refuse_if (ltb_ℤ discount (pos 0) || ltb_ℤ supply discount) (invalid_discount (i + 1))
  let net = supply -ℤ discount
  tax ← tax_on prices_include_tax (tax_rate t) net
  computed (line_of i l t discount supply tax (if prices_include_tax then net else net +ℤ tax))
