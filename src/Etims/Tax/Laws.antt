-- ===== src/Etims/Tax/Laws.antt =====
-- The amounts of a line of packages/etims/src/tax.ts.
use z_float_2_main.Prelude.{
  ℕ, zero, suc, ◌==◌, sym, ◌∙◌, ◌+◌, ◌*◌, ◌/◌, ◌≤◌, ◌<◌, ◌≡◌, refl, Bool, true, false, ◌||◌, arith,
  if◌then◌else◌,
}
use z_float_2_main.Prelude.Int.{
  ℤ, pos, negsuc, ◌≤ℤ◌, ◌<ℤ◌, ◌-ℤ◌, ◌+ℤ◌, ◌*ℤ◌, ltb_ℤ, leb_ℤ, int_laws,
}
use z_float_2_main.Etims.Tax.{
  TaxType, A, B, C, D, E, tax_rate, TaxError, Checked, computed, refused, refuse_if, or_refuse,
  ◌>>=◌, div_round, tax_on, LineInput, ComputedLine, line_of, compute_line, is_blank, unknown_type,
  read_tax_type, or_else,
}
use z_float_2_main.Text.{trim}

-- The tax is the whole number nearest to the exact value `n / d`, and a tie goes up.
abbrev pub IsRounded : ℤ → ℕ → ℤ → Type 0
IsRounded n d q =
    (pos 2 *ℤ (q *ℤ pos d) ≤ℤ pos 2 *ℤ n +ℤ pos d) × (pos 2 *ℤ n <ℤ pos 2 *ℤ (q *ℤ pos d) +ℤ pos d)

abbrev pub divisor : Bool → ℕ → ℕ
divisor incl rate = if incl then 100 + rate else 100

pos-*ℤ : (a b : ℕ) → pos a *ℤ pos b ≡ pos (a * b)
unfolding ◌*ℤ◌
pos-*ℤ a b = ground arith

pos-+ℤ : (a b : ℕ) → pos a +ℤ pos b ≡ pos (a + b)
unfolding ◌+ℤ◌
pos-+ℤ a b = ground arith

div_round_lem :
    (n d q : ℕ)
    → ((n * 2 + d) / (2 * d) ≡ q)
    → 0 < d
    → (2 * (q * d) ≤ 2 * n + d) × (suc (2 * n) ≤ 2 * (q * d) + d)
div_round_lem n d q e h = grind arith

pos-IsRounded :
    (n d q : ℕ)
    → 2 * (q * d) ≤ 2 * n + d
    → suc (2 * n) ≤ 2 * (q * d) + d
    → IsRounded (pos n) d (pos q)
pos-IsRounded n d q h k =
    rw (pos-*ℤ q d, pos-*ℤ 2 n, pos-*ℤ 2 (q * d), pos-+ℤ (2 * n) d, pos-+ℤ (2 * (q * d)) d)
      (omega arith)

div_round-pos : (n d : ℕ) → 0 < d → div_round (pos n) d ≡ computed (pos ((n * 2 + d) / (2 * d)))
unfolding div_round
div_round-pos n d h = ground arith

-- The tax on a net amount that is not negative.
tax_nat : Bool → ℕ → ℕ → ℕ
tax_nat incl rate n =
    if rate == 0 then 0 else (n * rate * 2 + divisor incl rate) / (2 * divisor incl rate)

tax_nat-le : (incl : Bool) (t : TaxType) (n : ℕ) → tax_nat incl (tax_rate t) n ≤ n
unfolding tax_nat tax_rate
tax_nat-le true A n = omega arith
tax_nat-le true B n = omega arith
tax_nat-le true C n = omega arith
tax_nat-le true D n = omega arith
tax_nat-le true E n = omega arith
tax_nat-le false A n = omega arith
tax_nat-le false B n = omega arith
tax_nat-le false C n = omega arith
tax_nat-le false D n = omega arith
tax_nat-le false E n = omega arith

divisor_pos : (incl : Bool) (rate : ℕ) → 0 < divisor incl rate
divisor_pos true rate = omega arith
divisor_pos false rate = omega arith

suc-not-zero : (r : ℕ) → (suc r == 0) ≡ false
suc-not-zero r = ground arith

tax_nat-IsRounded :
    (incl : Bool) (rate n : ℕ)
    → IsRounded (pos (n * rate)) (divisor incl rate) (pos (tax_nat incl rate n))
unfolding tax_nat
tax_nat-IsRounded incl zero n =
    pos-IsRounded (n * 0) (divisor incl 0) 0 (omega arith) (omega (arith, divisor_pos incl 0))
tax_nat-IsRounded incl (suc r) n =
    let (h, k) =
      div_round_lem (n * suc r) (divisor incl (suc r)) _ refl (divisor_pos incl (suc r)) in
    rw (suc-not-zero r) (pos-IsRounded (n * suc r) (divisor incl (suc r)) _ h k)

tax_on-pos :
    (incl : Bool) (rate n : ℕ) → tax_on incl rate (pos n) ≡ computed (pos (tax_nat incl rate n))
unfolding tax_on tax_nat div_round
tax_on-pos incl zero n = refl
tax_on-pos incl (suc r) n =
    rw (pos-*ℤ n (suc r), suc-not-zero r)
      (div_round-pos (n * suc r) (divisor incl (suc r)) (divisor_pos incl (suc r)))

pub computed-injective : {R : Type 0} {x y : R} → computed x ≡ computed y → x ≡ y
computed-injective h = cc

tax_on_lem :
    (incl : Bool) (t : TaxType) (net tax : ℤ)
    → pos 0 ≤ℤ net
    → tax_on incl (tax_rate t) net ≡ computed tax
    → IsRounded (net *ℤ pos (tax_rate t)) (divisor incl (tax_rate t)) tax
      × (pos 0 ≤ℤ tax)
      × (tax ≤ℤ net)
tax_on_lem incl t (negsuc n) tax h e = absurd (omega arith)
tax_on_lem incl t (pos n) tax h e =
    rw (← computed-injective (sym (tax_on-pos incl (tax_rate t) n) ∙ e), pos-*ℤ n (tax_rate t))
      (tax_nat-IsRounded incl (tax_rate t) n, omega arith, omega (arith, tax_nat-le incl t n))

supply-IsRounded :
    (n supply : ℤ) → pos 0 ≤ℤ n → div_round n 1000 ≡ computed supply → IsRounded n 1000 supply
supply-IsRounded (negsuc n) supply h e = absurd (omega arith)
supply-IsRounded (pos n) supply h e =
    rw (← computed-injective (sym (div_round-pos n 1000 (omega arith)) ∙ e))
      (let (h, k) = div_round_lem n 1000 _ refl (omega arith) in pos-IsRounded n 1000 _ h k)

-- What a run that is not refused went through.
pub passed :
    {R : Type 0} (b : Bool) (e : TaxError) (rest : Unit {0} → Checked R) {x : R}
    → (refuse_if b e >>= rest) ≡ computed x
    → (b ≡ false) × (rest tt ≡ computed x)
passed true e rest h = cc
passed false e rest h = (refl, h)

pub went_on :
    {Q R : Type 0} (m : Checked Q) (rest : Q → Checked R) {x : R}
    → (m >>= rest) ≡ computed x
    → (q : Q) × (m ≡ computed q) × (rest q ≡ computed x)
went_on (computed q) rest h = (q, refl, h)
went_on (refused e) rest h = cc

-- What the amounts of a line have to do with each other.
abbrev pub IsPriced : Bool → ComputedLine → Type 0
IsPriced incl c =
    (pos 0 ≤ℤ c.discount_minor)
    × (c.discount_minor ≤ℤ c.supply_minor)
    × (c.supply_minor -ℤ c.discount_minor ≡ (if incl then c.total_minor else c.net_minor))
    × (c.total_minor ≡ c.net_minor +ℤ c.tax_minor)
    × (pos 0 ≤ℤ c.tax_minor)
    × (pos 0 ≤ℤ c.net_minor)
    × IsRounded ((if incl then c.total_minor else c.net_minor) *ℤ pos (tax_rate c.tax_type))
        (divisor incl (tax_rate c.tax_type)) c.tax_minor

line_of-IsPriced :
    (incl : Bool) (i : ℕ) (l : LineInput) (t : TaxType) (discount supply tax : ℤ)
    → pos 0 ≤ℤ discount
    → discount ≤ℤ supply
    → tax_on incl (tax_rate t) (supply -ℤ discount) ≡ computed tax
    → IsPriced incl (
        line_of i l t discount supply tax
          (if incl then supply -ℤ discount else supply -ℤ discount +ℤ tax))
unfolding line_of
line_of-IsPriced true i l t discount supply tax h k e =
    let (r, p, q) = tax_on_lem true t (supply -ℤ discount) tax (omega int_laws) e in
    (h, k, refl, omega int_laws, p, omega int_laws, r)
line_of-IsPriced false i l t discount supply tax h k e =
    let (r, p, q) = tax_on_lem false t (supply -ℤ discount) tax (omega int_laws) e in
    let back : (supply -ℤ discount) +ℤ tax -ℤ tax ≡ supply -ℤ discount = omega int_laws in
    rw back (h, k, refl, refl, p, omega int_laws, r)

*ℤ-nonneg : (a b : ℤ) → pos 0 ≤ℤ a → pos 0 ≤ℤ b → pos 0 ≤ℤ a *ℤ b
*ℤ-nonneg (pos a) (pos b) h k = rw (pos-*ℤ a b) (omega arith)
*ℤ-nonneg (negsuc a) b h k = absurd (omega arith)
*ℤ-nonneg (pos a) (negsuc b) h k = absurd (omega arith)

module _ (i : ℕ) (l : LineInput) (t : TaxType) (discount supply tax total : ℤ) where
  number : (line_of i l t discount supply tax total).seq ≡ i + 1
  unfolding line_of
  number = refl

  kept : (line_of i l t discount supply tax total).supply_minor ≡ supply
  unfolding line_of
  kept = refl

-- The line of an input, priced: its number, and its amount before the discount.
abbrev pub IsLineOf : Bool → ℕ → LineInput → ComputedLine → Type 0
IsLineOf incl i l c =
    (c.seq ≡ i + 1)
    × IsRounded (l.unit_price_minor *ℤ l.qty_milli) 1000 c.supply_minor
    × IsPriced incl c

pub compute_line-IsLineOf :
    (incl : Bool) (i : ℕ) (l : LineInput) (c : ComputedLine)
    → compute_line incl i l ≡ computed c
    → IsLineOf incl i l c
unfolding compute_line
compute_line-IsLineOf incl i l c e =
    let disc = or_else l.discount_minor (pos 0) in
    let (_, e1) = passed (is_blank (trim l.description)) _ _ e in
    let (q, e2) = passed (leb_ℤ l.qty_milli (pos 0)) _ _ e1 in
    let (p, e3) = passed (ltb_ℤ l.unit_price_minor (pos 0)) _ _ e2 in
    let (t, _, e4) = went_on (or_refuse (unknown_type (i + 1)) (read_tax_type l.tax_type)) _ e3 in
    let (supply, s, e5) = went_on (div_round (l.unit_price_minor *ℤ l.qty_milli) 1000) _ e4 in
    let (d, e6) = passed (ltb_ℤ disc (pos 0) || ltb_ℤ supply disc) _ _ e5 in
    let (tax, x, e7) = went_on (tax_on incl (tax_rate t) (supply -ℤ disc)) _ e6 in
    let gross =
      supply-IsRounded (l.unit_price_minor *ℤ l.qty_milli) supply
        (*ℤ-nonneg l.unit_price_minor l.qty_milli (ground arith) (ground arith)) s in
    let sign : (pos 0 ≤ℤ disc) × (disc ≤ℤ supply) = ground arith in
    let line : line_of i l t disc supply tax
          (if incl then supply -ℤ disc else supply -ℤ disc +ℤ tax)
        ≡ c =
      computed-injective e7 in
    rw (← line) (
      number i l t disc supply tax _,
      rw (kept i l t disc supply tax _) gross,
      line_of-IsPriced incl i l t disc supply tax sign.0 sign.1 x,
    )
