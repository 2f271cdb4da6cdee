-- ===== src/Etims/Tests.antt =====
-- Runs of the tax engine.
use z_float_2_main.Prelude.{◌≡◌, refl, true, none, some, List, [], ◌∷◌}
use z_float_2_main.Prelude.Int.{pos, ◌+ℤ◌, ◌-ℤ◌, ◌*ℤ◌}
use z_float_2_main.Text.{codes, trim, to_string, digits, is_space, drop_spaces}
use z_float_2_main.Etims.Tax.{
  B, E, tax_rate, read_tax_type, computed, div_round, LineInput, tax_on, line_of, compute_line,
}
use z_float_2_main.Etims.Tax.Document.{
  bucket, set_bucket, empty_bucket, empty_summary, no_sums, add_to_bucket, add_line, compute_lines,
  ComputedDocument, compute_document,
}
use z_float_2_main.Etims.Tax.Document.Totals.{IsTotalOf}
use z_float_2_main.Etims.Tax.Document.Sound.{sums_of, compute_document-IsTotalOf}

-- What the runs compute with.
abbrev defs : Unit {0}
unfolding is_space drop_spaces trim digits to_string tax_rate read_tax_type div_round tax_on line_of
    compute_line bucket set_bucket empty_bucket empty_summary no_sums add_to_bucket add_line
    compute_lines compute_document ◌+ℤ◌ ◌-ℤ◌ ◌*ℤ◌
defs = tt

-- 1.5 units at 10.01, less 1.00, with VAT; and a unit at 0.99 with the reduced rate.
abbrev inputs : List LineInput
inputs =
    record {
      description = codes " Flour ";
      qty_milli = pos 1500;
      unit_price_minor = pos 1001;
      discount_minor = some (pos 100);
      tax_type = "B";
      item_code = none;
      item_class_code = none;
      unit_code = some (codes "KG");
    }
    ∷ record {
      description = codes "Fuel";
      qty_milli = pos 1000;
      unit_price_minor = pos 99;
      discount_minor = none;
      tax_type = "E";
      item_code = some (codes "X1");
      item_class_code = none;
      unit_code = none;
    }
    ∷ []

abbrev document : ComputedDocument
document = record {
  lines =
      record {
        seq = 1;
        description = codes "Flour";
        qty_milli = pos 1500;
        unit_price_minor = pos 1001;
        discount_minor = pos 100;
        tax_type = B;
        tax_rate = 16;
        supply_minor = pos 1502;
        taxable_minor = pos 1402;
        tax_minor = pos 193;
        total_minor = pos 1402;
        net_minor = pos 1209;
        item_code = codes "KE2NTU0000001";
        item_class_code = codes "99000000";
        unit_code = codes "KG";
      }
      ∷ record {
        seq = 2;
        description = codes "Fuel";
        qty_milli = pos 1000;
        unit_price_minor = pos 99;
        discount_minor = pos 0;
        tax_type = E;
        tax_rate = 8;
        supply_minor = pos 99;
        taxable_minor = pos 99;
        tax_minor = pos 7;
        total_minor = pos 99;
        net_minor = pos 92;
        item_code = codes "X1";
        item_class_code = codes "99000000";
        unit_code = codes "U";
      }
      ∷ [];
  tax_summary = record {
    a = record { rate = 0; taxable_minor = pos 0; tax_minor = pos 0 };
    b = record { rate = 16; taxable_minor = pos 1402; tax_minor = pos 193 };
    c = record { rate = 0; taxable_minor = pos 0; tax_minor = pos 0 };
    d = record { rate = 0; taxable_minor = pos 0; tax_minor = pos 0 };
    e = record { rate = 8; taxable_minor = pos 99; tax_minor = pos 7 };
  };
  subtotal_minor = pos 1301;
  tax_minor = pos 200;
  total_minor = pos 1501;
}

ran : compute_document true inputs ≡ computed document
unfolding defs
ran = refl

compute_document-IsTotalOf_example :
    IsTotalOf document.lines (sums_of document) × (pos 1501 ≡ pos 1301 +ℤ pos 200)
compute_document-IsTotalOf_example = compute_document-IsTotalOf true inputs document ran
