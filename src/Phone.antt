-- ===== src/Phone.antt =====
-- packages/validation/src/phone.ts: Kenyan telephone numbers.
use z_float_2_main.Prelude.{
  keep-all, all-keep, ℕ, ◌≡◌, refl, Bool, true, false, not, ◌&&◌, ◌||◌, Option, none, some, [], ◌∷◌,
  length, all, keep, arith, ◌==◌, if◌then◌else◌,
}
use z_float_2_main.Text.{Text, is_digit}

-- `[0-9+]`
abbrev pub is_phone_char : ℕ → Bool
is_phone_char c = is_digit c || c == b'+'

abbrev pub drop_plus : Text → Text
drop_plus [] = []
drop_plus (c ∷ s) = if c == b'+' then s else c ∷ s

abbrev pub with_country : Text → Text
with_country [] = []
with_country (c ∷ s) = if c == b'0' then b'2' ∷ b'5' ∷ b'4' ∷ s else c ∷ s

-- `digits.startsWith("254")`
abbrev pub in_kenya : Text → Bool
in_kenya (a ∷ b ∷ c ∷ s) = a == b'2' && b == b'5' && c == b'4'
in_kenya _ = false

abbrev pub accept_phone : Text → Option Text
accept_phone digits =
    if not (length digits == 12) || not (in_kenya digits) then none else some (b'+' ∷ digits)

-- `normalizeKenyanPhone`
unfoldable pub normalize_kenyan_phone : Text → Option Text
normalize_kenyan_phone [] = none
normalize_kenyan_phone (c ∷ s) =
    accept_phone (with_country (drop_plus (keep is_phone_char (c ∷ s))))

all-drop_plus : (s : Text) → all is_phone_char s ≡ true → all is_phone_char (drop_plus s) ≡ true
all-drop_plus [] h = refl
all-drop_plus (c ∷ s) h = ground arith

all-with_country :
    (s : Text) → all is_phone_char s ≡ true → all is_phone_char (with_country s) ≡ true
all-with_country [] h = refl
all-with_country (c ∷ s) h = ground arith

with_country-in_kenya : (s : Text) → in_kenya s ≡ true → with_country s ≡ s
with_country-in_kenya [] h = refl
with_country-in_kenya (a ∷ []) h = cc
with_country-in_kenya (a ∷ b ∷ []) h = cc
with_country-in_kenya (a ∷ b ∷ c ∷ s) h = ground arith

accept_phone-cases :
    (d p : Text) → accept_phone d ≡ some p → (length d ≡ 12) × (in_kenya d ≡ true) × (b'+' ∷ d ≡ p)
accept_phone-cases d p h = ground arith

accept_phone_lem :
    (d : Text) → (length d == 12) ≡ true → in_kenya d ≡ true → accept_phone d ≡ some (b'+' ∷ d)
accept_phone_lem d h k = rw (h, k) refl

-- A number that was normalised stays as it is when it is normalised again.
pub normalize_kenyan_phone_again :
    (raw p : Text) → normalize_kenyan_phone raw ≡ some p → normalize_kenyan_phone p ≡ some p
unfolding normalize_kenyan_phone
normalize_kenyan_phone_again [] p h = cc
normalize_kenyan_phone_again (c ∷ s) p h =
    let digits = with_country (drop_plus (keep is_phone_char (c ∷ s))) in
    let (long, here, spelt) = accept_phone-cases digits p h in
    let clean : all is_phone_char digits ≡ true =
      all-with_country (drop_plus (keep is_phone_char (c ∷ s)))
        (all-drop_plus (keep is_phone_char (c ∷ s)) (all-keep is_phone_char (c ∷ s))) in
    rw (← spelt, keep-all is_phone_char digits clean, with_country-in_kenya digits here)
      (accept_phone_lem digits (ground arith) here)
