-- ===== src/Money/Digits.antt =====
-- The decimal print of a number, and what reading it gives.
use z_float_2_main.Prelude.{
  ℕ, zero, suc, ◌+◌, ◌-◌, ◌*◌, ◌/◌, ◌%◌, ◌<◌, ◌≡◌, refl, true, [], ◌∷◌, ◌++◌, all, all-append,
  arith, ltb, Bool-cases, inl, inr, length, length-append,
}
use z_float_2_main.Text.{Text, digits, to_string, is_digit, value_from, big_int, pad_start}

value_from-append : (n : ℕ) (s t : Text) → value_from n (s ++ t) ≡ value_from (value_from n s) t
value_from-append n [] t = refl
value_from-append n (c ∷ s) t = value_from-append (n * 10 + (c - b'0')) s t

digits-value : (fuel n : ℕ) → n < fuel → value_from 0 (digits fuel n) ≡ n
unfolding digits
digits-value zero n h = absurd (omega arith)
digits-value (suc fuel) n h = elim (Bool-cases (ltb n 10)) [
  | inl small ↦ rw small (omega arith)
  | inr large ↦
      let less : n / 10 < fuel = ground arith in
      rw
        (
          large,
          value_from-append 0 (digits fuel (n / 10)) ((b'0' + n % 10) ∷ []),
          digits-value fuel (n / 10) less,
        )
        (omega arith)
]

digits-all : (fuel n : ℕ) → all is_digit (digits fuel n) ≡ true
unfolding digits
digits-all zero n = refl
digits-all (suc fuel) n = elim (Bool-cases (ltb n 10)) [
  | inl small ↦ rw small (ground arith)
  | inr large ↦ rw large (
      all-append is_digit (digits fuel (n / 10)) ((b'0' + n % 10) ∷ []) (digits-all fuel (n / 10))
        (ground arith))
]

-- Printing a number and reading it again gives the number.
pub big_int-to_string : (n : ℕ) → big_int (to_string n) ≡ n
unfolding to_string
big_int-to_string n = digits-value (suc n) n (omega arith)

pub to_string-all : (n : ℕ) → all is_digit (to_string n) ≡ true
unfolding to_string
to_string-all n = digits-all (suc n) n

digits-some : (fuel n : ℕ) → 0 < length (digits (suc fuel) n)
unfolding digits
digits-some fuel n = elim (Bool-cases (ltb n 10)) [
  | inl small ↦ rw small (omega arith)
  | inr large ↦
      rw (large, length-append (digits fuel (n / 10)) ((b'0' + n % 10) ∷ [])) (omega arith)
]

pub to_string-some : (n : ℕ) → 0 < length (to_string n)
unfolding to_string
to_string-some n = digits-some n n

pair_eq : (a b c d : ℕ) → a ≡ c → b ≡ d → ◌≡◌ {A = Text} (a ∷ b ∷ []) (c ∷ d ∷ [])
pair_eq a b c d h k = cc

pub two_digits :
    (n : ℕ) → n < 100 → pad_start 2 (to_string n) ≡ (b'0' + n / 10) ∷ (b'0' + n % 10) ∷ []
unfolding to_string digits
two_digits zero h = refl
two_digits (suc n) h = elim (Bool-cases (ltb (suc n) 10)) [
  | inl small ↦ rw small (pair_eq _ _ _ _ (ground arith) (ground arith))
  | inr large ↦ let tens : ltb (suc n / 10) 10 ≡ true = ground arith in rw (large, tens) refl
]
