-- ===== src/Timestamp/Digits.antt =====
-- The digits that an insertion of include/Timestamp.h writes.
use dynalog.Base.{
  ℕ, suc, ◌+◌, ◌/◌, ◌%◌, ◌<◌, ◌≤◌, ◌≡◌, refl, ap, [], ◌∷◌, ◌++◌, arith, length, ltb, Bool-cases,
  inl, inr, true, false,
}
use dynalog.Timestamp.Stream.{Text, digits, padding}

-- The numeral of a digit, and numbers of two and of four digits.
abbrev pub numeral : ℕ → ℕ
numeral n = 48 + n % 10

abbrev pub two : ℕ → Text
two n = numeral (n / 10) ∷ numeral n ∷ []

abbrev pub four : ℕ → Text
four n = numeral (n / 1000) ∷ numeral (n / 100) ∷ numeral (n / 10) ∷ numeral n ∷ []

one_digit : (rounds n : ℕ) → n < 10 → digits 10 false (suc rounds) n ≡ numeral n ∷ []
unfolding digits
one_digit rounds n h =
    let e : ltb n 10 ≡ true = ground arith in rw e (ap (λ k. k ∷ []) (omega arith))

more_digits :
    (rounds n : ℕ)
    → 10 ≤ n
    → digits 10 false (suc rounds) n ≡ digits 10 false rounds (n / 10) ++ numeral n ∷ []
unfolding digits
more_digits rounds n h =
    let e : ltb n 10 ≡ false = ground arith in
    let f : ltb (n % 10) 10 ≡ true = ground arith in rw (e, f) refl

pub two-padding :
    (n : ℕ) → n < 100 → padding 48 2 (length (digits 10 false 22 n)) ++ digits 10 false 22 n ≡ two n
two-padding n h = elim (Bool-cases (ltb n 10)) [
  | inl e ↦
      let z : numeral (n / 10) ≡ 48 = ground (arith, e) in
      rw (one_digit 21 n (ground (arith, e)), z) refl
  | inr e ↦ rw (more_digits 21 n (ground (arith, e)), one_digit 20 (n / 10) (omega (arith, h))) refl
]

pub four-padding :
    (fill n : ℕ)
    → 1000 ≤ n
    → n < 10000
    → padding fill 4 (length (digits 10 false 22 n)) ++ digits 10 false 22 n ≡ four n
four-padding fill n l h =
    let a : n / 10 / 10 ≡ n / 100 = omega arith in
    let b : n / 100 / 10 ≡ n / 1000 = omega arith in
    rw
      (
        more_digits 21 n (omega (arith, l)),
        more_digits 20 (n / 10) (omega (arith, l)),
        a,
        more_digits 19 (n / 100) (omega (arith, l)),
        b,
        one_digit 18 (n / 1000) (omega (arith, h)),
      )
      refl
