-- ===== src/Base/Decimal.antt =====
-- The decimal text of a number, read back by `int()`.
use Prim.Native.Char.{Char, code}
use text.Mathlib.TextLemmas.{cons-append, nil-append}
use odoo_operator.Base.{
  ℕ, zero, suc, ◌+◌, ◌*◌, ◌/◌, ◌%◌, ◌<◌, String, ◌<>◌, ◌≡◌, refl, ap, ◌∙◌, Bool, true, false, some,
  List, ◌∷◌, arith, ltb, chars, digit, digits, decimal, is_digit, digit_in, other_zeros,
  digits_value, inl, inr, Bool-cases, All,
}

-- A character that is the digit of this number.
abbrev pub IsDigit : Char → ℕ → Type 0
IsDigit c d = code c ≡ 48 + d

-- A text of one character, before another.
one-append : (c : Char) (s : String) → chars (String.◌∷◌ c String.[] <> s) ≡ c ∷ chars s
one-append c s = ap chars (cons-append c String.[] s ∙ ap (String.◌∷◌ c) (nil-append s))

-- The text of a digit is one character, its digit.
digit-IsDigit :
    (d : ℕ)
    → d < 10
    → (c : Char) × IsDigit c d × ((acc : String) → chars (digit d <> acc) ≡ c ∷ chars acc)
unfolding digit
digit-IsDigit zero h = ("0", refl, one-append "0")
digit-IsDigit (suc zero) h = ("1", refl, one-append "1")
digit-IsDigit (suc (suc zero)) h = ("2", refl, one-append "2")
digit-IsDigit (suc (suc (suc zero))) h = ("3", refl, one-append "3")
digit-IsDigit (suc (suc (suc (suc zero)))) h = ("4", refl, one-append "4")
digit-IsDigit (suc (suc (suc (suc (suc zero))))) h = ("5", refl, one-append "5")
digit-IsDigit (suc (suc (suc (suc (suc (suc zero)))))) h = ("6", refl, one-append "6")
digit-IsDigit (suc (suc (suc (suc (suc (suc (suc zero))))))) h = ("7", refl, one-append "7")
digit-IsDigit (suc (suc (suc (suc (suc (suc (suc (suc zero)))))))) h = ("8", refl, one-append "8")
digit-IsDigit (suc (suc (suc (suc (suc (suc (suc (suc (suc zero))))))))) h =
    ("9", refl, one-append "9")
digit-IsDigit (suc (suc (suc (suc (suc (suc (suc (suc (suc (suc d)))))))))) h = absurd (omega arith)

digit_in-IsDigit :
    (zs : List ℕ) (c : Char) (d : ℕ) → d < 10 → IsDigit c d → digit_in (48 ∷ zs) (code c) ≡ some d
unfolding digit_in
digit_in-IsDigit zs c d h e = rw e (ground arith)

is_digit-IsDigit : (c : Char) (d : ℕ) → d < 10 → IsDigit c d → is_digit (code c) ≡ true
is_digit-IsDigit c d h e = rw e (ground arith)

digits_value-IsDigit :
    (c : Char) (d a : ℕ) (after : Bool) (cs : List Char)
    → d < 10
    → IsDigit c d
    → digits_value a after (c ∷ cs) ≡ digits_value (a * 10 + d) true cs
unfolding digits_value
digits_value-IsDigit c d a after cs h e =
    rw (digits_value, digit_in-IsDigit other_zeros c d h e) refl

digit-value :
    (d a n : ℕ) (after : Bool) (acc : String)
    → d < 10
    → a * 10 + d ≡ n
    → digits_value a after (chars (digit d <> acc)) ≡ digits_value n true (chars acc)
digit-value d a n after acc h same =
    let (c, e, q) = digit-IsDigit d h in
    ap (digits_value a after) (q acc)
    ∙ digits_value-IsDigit c d a after (chars acc) h e
    ∙ ap (λ m. digits_value m true (chars acc)) same

digit-All :
    (d : ℕ) (acc : String)
    → d < 10
    → All (λ c. is_digit (code c) ≡ true) (chars acc)
    → All (λ c. is_digit (code c) ≡ true) (chars (digit d <> acc))
digit-All d acc h a = let (c, e, q) = digit-IsDigit d h in rw (q acc) (is_digit-IsDigit c d h e, a)

-- The characters of a number's text are digits, which have its value.
digits-value :
    (fuel n : ℕ) (after : Bool) (acc : String)
    → n < fuel
    → digits_value 0 after (chars (digits fuel n acc)) ≡ digits_value n true (chars acc)
unfolding digits
digits-value zero n after acc h = absurd (omega arith)
digits-value (suc fuel) n after acc h = elim (Bool-cases (ltb n 10)) [
  | inl e ↦ rw e (digit-value n 0 n after acc (ground arith) (omega arith))
  | inr e ↦ rw e (
      digits-value fuel (n / 10) after (digit (n % 10) <> acc) (ground arith)
      ∙ digit-value (n % 10) (n / 10) n true acc (omega arith) (omega arith))
]

-- They are digits before those that are written.
digits-All :
    (fuel n : ℕ) (acc : String)
    → n < fuel
    → All (λ c. is_digit (code c) ≡ true) (chars acc)
    → All (λ c. is_digit (code c) ≡ true) (chars (digits fuel n acc))
unfolding digits
digits-All zero n acc h a = absurd (omega arith)
digits-All (suc fuel) n acc h a = elim (Bool-cases (ltb n 10)) [
  | inl e ↦ rw e (digit-All n acc (ground arith) a)
  | inr e ↦ rw e (
      digits-All fuel (n / 10) (digit (n % 10) <> acc) (ground arith)
        (digit-All (n % 10) acc (omega arith) a))
]

-- The text has a character at least.
digits-cons :
    (fuel n : ℕ) (acc : String)
    → n < fuel
    → (c : Char) × (cs : List Char) × (chars (digits fuel n acc) ≡ c ∷ cs)
unfolding digits
digits-cons zero n acc h = absurd (omega arith)
digits-cons (suc fuel) n acc h = elim (Bool-cases (ltb n 10)) [
  | inl e ↦ let (c, i, q) = digit-IsDigit n (ground arith) in rw e (c, chars acc, q acc)
  | inr e ↦ rw e (digits-cons fuel (n / 10) (digit (n % 10) <> acc) (ground arith))
]

-- The text of a number.
abbrev pub AreDigits : List Char → Type 0
AreDigits = All (λ c. is_digit (code c) ≡ true)

pub decimal-value : (n : ℕ) → digits_value 0 false (chars (decimal n)) ≡ some n
unfolding decimal digits_value
decimal-value n = digits-value (suc n) n false "" (omega arith)

pub decimal-AreDigits : (n : ℕ) → AreDigits (chars (decimal n))
unfolding decimal
decimal-AreDigits n = digits-All (suc n) n "" (omega arith) tt

pub decimal-cons : (n : ℕ) → (c : Char) × (cs : List Char) × (chars (decimal n) ≡ c ∷ cs)
unfolding decimal
decimal-cons n = digits-cons (suc n) n "" (omega arith)
