-- ===== src/Base/Strip.antt =====
-- `str.strip` and `str.rstrip` on lists of characters, and `int()` of a number's text.
use Prim.Native.Char.{Char, code}
use text.Mathlib.TextLemmas.{cons-append, nil-append}
use odoo_operator.Base.{
  ℕ, String, ◌<>◌, ◌≡◌, refl, subst, ap, ◌∙◌, Bool, true, false, Option, some, none, List, [], ◌∷◌,
  ◌++◌, ◌+◌, ◌*◌, arith, chars, decimal, is_digit, digit_of, ◌⊎◌, is_space, digits_value,
  space_char, strip, lstrip_by, rstrip_by, signed_value, int_text, with_sign, ◌&&◌, parse_int, All,
  All-imp, inl, inr, Bool-cases, ◌==◌,
}
use odoo_operator.Base.Decimal.{AreDigits, decimal-value, decimal-AreDigits, decimal-cons}

pub chars-append : (s t : String) → chars (s <> t) ≡ chars s ++ chars t
chars-append String.[] t = ap chars (nil-append t)
chars-append (String.◌∷◌ c s) t =
    ap chars (cons-append c s t) ∙ ap (λ cs. c ∷ cs) (chars-append s t)

module _ (p : Char → Bool) where
  pub rstrip_by-keeps : (cs : List Char) → All (λ c. p c ≡ false) cs → rstrip_by p cs ≡ cs
  unfolding rstrip_by
  rstrip_by-keeps [] a = refl
  rstrip_by-keeps (c ∷ []) a = rw a.0 refl
  rstrip_by-keeps (c ∷ d ∷ cs) a = rw (rstrip_by-keeps (d ∷ cs) a.1) refl

  pub rstrip_by-append :
      (cs ts : List Char) → All (λ c. p c ≡ true) ts → rstrip_by p (cs ++ ts) ≡ rstrip_by p cs
  unfolding rstrip_by
  rstrip_by-append [] [] a = refl
  rstrip_by-append [] (t ∷ ts) a = rw (rstrip_by-append [] ts a.1) (rw a.0 refl)
  rstrip_by-append (c ∷ cs) ts a = rw (rstrip_by-append cs ts a) refl

  -- A last character that is not stripped stays, with what is before it.
  pub rstrip_by-ends :
      (cs : List Char) (c : Char) → p c ≡ false → rstrip_by p (cs ++ (c ∷ [])) ≡ cs ++ (c ∷ [])
  unfolding rstrip_by
  rstrip_by-ends [] c e = rw e refl
  rstrip_by-ends (d ∷ []) c e = rw (rstrip_by, rstrip_by-ends [] c e) refl
  rstrip_by-ends (d ∷ d' ∷ cs) c e = rw (rstrip_by, rstrip_by-ends (d' ∷ cs) c e) refl

  pub lstrip_by-ends :
      (cs : List Char) (c : Char)
      → p c ≡ false
      → (ds : List Char) × (lstrip_by p (cs ++ (c ∷ [])) ≡ ds ++ (c ∷ []))
  unfolding lstrip_by
  lstrip_by-ends [] c e = ([], rw e refl)
  lstrip_by-ends (d ∷ cs) c e = elim (Bool-cases (p d)) [
    | inl q ↦ let (ds, r) = lstrip_by-ends cs c e in (ds, rw q r)
    | inr q ↦ (d ∷ cs, rw q refl)
  ]

-- A digit is no white space and no sign.
digit-space : (c : Char) → is_digit (code c) ≡ true → space_char c ≡ false
unfolding is_space
digit-space c e = ground arith

not-45 : (c : Char) → is_digit (code c) ≡ true → (code c == 45) ≡ false
not-45 c e = ground arith

not-43 : (c : Char) → is_digit (code c) ≡ true → (code c == 43) ≡ false
not-43 c e = ground arith

signed_value-digit :
    (c : Char) (cs : List Char) (n : ℕ)
    → is_digit (code c) ≡ true
    → digits_value 0 false (c ∷ cs) ≡ some n
    → signed_value (c ∷ cs) ≡ some (record { negative = false; magnitude = n })
unfolding signed_value
signed_value-digit c cs n d e = rw (signed_value, not-45 c d, not-43 c d, e) refl

strip-digits : (c : Char) (cs : List Char) → AreDigits (c ∷ cs) → strip (c ∷ cs) ≡ c ∷ cs
unfolding strip lstrip_by
strip-digits c cs a =
    rw (digit-space c a.0)
      (rstrip_by-keeps space_char (c ∷ cs) (All-imp _ _ (c ∷ cs) digit-space a))

-- `int(str(n))` is `n`.
pub parse_int-decimal :
    (n : ℕ) → parse_int (chars (decimal n)) ≡ some (record { negative = false; magnitude = n })
unfolding parse_int
parse_int-decimal n =
    let (c, cs, e) = decimal-cons n in
    let a = subst AreDigits e (decimal-AreDigits n) in
    rw e (
      ap signed_value (strip-digits c cs a)
      ∙ signed_value-digit c cs n a.0
          (subst (λ ds. digits_value 0 false ds ≡ some n) e (decimal-value n)))

pub int_text-decimal : (n : ℕ) → int_text (record { negative = false; magnitude = n }) ≡ decimal n
unfolding int_text
int_text-decimal n = refl

Option-cases : (o : Option ℕ) → ((n : ℕ) × (o ≡ some n)) ⊎ (o ≡ none)
Option-cases none = inr refl
Option-cases (some n) = inl (n, refl)

-- A character that ends no number.
pub record IsUnit (c : Char) : Type 0 where
  pub no_digit : digit_of (code c) ≡ none
  pub no_space : space_char c ≡ false

-- The value of a text by its first character.
digits_value-cons :
    (c : Char) (cs : List Char) (a : ℕ) (after : Bool)
    → digits_value a after (c ∷ cs) ≡ (elim (digit_of (code c)) [
      | some d ↦ digits_value (a * 10 + d) true cs
      | none ↦ elim (code c == 95 && after) [ true ↦ digits_value a false cs | false ↦ none ]
    ])
unfolding digits_value
digits_value-cons c cs a true = refl
digits_value-cons c cs a false = refl

underscore-none : (b : Bool) (o : Option ℕ) → o ≡ none → (elim b [ true ↦ o | false ↦ none ]) ≡ none
underscore-none true o e = e
underscore-none false o e = refl

digits_value-ends :
    (cs : List Char) (c : Char) (a : ℕ) (after : Bool)
    → IsUnit c
    → digits_value a after (cs ++ (c ∷ [])) ≡ none
unfolding digits_value
digits_value-ends [] c a after u =
    digits_value-cons c [] a after
    ∙ rw u.no_digit (underscore-none (code c == 95 && after) none refl)
digits_value-ends (d ∷ cs) c a after u =
    digits_value-cons d (cs ++ (c ∷ [])) a after ∙ elim (Option-cases (digit_of (code d))) [
      | inl (n, e) ↦ rw e (digits_value-ends cs c (a * 10 + n) true u)
      | inr e ↦ rw e (underscore-none (code d == 95 && after) _ (digits_value-ends cs c a false u))
    ]

-- The first test of the sign, then the second.
sign-none :
    (minus plus : Bool) (o p : Option ℕ)
    → o ≡ none
    → p ≡ none
    → (elim minus [
      | true ↦ with_sign true o
      | false ↦ elim plus [ true ↦ with_sign false o | false ↦ with_sign false p ]
    ])
      ≡ none
sign-none true plus o p e q = rw e refl
sign-none false true o p e q = rw e refl
sign-none false false o p e q = rw q refl

signed_value-ends : (cs : List Char) (c : Char) → IsUnit c → signed_value (cs ++ (c ∷ [])) ≡ none
unfolding signed_value
signed_value-ends [] c u =
    sign-none (code c == 45) (code c == 43) _ _ refl (digits_value-ends [] c 0 false u)
signed_value-ends (d ∷ cs) c u =
    sign-none (code d == 45) (code d == 43) _ _ (digits_value-ends cs c 0 false u)
      (digits_value-ends (d ∷ cs) c 0 false u)

-- `int()` refuses a text that ends in such a character.
pub parse_int-ends : (cs : List Char) (c : Char) → IsUnit c → parse_int (cs ++ (c ∷ [])) ≡ none
unfolding parse_int strip
parse_int-ends cs c u =
    let (ds, e) = lstrip_by-ends space_char cs c u.no_space in
    ap signed_value (ap (rstrip_by space_char) e ∙ rstrip_by-ends space_char ds c u.no_space)
    ∙ signed_value-ends ds c u
