-- ===== src/Main/Creation/Retention.antt =====
-- The number of days of a retention policy, `int(policy.rstrip('d'))`.
use Prim.Native.Char.{Char, code}
use odoo_operator.Base.{
  ℕ, zero, suc, String, ◌<>◌, ◌≡◌, refl, subst, sym, ap, ◌∙◌, Bool, true, false, [], ◌∷◌, All,
  All-imp, ◌==◌, arith, is_digit, chars, text_of, decimal,
}
use odoo_operator.Base.Decimal.{decimal-AreDigits}
use odoo_operator.Base.Strip.{
  chars-append, rstrip_by-keeps, rstrip_by-append, rstrip_by-ends, parse_int-decimal,
  int_text-decimal, IsUnit, parse_int-ends,
}
use odoo_operator.Python.{Python}
use odoo_operator.Prog.{ret, raise, value_error}
use odoo_operator.Main.Creation.{retention_days, days_of, days_number}

-- The unit of days, so many times.
abbrev pub ds : ℕ → String
ds zero = ""
ds (suc k) = "d" <> ds k

abbrev is_d : Char → Bool
is_d c = code c == b'd'

ds-All : (k : ℕ) → All (λ c. is_d c ≡ true) (chars (ds k))
ds-All zero = tt
ds-All (suc k) = subst (All (λ c. is_d c ≡ true)) (sym (chars-append "d" (ds k))) (refl, ds-All k)

digit-not_d : (c : Char) → is_digit (code c) ≡ true → is_d c ≡ false
digit-not_d c e = ground arith

-- The text of a number with any number of `d` after it is a policy of so many days.
pub retention_days-decimal :
    (py : Python) (n k : ℕ) → retention_days py (decimal n <> ds k) ≡ ret (decimal n)
unfolding retention_days days_number days_of
retention_days-decimal py n k = rw (chars-append (decimal n) (ds k)) (
    rw (rstrip_by-append is_d (chars (decimal n)) (chars (ds k)) (ds-All k)) (
      rw
        (rstrip_by-keeps is_d (chars (decimal n))
          (All-imp _ _ (chars (decimal n)) digit-not_d (decimal-AreDigits n)))
        (rw (parse_int-decimal n) (ap ret (int_text-decimal n)))))

text_of-chars : (s : String) → text_of (chars s) ≡ s
text_of-chars String.[] = refl
text_of-chars (String.◌∷◌ c s) = ap (String.◌∷◌ c) (text_of-chars s)

-- A policy that ends in a character that is no digit, no white space and not `d`, such as the weeks
-- `w` and months `m` of the database's policies, raises `ValueError` with the whole policy.
pub retention_days-refused :
    (py : Python) (s : String) (c : Char)
    → IsUnit c
    → (code c == b'd') ≡ false
    → retention_days py (s <> text_of (c ∷ []))
      ≡ raise (value_error (py.int_error (s <> text_of (c ∷ []))))
unfolding retention_days days_number days_of
retention_days-refused py s c u e = rw (chars-append s (text_of (c ∷ []))) (
    rw (rstrip_by-ends is_d (chars s) c e) (
      rw (parse_int-ends (chars s) c u) (
        ap (λ t. raise (value_error (py.int_error t)))
          (ap text_of (sym (chars-append s (text_of (c ∷ []))))
            ∙ text_of-chars (s <> text_of (c ∷ []))))))
