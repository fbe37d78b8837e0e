-- ===== src/Base/Bytes.antt =====
-- Texts as lists of code points, where the program looks inside them.
use Prim.Native.Nat.{ℕ, ◌+◌, ◌-◌, ◌*◌}
use Prim.Native.Char.{Char, code}
use Prim.Native.String.{String, ◌++◌ as ◌<>◌}
use mathlib.Core.Bool.{Bool, true, false, ◌&&◌, ◌||◌}
use mathlib.Core.Option.{Option, none, some}
use mathlib.Core.List.{List, [], ◌∷◌, reverse}
use odoo_operator.Base.Tests.{leb, ◌==◌, if◌then◌else◌}
use odoo_operator.Base.Text.{decimal}

abbrev pub chars : String → List Char
chars String.[] = []
chars (String.◌∷◌ c s) = c ∷ chars s

abbrev pub text_of : List Char → String
text_of [] = String.[]
text_of (c ∷ cs) = String.◌∷◌ c (text_of cs)

-- What `str.strip()` and `int()` take for white space.
unfoldable pub is_space : ℕ → Bool
is_space c =
    (leb 9 c && leb c 13)
    || ((leb 28 c && leb c 32)
        || (c == 133
            || (c == 160
                || (c == 5760
                    || ((leb 8192 c && leb c 8202)
                        || (c == 8232
                            || (c == 8233 || (c == 8239 || (c == 8287 || c == 12288)))))))))

-- The list without its first elements that pass the test, and without its last ones.
unfoldable pub lstrip_by : (Char → Bool) → List Char → List Char
lstrip_by p [] = []
lstrip_by p (c ∷ cs) = let rest = lstrip_by p cs in if p c then rest else c ∷ cs

unfoldable pub rstrip_by : (Char → Bool) → List Char → List Char
rstrip_by p [] = []
rstrip_by p (c ∷ cs) = elim (rstrip_by p cs) [
  | [] ↦ if p c then [] else c ∷ []
  | d ∷ ds ↦ c ∷ d ∷ ds
]

abbrev pub space_char : Char → Bool
space_char c = is_space (code c)

-- `s.strip()`
unfoldable pub strip : List Char → List Char
unfolding lstrip_by rstrip_by is_space
strip cs = rstrip_by space_char (lstrip_by space_char cs)

-- `s.split('\n')`, which always has a first part.
unfoldable pub split_from : List Char → List Char → List (List Char)
split_from line [] = reverse line ∷ []
split_from line (c ∷ cs) = elim (code c == 10) [
  | true ↦ reverse line ∷ split_from [] cs
  | false ↦ split_from (c ∷ line) cs
]

unfoldable pub split_lines : List Char → List (List Char)
unfolding split_from
split_lines = split_from []

-- A Python int, by its sign and size.
pub record PyInt : Type 0 where
  pub negative : Bool
  pub magnitude : ℕ

-- `str(n)`
unfoldable pub int_text : PyInt → String
unfolding decimal
int_text n = elim (n.negative && leb 1 n.magnitude) [
  | true ↦ "-" <> decimal n.magnitude
  | false ↦ decimal n.magnitude
]

-- An ASCII digit.
abbrev pub is_digit : ℕ → Bool
is_digit c = leb 48 c && leb c 57

-- The zeros of the other decimal digits of Unicode 15, which Python 3.12 has; their nine digits
-- follow each.
abbrev pub other_zeros : List ℕ
other_zeros =
    1632 ∷ 1776 ∷ 1984 ∷ 2406 ∷ 2534 ∷ 2662 ∷ 2790 ∷ 2918 ∷ 3046 ∷ 3174 ∷ 3302 ∷ 3430 ∷ 3558 ∷ 3664
    ∷ 3792 ∷ 3872 ∷ 4160 ∷ 4240 ∷ 6112 ∷ 6160 ∷ 6470 ∷ 6608 ∷ 6784 ∷ 6800 ∷ 6992 ∷ 7088 ∷ 7232
    ∷ 7248 ∷ 42528 ∷ 43216 ∷ 43264 ∷ 43472 ∷ 43504 ∷ 43600 ∷ 44016 ∷ 65296 ∷ 66720 ∷ 68912 ∷ 69734
    ∷ 69872 ∷ 69942 ∷ 70096 ∷ 70384 ∷ 70736 ∷ 70864 ∷ 71248 ∷ 71360 ∷ 71472 ∷ 71904 ∷ 72016 ∷ 72784
    ∷ 73040 ∷ 73120 ∷ 73552 ∷ 92768 ∷ 92864 ∷ 93008 ∷ 120782 ∷ 120792 ∷ 120802 ∷ 120812 ∷ 120822
    ∷ 123200 ∷ 123632 ∷ 124144 ∷ 125264 ∷ 130032 ∷ []

-- The digit that a character is, from the zeros of the digits.
unfoldable pub digit_in : List ℕ → ℕ → Option ℕ
digit_in [] c = none
digit_in (z ∷ zs) c =
    let rest = digit_in zs c in if leb z c && leb c (z + 9) then some (c - z) else rest

abbrev pub digit_of : ℕ → Option ℕ
digit_of c = digit_in (48 ∷ other_zeros) c

-- The digits of a number, with single `_` between them; `after` tells that a digit came before.
unfoldable pub digits_value : ℕ → Bool → List Char → Option ℕ
unfolding digit_in
digits_value acc true [] = some acc
digits_value acc false [] = none
digits_value acc after (c ∷ cs) = elim (digit_of (code c)) [
  | some d ↦ digits_value (acc * 10 + d) true cs
  | none ↦ elim (code c == 95 && after) [ true ↦ digits_value acc false cs | false ↦ none ]
]

abbrev pub with_sign : Bool → Option ℕ → Option PyInt
with_sign negative none = none
with_sign negative (some n) = some (record { negative = negative; magnitude = n })

unfoldable pub signed_value : List Char → Option PyInt
unfolding digits_value
signed_value [] = none
signed_value (c ∷ cs) = elim (code c == 45) [
  | true ↦ with_sign true (digits_value 0 false cs)
  | false ↦ elim (code c == 43) [
    | true ↦ with_sign false (digits_value 0 false cs)
    | false ↦ with_sign false (digits_value 0 false (c ∷ cs))
  ]
]

-- `int(s)`, or `none` for its `ValueError`. The interpreter's limit of 4300 digits is left out.
unfoldable pub parse_int : List Char → Option PyInt
unfolding signed_value strip
parse_int cs = signed_value (strip cs)
