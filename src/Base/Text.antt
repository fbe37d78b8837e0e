-- ===== src/Base/Text.antt =====
-- Python's operations on `str` that the handlers use.

use Prim.Native.String.{String, ◌++◌ as ◌<>◌, len, slice}
use Prim.Native.Nat.{ℕ, zero, suc, ◌-◌, ◌/◌, ◌%◌}
use odoo_operator.Base.Tests.{ltb, leb, ◌==◌, if◌then◌else◌}
pub use text.Mathlib.Text.{◌==◌ as str_eq}
pub use text.Mathlib.TextEquality.{eq_iff as str_eq_iff}
use mathlib.Core.Bool.{Bool, true, false, not, ◌&&◌, Bool-discrete}
use mathlib.Core.Logic.{dite}
use mathlib.Core.Option.{Option, none, some}
use mathlib.Core.List.{List, [], ◌∷◌}

-- `sep.join(parts)`
unfoldable pub join : String → List String → String
join sep [] = ""
join sep (x ∷ []) = x
join sep (x ∷ y ∷ xs) = x <> (sep <> join sep (y ∷ xs))

-- `s.endswith(t)`: the last bytes of `s`, as many as `t` has, are `t`.
unfoldable pub ends_with : String → String → Bool
ends_with s t = leb (len t) (len s) && str_eq (slice s (len s - len t) (len s)) t

unfoldable pub digit : ℕ → String
digit n =
    if n == 0
    then "0"
    else if n == 1
    then "1"
    else if n == 2
    then "2"
    else if n == 3
    then "3"
    else if n == 4
    then "4"
    else if n == 5
    then "5"
    else if n == 6
    then "6"
    else if n == 7
    then "7"
    else if n == 8
    then "8"
    else "9"

-- The digits of `n`, before those that are written; the fuel is above the number of digits.
unfoldable pub digits : ℕ → ℕ → String → String
unfolding digit
digits zero n acc = acc
digits (suc fuel) n acc =
    let rest = digits fuel (n / 10) (digit (n % 10) <> acc) in
    if ltb n 10 then digit n <> acc else rest

-- `str(n)` of a number that is not negative.
unfoldable pub decimal : ℕ → String
unfolding digits
decimal n = digits (suc n) n ""

-- `bool(s)` of a text, and of a text that may be `None`.
abbrev pub truthy : String → Bool
truthy s = not (str_eq s "")

abbrev pub truthy_opt : Option String → Bool
truthy_opt none = false
truthy_opt (some s) = truthy s

-- `d.get(key, default)`, the key's presence as an `Option`.
abbrev pub get_or {ℓ} : {A : Type ℓ} → Option A → A → A
get_or none d = d
get_or (some a) _ = a

-- `o or default` for a text that may be `None`.
abbrev pub or_text : Option String → String → String
or_text none d = d
or_text (some s) d = elim (truthy s) [ true ↦ s | false ↦ d ]

pub String_discrete : Discrete String
String_discrete s t =
    dite (Bool-discrete (str_eq s t) true) (λ same. yes ((str_eq_iff s t).0 same))
      (λ differ. no (λ p. differ ((str_eq_iff s t).1 p)))
