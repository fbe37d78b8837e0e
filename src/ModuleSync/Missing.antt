-- ===== src/ModuleSync/Missing.antt =====
-- `missing_from`, against what the lists hold.
use odoo_operator.Base.{
  str_eq, str_eq_iff, Bool-cases, ◌||◌, String, ◌≡◌, ◌↔◌, refl, sym, subst, ap, ◌∙◌, Bool, true,
  false, List, [], ◌∷◌, In, inl, inr, if◌then◌else◌,
}
use odoo_operator.ModuleSync.{contains, missing_from}

-- The step of `missing_from`, by what the test of its first module gives.
module _ (installed : List String) (x : String) (modules : List String) where
  kept_or_dropped :
      (m : String) (b : Bool)
      → contains x installed ≡ b
      → ((In m (missing_from installed modules)) → In m modules × (contains m installed ≡ false))
      → In m (if b then missing_from installed modules else x ∷ missing_from installed modules)
      → In m (x ∷ modules) × (contains m installed ≡ false)
  kept_or_dropped m true e ih i = let (j, n) = ih i in (inr j, n)
  kept_or_dropped m false e ih (inl q) =
      (inl q, subst (λ y. contains y installed ≡ false) (sym q) e)
  kept_or_dropped m false e ih (inr i) = let (j, n) = ih i in (inr j, n)

  found_again :
      (m : String) (b : Bool)
      → contains x installed ≡ b
      → contains m installed ≡ false
      → (In m modules → In m (missing_from installed modules))
      → In m (x ∷ modules)
      → In m (if b then missing_from installed modules else x ∷ missing_from installed modules)
  found_again m true e n ih (inl q) =
      absurd (cc (sym e ∙ sym (ap (λ y. contains y installed) q) ∙ n))
  found_again m true e n ih (inr i) = ih i
  found_again m false e n ih (inl q) = inl q
  found_again m false e n ih (inr i) = inr (ih i)

-- A module that is reported missing is one of the wanted modules and is not among the installed.
pub missing_from_sound :
    (m : String) (installed modules : List String)
    → In m (missing_from installed modules)
    → In m modules × (contains m installed ≡ false)
unfolding missing_from
missing_from_sound m installed [] i = absurd i
missing_from_sound m installed (x ∷ modules) i =
    kept_or_dropped installed x modules m (contains x installed) refl
      (missing_from_sound m installed modules) i

-- Every wanted module that is not among the installed is reported missing.
pub missing_from_complete :
    (m : String) (installed modules : List String)
    → In m modules
    → contains m installed ≡ false
    → In m (missing_from installed modules)
unfolding missing_from
missing_from_complete m installed [] i n = absurd i
missing_from_complete m installed (x ∷ modules) i n =
    found_again installed x modules m (contains x installed) refl n
      (λ j. missing_from_complete m installed modules j n) i

-- `contains` says whether a module is in the list.
contains-In : (x : String) (ys : List String) → contains x ys ≡ true → In x ys
unfolding contains
contains-In x [] e = absurd (cc e)
contains-In x (y ∷ ys) e = elim (Bool-cases (str_eq x y)) [
  | inl q ↦ inl ((str_eq_iff x y).0 q)
  | inr q ↦ inr (contains-In x ys (sym (ap (λ b. b || contains x ys) q) ∙ e))
]

In-contains : (x : String) (ys : List String) → In x ys → contains x ys ≡ true
unfolding contains
In-contains x [] i = absurd i
In-contains x (y ∷ ys) (inl p) = ap (λ b. b || contains x ys) ((str_eq_iff x y).1 p)
In-contains x (y ∷ ys) (inr i) = elim (Bool-cases (str_eq x y)) [
  | inl q ↦ ap (λ b. b || contains x ys) q
  | inr q ↦ ap (λ b. b || contains x ys) q ∙ In-contains x ys i
]

not-contains : (x : String) (ys : List String) → ¬ In x ys → contains x ys ≡ false
not-contains x ys n = elim (Bool-cases (contains x ys)) [
  | inl e ↦ absurd (n (contains-In x ys e))
  | inr e ↦ e
]

-- The modules that are reported missing are exactly those that are wanted and do not occur in the
-- list of the installed.
pub missing_from_iff :
    (m : String) (installed modules : List String)
    → In m (missing_from installed modules) ↔ (In m modules × (¬ In m installed))
missing_from_iff m installed modules = (
  λ i.
      let (wanted, e) = missing_from_sound m installed modules i in
      (wanted, λ j. cc (sym (In-contains m installed j) ∙ e)),
  λ (i, n). missing_from_complete m installed modules i (not-contains m installed n),
)
