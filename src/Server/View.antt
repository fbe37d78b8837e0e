-- ===== src/Server/View.antt =====
-- The abstract view of a cluster: which objects are there, with their contents forgotten. A program
-- that builds or clears a list of objects implements the operation on views that adds or removes it.
use mathlib.Core.Path.{fun_ext}
use odoo_operator.Base.{
  ◌≡◌, refl, sym, subst, ap, ◌∙◌, Bool, true, false, not, ◌&&◌, ◌||◌, List, [], ◌∷◌, In, inl, inr,
  All_at, Bool-cases,
}
use odoo_operator.Prog.{Key, Request, create, patch, delete, Prog, ok}
use odoo_operator.Prog.Only.{Only, Only-imp}
use odoo_operator.Server.{
  Presence, absent, leaving, present, IsStored, IsGone, Server, IsLawful, Misses,
}
use odoo_operator.Server.Run.{run}
use odoo_operator.Server.Rules.{Within, Achieves}
use odoo_operator.Server.Lasting.{Key_discrete, Only-frame}

-- Stored, and stored and not marked for deletion.
abbrev pub is_stored : Presence → Bool
is_stored absent = false
is_stored _ = true

abbrev pub is_alive : Presence → Bool
is_alive (present v) = true
is_alive _ = false

abbrev pub View : Type 0
View = Key → Bool

module _ (S : Server) where
  abbrev pub stored_view : S.State → View
  stored_view s k = is_stored (S.find s k)

  abbrev pub alive_view : S.State → View
  alive_view s k = is_alive (S.find s k)

unfoldable pub among : Key → List Key → Bool
among k [] = false
among k (j ∷ js) = let rest = among k js in elim (Key_discrete k j) [ yes e ↦ true | no n ↦ rest ]

-- The operations of the abstract cluster.
abbrev pub ensure : List Key → View → View
ensure ks v k = among k ks || v k

abbrev pub discard : List Key → View → View
discard ks v k = not (among k ks) && v k

pub among-In : (k : Key) (ks : List Key) → among k ks ≡ true → In k ks
unfolding among
among-In k [] e = absurd (cc e)
among-In k (j ∷ js) e = go (Key_discrete k j) e (among-In k js)
  where
    go :
        (d : Dec (k ≡ j))
        → elim d [ yes p ↦ true | no n ↦ among k js ] ≡ true
        → (among k js ≡ true → In k js)
        → In k (j ∷ js)
    go (yes p) h ih = inl p
    go (no n) h ih = inr (ih h)

pub In-among : (k : Key) (ks : List Key) → In k ks → among k ks ≡ true
unfolding among
In-among k [] i = absurd i
In-among k (j ∷ js) i = go (Key_discrete k j) i (In-among k js)
  where
    go :
        (d : Dec (k ≡ j))
        → In k (j ∷ js)
        → (In k js → among k js ≡ true)
        → elim d [ yes p ↦ true | no n ↦ among k js ] ≡ true
    go (yes p) i ih = refl
    go (no n) (inl p) ih = absurd (n p)
    go (no n) (inr i) ih = ih i

Within-Misses : (k : Key) (ks : List Key) → ¬ In k ks → (r : Request) → Within ks r → Misses k r
Within-Misses k ks n (create j v) w = λ e. n (subst (λ i. In i ks) (sym e) w)
Within-Misses k ks n (patch j v) w = λ e. n (subst (λ i. In i ks) (sym e) w)
Within-Misses k ks n (delete j) w = λ e. n (subst (λ i. In i ks) (sym e) w)
Within-Misses k ks n _ w = tt

IsStored-is_stored : (p : Presence) → IsStored p → is_stored p ≡ true
IsStored-is_stored absent h = absurd h
IsStored-is_stored (leaving v) h = refl
IsStored-is_stored (present v) h = refl

IsGone-is_alive : (p : Presence) → IsGone p → is_alive p ≡ false
IsGone-is_alive absent h = refl
IsGone-is_alive (leaving v) h = refl
IsGone-is_alive (present v) h = absurd h

module _ (S : Server) (L : IsLawful S) {A : Type 0} (ks : List Key) (m : Prog A) where
  -- What the list does not name is the same after a run, however the run ends.
  pub Within-frame :
      (k : Key) (s : S.State)
      → Only (Within ks) m
      → among k ks ≡ false
      → S.find (run S m s).state k ≡ S.find s k
  Within-frame k s w e =
      Only-frame S L k m s (Only-imp (Within-Misses k ks λ i. cc (sym e ∙ In-among k ks i)) w)

module _ (S : Server) (L : IsLawful S) (Q : Request → Type 0) {A : Type 0} (ks : List Key)
    (m : Prog A) where
  pub Builds-ensure :
      Achieves S Q IsStored ks m
      → (s : S.State) {a : A} → (run S m s).result ≡ ok a
      → stored_view S (run S m s).state ≡ ensure ks (stored_view S s)
  Builds-ensure c s h = fun_ext λ k. elim (Bool-cases (among k ks)) [
    | inl e ↦
        IsStored-is_stored (S.find (run S m s).state k)
          (All_at (λ j. IsStored (S.find (run S m s).state j)) ks (c.done s h) k (among-In k ks e))
        ∙ ap (λ b. b || is_stored (S.find s k)) (sym e)
    | inr e ↦
        ap is_stored (Within-frame S L ks m k s c.within e)
        ∙ ap (λ b. b || is_stored (S.find s k)) (sym e)
  ]

  pub Clears-discard :
      Achieves S Q IsGone ks m
      → (s : S.State) {a : A} → (run S m s).result ≡ ok a
      → alive_view S (run S m s).state ≡ discard ks (alive_view S s)
  Clears-discard c s h = fun_ext λ k. elim (Bool-cases (among k ks)) [
    | inl e ↦
        IsGone-is_alive (S.find (run S m s).state k)
          (All_at (λ j. IsGone (S.find (run S m s).state j)) ks (c.done s h) k (among-In k ks e))
        ∙ ap (λ b. not b && is_alive (S.find s k)) (sym e)
    | inr e ↦
        ap is_alive (Within-frame S L ks m k s c.within e)
        ∙ ap (λ b. not b && is_alive (S.find s k)) (sym e)
  ]
