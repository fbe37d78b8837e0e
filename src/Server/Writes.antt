-- ===== src/Server/Writes.antt =====
-- The status patch of a run: what the writes leave under the key `phase`.
use odoo_operator.Base.{
  String, ◌≡◌, refl, sym, ◌∙◌, ap, subst, Option, none, some, List, [], ◌∷◌, ◌++◌, inl, inr, str_eq,
  Bool, true, false, if◌then◌else◌,
}
use odoo_operator.Value.{Value, str}
use odoo_operator.Prog.{
  Exn, Prog, ret, raise, write, call, Result, ok, err, Write, status, endpoint, ◌>>=◌, Request,
  answer, request, set_status, as_text, when,
}
use odoo_operator.Prog.Reader.{Reads, Reader}
use odoo_operator.Server.{Server}
use odoo_operator.Server.Run.{run}
use odoo_operator.Server.Rules.{IsTotal, Result-cases, bind_ok, bind_err}

-- What is written later replaces what was there.
abbrev or_before : Option Value → Option Value → Option Value
or_before none b = b
or_before (some a) b = some a

abbrev pub phase_of : Write → Option Value
phase_of (status k v) = if str_eq k "phase" then some v else none
phase_of (endpoint k url) = none

abbrev pub last_phase : List Write → Option Value
last_phase [] = none
last_phase (w ∷ ws) = let rest = last_phase ws in or_before rest (phase_of w)

or_before-none : (a b : Option Value) → or_before a b ≡ none → (a ≡ none) × (b ≡ none)
or_before-none none b e = (refl, e)
or_before-none (some a) b e = absurd (cc e)

or_before-none_right : (a : Option Value) → or_before a none ≡ a
or_before-none_right none = refl
or_before-none_right (some a) = refl

pub last_phase-append :
    (xs ys : List Write) (v : Value) → last_phase ys ≡ some v → last_phase (xs ++ ys) ≡ some v
last_phase-append [] ys v e = e
last_phase-append (x ∷ xs) ys v e = rw (last_phase-append xs ys v e) refl

pub last_phase-append_none :
    (xs ys : List Write)
    → last_phase xs ≡ none
    → last_phase ys ≡ none
    → last_phase (xs ++ ys) ≡ none
last_phase-append_none [] ys ex ey = ey
last_phase-append_none (x ∷ xs) ys ex ey =
    let (er, ew) = or_before-none (last_phase xs) (phase_of x) ex in
    rw (last_phase-append_none xs ys er ey) ew

pub last_phase-append_silent :
    (xs ys : List Write) → last_phase ys ≡ none → last_phase (xs ++ ys) ≡ last_phase xs
last_phase-append_silent [] ys e = e
last_phase-append_silent (x ∷ xs) ys e = rw (last_phase-append_silent xs ys e) refl

pub last_phase-append_before :
    (xs ys : List Write) → last_phase xs ≡ none → last_phase (xs ++ ys) ≡ last_phase ys
last_phase-append_before [] ys e = refl
last_phase-append_before (x ∷ xs) ys e =
    let (er, ew) = or_before-none (last_phase xs) (phase_of x) e in
    rw (last_phase-append_before xs ys er) (rw ew (or_before-none_right (last_phase ys)))

-- However the program ends, it has not written the phase.
pub record Silent (S : Server) {A : Type 0} (m : Prog A) : Type 0 where
  pub none_written : (s : S.State) → last_phase (run S m s).writes ≡ none

-- However the program ends, the phase that it wrote last is this one.
pub record Leaves (S : Server) (v : Value) {A : Type 0} (m : Prog A) : Type 0 where
  pub last : (s : S.State) → last_phase (run S m s).writes ≡ some v

-- The same of the runs that return.
pub record LeavesOk (S : Server) (v : Value) {A : Type 0} (m : Prog A) : Type 0 where
  pub last_ok :
      (s : S.State) {a : A} → (run S m s).result ≡ ok a → last_phase (run S m s).writes ≡ some v

module _ (S : Server) (v : Value) where
  pub LeavesOk-bind :
      {A B : Type 0} (m : Prog A) {f : A → Prog B}
      → ((a : A) → LeavesOk S v (f a))
      → LeavesOk S v (m >>= f)
  LeavesOk-bind m {f} c = record {
    last_ok = λ s h. elim (Result-cases (run S m s).result) [
      | inl (a, e) ↦
          let q = bind_ok S m f s e in
          subst (λ o. last_phase o.writes ≡ some v) (sym q)
            (last_phase-append (run S m s).writes (run S (f a) (run S m s).state).writes v
              ((c a).last_ok _ (sym (ap (λ o. o.result) q) ∙ h)))
      | inr (x, e) ↦ absurd (cc (ap (λ o. o.result) (bind_err S m f s e)))
    ];
  }

  pub Leaves-then :
      {A B : Type 0} {m : Prog A} (n : Prog B)
      → IsTotal S m
      → Leaves S v n
      → Leaves S v (m >>= λ _. n)
  Leaves-then {m = m} n c l = record {
    last = λ s.
        let (a, e) = c.at s in
        subst (λ o. last_phase o.writes ≡ some v) (sym (bind_ok S m (λ _. n) s e))
          (last_phase-append (run S m s).writes (run S n (run S m s).state).writes v (l.last _));
  }

module _ {S : Server} where
  pub Silent-ret : {A : Type 0} (a : A) → Silent S (ret a)
  unfolding run
  Silent-ret a = record { none_written = λ s. refl }

  pub Silent-raise : {A : Type 0} (e : Exn) → Silent S {A = A} (raise e)
  unfolding run
  Silent-raise e = record { none_written = λ s. refl }

  pub Silent-set_status :
      (k : String) (v : Value) → str_eq k "phase" ≡ false → Silent S (set_status k v)
  unfolding run set_status
  Silent-set_status k v e = record { none_written = λ s. rw e refl }

  pub Silent-when : (b : Bool) {m : Prog Unit} → Silent S m → Silent S (when b m)
  Silent-when true c = c
  Silent-when false c = Silent-ret tt

  pub Silent-unless : {b : Bool} (m : Prog Unit) → b ≡ false → Silent S (when b m)
  Silent-unless m e = subst (λ b. Silent S (when b m)) (sym e) (Silent-ret tt)

  Silent-answer : (x : Result Value) → Silent S (answer x)
  Silent-answer (ok v) = Silent-ret v
  Silent-answer (err e) = Silent-raise e

  pub Silent-request : (r : Request) → Silent S (request r)
  unfolding run request
  Silent-request r = record {
    none_written = λ s. (Silent-answer (S.respond r s).0).none_written (S.respond r s).1;
  }

  pub Silent-as_text : (v : Value) → Silent S (as_text v)
  unfolding as_text
  Silent-as_text (str t) = Silent-ret t
  Silent-as_text _ = Silent-raise _

  pub Silent-bind :
      {A B : Type 0} {m : Prog A} {f : A → Prog B}
      → Silent S m
      → ((a : A) → Silent S (f a))
      → Silent S (m >>= f)
  Silent-bind {m = m} {f = f} c cf = record {
    none_written = λ s. elim (Result-cases (run S m s).result) [
      | inl (a, e) ↦
          subst (λ o. last_phase o.writes ≡ none) (sym (bind_ok S m f s e))
            (last_phase-append_none (run S m s).writes (run S (f a) (run S m s).state).writes
              (c.none_written s) ((cf a).none_written _))
      | inr (x, e) ↦
          subst (λ o. last_phase o.writes ≡ none) (sym (bind_err S m f s e))
            (last_phase-append_none (run S m s).writes [] (c.none_written s) refl)
    ];
  }

  pub Leaves-set_status :
      {B : Type 0} (v : Value) {m : Prog B}
      → Silent S m
      → Leaves S v (set_status "phase" v >>= λ _. m)
  unfolding run set_status ◌>>=◌
  Leaves-set_status v c = record { last = λ s. rw (c.none_written s) refl }

Reads-silent :
    (S : Server) {A : Type 0} (m : Prog A) (s : S.State)
    → Reads m
    → last_phase (run S m s).writes ≡ none
unfolding run
Reads-silent S (ret a) s c = refl
Reads-silent S (raise e) s c = refl
Reads-silent S (write w m) s c = absurd c
Reads-silent S (call r k) s c = Reads-silent S (k (S.respond r s).0) _ (c.1 _)

pub Reader-Silent : {S : Server} {A : Type 0} {m : Prog A} → Reader m → Silent S m
Reader-Silent {S} {m = m} c = record { none_written = λ s. Reads-silent S m s c.reads }
