-- ===== src/Server/Accepted.antt =====
-- Runs in which the server finds no body invalid. The API answers 422 to a body that it finds
-- invalid, or that changes a field which cannot be changed.
use odoo_operator.Base.{String, ◌≡◌, ◌≢◌, subst}
use odoo_operator.Prog.{
  Request, create, patch, Exn, api_exception, ok, err, Prog, ret, raise, write, call, ◌>>=◌, catch,
}
use odoo_operator.Prog.Only.{Only, Calls}
use odoo_operator.Server.{Server}
use odoo_operator.Server.Run.{run}

module _ (S : Server) where
  -- The answer to a creation or a patch is no 422.
  abbrev pub IsAccepted : Request → S.State → Type 0
  IsAccepted (create k v) s =
      (text : String) → (S.respond (create k v) s).0 ≢ err (api_exception 422 text)
  IsAccepted (patch k v) s =
      (text : String) → (S.respond (patch k v) s).0 ≢ err (api_exception 422 text)
  IsAccepted _ s = Unit

  abbrev pub AllAccepted : {A : Type 0} → Prog A → S.State → Type 0
  AllAccepted (ret a) s = Unit
  AllAccepted (raise e) s = Unit
  AllAccepted (write w m) s = AllAccepted m s
  AllAccepted (call r k) s = IsAccepted r s × AllAccepted (k (S.respond r s).0) (S.respond r s).1

-- In the run from this state no creation and no patch is answered with 422.
pub record Accepts (S : Server) {A : Type 0} (m : Prog A) (s : S.State) : Type 0 where
  pub accepted : AllAccepted S m s

module _ (S : Server) {A B : Type 0} (f : A → Prog B) where
  first_part : (m : Prog A) (s : S.State) → AllAccepted S (m >>= f) s → AllAccepted S m s
  unfolding ◌>>=◌
  first_part (ret a) s h = tt
  first_part (raise e) s h = tt
  first_part (write w m) s h = first_part m s h
  first_part (call r k) s h = (h.0, first_part (k (S.respond r s).0) (S.respond r s).1 h.1)

  second_part :
      (m : Prog A) (s : S.State) {a : A}
      → AllAccepted S (m >>= f) s
      → (run S m s).result ≡ ok a
      → AllAccepted S (f a) (run S m s).state
  unfolding ◌>>=◌ run
  second_part (ret b) s h e = subst (λ x. AllAccepted S (f x) s) (cc e) h
  second_part (raise x) s h e = absurd (cc e)
  second_part (write w m) s h e = second_part m s h e
  second_part (call r k) s h e = second_part (k (S.respond r s).0) (S.respond r s).1 h.1 e

module _ (S : Server) {A : Type 0} where
  tried_part :
      (h : Exn → Prog A) (m : Prog A) (s : S.State)
      → AllAccepted S (catch m h) s
      → AllAccepted S m s
  unfolding catch
  tried_part h (ret a) s c = tt
  tried_part h (raise e) s c = tt
  tried_part h (write w m) s c = tried_part h m s c
  tried_part h (call r k) s c = (c.0, tried_part h (k (S.respond r s).0) (S.respond r s).1 c.1)

  each_part :
      (P : Request → Type 0)
      → ((r : Request) → P r → (s : S.State) → IsAccepted S r s)
      → (m : Prog A) (s : S.State) → Calls P m
      → AllAccepted S m s
  each_part P h (ret a) s c = tt
  each_part P h (raise e) s c = tt
  each_part P h (write w m) s c = each_part P h m s c
  each_part P h (call r k) s c =
      (h r c.0 s, each_part P h (k (S.respond r s).0) (S.respond r s).1 (c.1 (S.respond r s).0))

  all_parts :
      ((r : Request) (s : S.State) → IsAccepted S r s)
      → (m : Prog A) (s : S.State) → AllAccepted S m s
  all_parts h (ret a) s = tt
  all_parts h (raise e) s = tt
  all_parts h (write w m) s = all_parts h m s
  all_parts h (call r k) s = (h r s, all_parts h (k (S.respond r s).0) (S.respond r s).1)

module _ {S : Server} {A B : Type 0} (m : Prog A) (f : A → Prog B) {s : S.State} where
  pub Accepts-first : Accepts S (m >>= f) s → Accepts S m s
  Accepts-first c = record { accepted = first_part S f m s c.accepted }

  pub Accepts-second :
      {a : A}
      → Accepts S (m >>= f) s
      → (run S m s).result ≡ ok a
      → Accepts S (f a) (run S m s).state
  Accepts-second c e = record { accepted = second_part S f m s c.accepted e }

module _ {S : Server} {A : Type 0} where
  pub Accepts-tried :
      (m : Prog A) (h : Exn → Prog A) {s : S.State} → Accepts S (catch m h) s → Accepts S m s
  Accepts-tried m h {s} c = record { accepted = tried_part S h m s c.accepted }

  -- A program that creates and patches nothing.
  pub Accepts-Only :
      {P : Request → Type 0} {m : Prog A}
      → ((r : Request) → P r → (s : S.State) → IsAccepted S r s)
      → Only P m
      → (s : S.State) → Accepts S m s
  Accepts-Only {P} {m} h o s = record { accepted = each_part S P h m s o.calls }

  -- A server that never answers with 422.
  pub Accepts-all :
      ((r : Request) (s : S.State) → IsAccepted S r s) → (m : Prog A) (s : S.State) → Accepts S m s
  Accepts-all h m s = record { accepted = all_parts S h m s }
