-- ===== src/Kube/Returns.antt =====
-- Each way of calling the API returns where the server has no fault of its own.
use odoo_operator.Base.{String, ◌≡◌, ◌≢◌, refl, ◌∙◌, ap, subst, ◌⊎◌, inl, inr, arith, if◌then◌else◌}
use odoo_operator.Value.{Value}
use odoo_operator.Prog.{
  Key, create, patch, read, api_exception, Prog, ret, raise, answer, catch, has_status, ◌>>◌, Exn,
  Result, ok, err, ◌>>=◌, request,
}
use odoo_operator.Prog.Only.{Only}
use odoo_operator.Server.{
  Server, IsLawful, IsHealthy, IsStored, Misses, Presence, absent, present, leaving,
}
use odoo_operator.Server.Accepted.{Accepts, AllAccepted, IsAccepted, Accepts-first, Accepts-second}
use odoo_operator.Server.Run.{run}
use odoo_operator.Server.Rules.{Succeeds, bind_ok}
use odoo_operator.Server.Lasting.{Only-frame}
use odoo_operator.Kube.{
  create_or_skip, create_or_patch, create_or_patch_wrapped, create_or_skip_wrapped, create_made,
  create_if_missing, delete_if_present, permanent,
}

pub Presence-cases : (p : Presence) → (p ≡ absent) ⊎ IsStored p
Presence-cases absent = inl refl
Presence-cases (leaving v) = inr tt
Presence-cases (present v) = inr tt

-- A write that may be answered with 422, and is not.
accepted_ok :
    {r : Result Value}
    → ((x : Value) × (r ≡ ok x)) ⊎ ((text : String) × (r ≡ err (api_exception 422 text)))
    → ((text : String) → r ≢ err (api_exception 422 text))
    → (x : Value) × (r ≡ ok x)
accepted_ok (inl (x, e)) n = (x, e)
accepted_ok (inr (t, e)) n = absurd (n t e)

module _ (S : Server) (L : IsLawful S) (H : IsHealthy S) where
  create_or_skip-ok :
      (k : Key) (v : Value) (s : S.State)
      → Accepts S (create_or_skip k v) s
      → (run S (create_or_skip k v) s).result ≡ ok tt
  unfolding create_or_skip run
  create_or_skip-ok k v s w = elim (Presence-cases (S.find s k)) [
    | inl e ↦ let (x, ex) = accepted_ok (H.create_new k v s e) w.accepted.0 in ground arith
    | inr h ↦ let (t, et) = H.create_stored k v s h in ground arith
  ]

  create_or_skip_wrapped-ok :
      (prefix : String) (k : Key) (v : Value) (s : S.State)
      → Accepts S (create_or_skip_wrapped prefix k v) s
      → (run S (create_or_skip_wrapped prefix k v) s).result ≡ ok tt
  unfolding create_or_skip_wrapped run
  create_or_skip_wrapped-ok prefix k v s w = elim (Presence-cases (S.find s k)) [
    | inl e ↦ let (x, ex) = accepted_ok (H.create_new k v s e) w.accepted.0 in ground arith
    | inr h ↦ let (t, et) = H.create_stored k v s h in ground arith
  ]

  patch_after_409 :
      (k : Key) (v : Value) (s : S.State) {t : String}
      → (S.respond (create k v) s).0 ≡ err (api_exception 409 t)
      → IsAccepted S (patch k v) (S.respond (create k v) s).1
      → (x : Value) × ((S.respond (patch k v) (S.respond (create k v) s).1).0 ≡ ok x)
  patch_after_409 k v s e n =
      accepted_ok
        (H.patch_stored k v (S.respond (create k v) s).1
          (rw (L.refused (create k v) s k e) (L.conflict k v s e)))
        n

  -- What comes after the creation in `create_or_patch` and its like, where it was answered with 409.
  then_patch :
      (k : Key) (v : Value) (s : S.State) (handler : Exn → Prog Unit) {t : String}
      → (S.respond (create k v) s).0 ≡ err (api_exception 409 t)
      → AllAccepted S
          (catch (answer (S.respond (create k v) s).0 >> ret tt) handler)
          (S.respond (create k v) s).1
      → AllAccepted S (handler (api_exception 409 t)) (S.respond (create k v) s).1
  unfolding catch ◌>>=◌
  then_patch k v s handler e w =
      subst (λ r. AllAccepted S (catch (answer r >> ret tt) handler) (S.respond (create k v) s).1) e
        w

  create_or_patch-ok :
      (k : Key) (v : Value) (s : S.State)
      → Accepts S (create_or_patch k v) s
      → (run S (create_or_patch k v) s).result ≡ ok tt
  unfolding create_or_patch run request catch ◌>>=◌
  create_or_patch-ok k v s w = elim (Presence-cases (S.find s k)) [
    | inl e ↦ let (x, ex) = accepted_ok (H.create_new k v s e) w.accepted.0 in ground arith
    | inr h ↦
        let (t, et) = H.create_stored k v s h in
        let (x, ex) =
          patch_after_409 k v s et
            (then_patch k v s
              (λ e. if has_status 409 e then (request (patch k v) >> ret tt) else raise e) et
              w.accepted.1).0 in
        ground arith
  ]

  create_or_patch_wrapped-ok :
      (prefix : String) (k : Key) (v : Value) (s : S.State)
      → Accepts S (create_or_patch_wrapped prefix k v) s
      → (run S (create_or_patch_wrapped prefix k v) s).result ≡ ok tt
  unfolding create_or_patch_wrapped run request catch ◌>>=◌
  create_or_patch_wrapped-ok prefix k v s w = elim (Presence-cases (S.find s k)) [
    | inl e ↦ let (x, ex) = accepted_ok (H.create_new k v s e) w.accepted.0 in ground arith
    | inr h ↦
        let (t, et) = H.create_stored k v s h in
        let (x, ex) =
          patch_after_409 k v s et
            (then_patch k v s
              (λ e.
                if has_status 409 e
                then (request (patch k v) >> ret tt)
                else raise (permanent prefix e))
              et w.accepted.1).0 in
        ground arith
  ]

  delete_if_present-ok : (k : Key) (s : S.State) → (run S (delete_if_present k) s).result ≡ ok tt
  unfolding delete_if_present run
  delete_if_present-ok k s = elim (Presence-cases (S.find s k)) [
    | inl e ↦ let (x, ex) = H.delete_absent k s e in ground arith
    | inr h ↦ let (t, et) = H.delete_stored k s h in ground arith
  ]

  then_done-ok :
      (k : Key) (v : Value) (s : S.State) {x : Value}
      → (S.respond (create k v) s).0 ≡ ok x
      → (run S (request (create k v) >>= λ _. ret tt) s).result ≡ ok tt
  unfolding request ◌>>=◌ run
  then_done-ok k v s e = ground arith

  create_made-ok :
      (k : Key) (make : Prog Value) (s : S.State)
      → S.find s k ≡ absent
      → Only (Misses k) make
      → Succeeds S make
      → Accepts S (create_made k make) s
      → (run S (create_made k make) s).result ≡ ok tt
  unfolding create_made request ◌>>=◌
  create_made-ok k make s e o c w =
      let (v, ev) = c.at s (Accepts-first make (λ v. request (create k v) >> ret tt) w) in
      let t = (run S make s).state in
      let (x, ex) =
        accepted_ok (H.create_new k v t (Only-frame S L k make s o ∙ e))
          (Accepts-second make (λ v. request (create k v) >> ret tt) w ev).accepted.0 in
      ap (λ o. o.result) (bind_ok S make _ s ev) ∙ then_done-ok k v t ex

  -- The same for `create_if_missing`, where the read was answered with 404.
  then_create :
      (k : Key) (s : S.State) (handler : Exn → Prog Unit) {t : String}
      → (S.respond (read k) s).0 ≡ err (api_exception 404 t)
      → AllAccepted S
          (catch (answer (S.respond (read k) s).0 >> ret tt) handler)
          (S.respond (read k) s).1
      → Accepts S (handler (api_exception 404 t)) (S.respond (read k) s).1
  unfolding catch ◌>>=◌
  then_create k s handler e w = record {
    accepted =
        subst (λ r. AllAccepted S (catch (answer r >> ret tt) handler) (S.respond (read k) s).1) e
          w;
  }

  create_if_missing-ok :
      (k : Key) (make : Prog Value) (s : S.State)
      → Only (Misses k) make
      → Succeeds S make
      → Accepts S (create_if_missing k make) s
      → (run S (create_if_missing k make) s).result ≡ ok tt
  unfolding create_if_missing run request catch ◌>>=◌
  create_if_missing-ok k make s o c w = elim (Presence-cases (S.find s k)) [
    | inl e ↦
        let (t, et) = H.read_absent k s e in
        ground (
          arith,
          create_made-ok k make (S.respond (read k) s).1 (L.other (read k) s k tt ∙ e) o c (
              then_create k s (λ e. if has_status 404 e then create_made k make else raise e) et
                w.accepted.1),
        )
    | inr h ↦ let (x, ex) = H.read_stored k s h in ground arith
  ]

  pub Succeeds-create_or_skip : (k : Key) (v : Value) → Succeeds S (create_or_skip k v)
  Succeeds-create_or_skip k v = record { at = λ s w. (tt, create_or_skip-ok k v s w) }

  pub Succeeds-create_or_skip_wrapped :
      (prefix : String) (k : Key) (v : Value) → Succeeds S (create_or_skip_wrapped prefix k v)
  Succeeds-create_or_skip_wrapped prefix k v = record {
    at = λ s w. (tt, create_or_skip_wrapped-ok prefix k v s w);
  }

  pub Succeeds-create_or_patch : (k : Key) (v : Value) → Succeeds S (create_or_patch k v)
  Succeeds-create_or_patch k v = record { at = λ s w. (tt, create_or_patch-ok k v s w) }

  pub Succeeds-create_or_patch_wrapped :
      (prefix : String) (k : Key) (v : Value) → Succeeds S (create_or_patch_wrapped prefix k v)
  Succeeds-create_or_patch_wrapped prefix k v = record {
    at = λ s w. (tt, create_or_patch_wrapped-ok prefix k v s w);
  }

  pub Succeeds-create_if_missing :
      (k : Key) {make : Prog Value}
      → Only (Misses k) make
      → Succeeds S make
      → Succeeds S (create_if_missing k make)
  Succeeds-create_if_missing k {make} o c = record {
    at = λ s w. (tt, create_if_missing-ok k make s o c w);
  }

  pub Succeeds-delete_if_present : (k : Key) → Succeeds S (delete_if_present k)
  Succeeds-delete_if_present k = record { at = λ s w. (tt, delete_if_present-ok k s) }
