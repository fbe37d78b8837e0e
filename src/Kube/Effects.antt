-- ===== src/Kube/Effects.antt =====
-- What each way of calling the API leaves stored or gone.
use odoo_operator.Base.{
  String, ◌≡◌, refl, ◌∙◌, ap, sym, subst, ◌≢◌, All, inl, inr, arith, Bool, List, [], ◌∷◌, ◌++◌,
  if◌then◌else◌,
}
use mathlib.Core.List.{append-nil}
use odoo_operator.Value.{Value}
use odoo_operator.Prog.{Key, create, read, delete, Exn, Prog, ret, ok, ◌>>=◌, catch, request, when}
use odoo_operator.Prog.Only.{Only-imp, Yields-any, Only, Only-catch}
use odoo_operator.Prog.Reader.{IsRead}
use odoo_operator.Server.{Server, IsLawful, IsStored, IsGone}
use odoo_operator.Server.Run.{run}
use odoo_operator.Server.Rules.{
  IsRead-Within, Achieves, catch_ok, catch_err, Result-cases, Achieves-bind, Achieves-when,
  Achieves-Only, bind_ok_inv,
}
use odoo_operator.Server.Lasting.{IsRead-NoDelete, IsStored-lasts, IsGone-lasts, NoDelete, NoCreate}
use odoo_operator.Kube.{
  create_or_skip, create_or_patch, create_or_patch_wrapped, create_or_skip_wrapped, create_made,
  create_if_missing, delete_if_present,
}
use odoo_operator.Kube.Requests.{
  Only-create_or_skip, Only-create_or_skip_wrapped, Only-create_or_patch,
  Only-create_or_patch_wrapped, Only-create_if_missing, Only-delete_if_present,
}

module _ (S : Server) (L : IsLawful S) where
  abbrev pub Builds : {A : Type 0} → List Key → Prog A → Type 0
  Builds = Achieves S NoDelete IsStored

  abbrev pub Clears : {A : Type 0} → List Key → Prog A → Type 0
  Clears = Achieves S NoCreate IsGone

  module _ {A B : Type 0} {ks js : List Key} {m : Prog A} {f : A → Prog B} where
    pub Builds-bind : Builds ks m → ((a : A) → Builds js (f a)) → Builds (ks ++ js) (m >>= f)
    Builds-bind = Achieves-bind S NoDelete IsStored (IsStored-lasts S L)

    pub Clears-bind : Clears ks m → ((a : A) → Clears js (f a)) → Clears (ks ++ js) (m >>= f)
    Clears-bind = Achieves-bind S NoCreate IsGone (IsGone-lasts S L)

  module _ {ks : List Key} {m : Prog Unit} where
    pub Builds-when : (b : Bool) → Builds ks m → Builds (if b then ks else []) (when b m)
    Builds-when b = Achieves-when S NoDelete IsStored (IsStored-lasts S L) b

    pub Clears-when : (b : Bool) → Clears ks m → Clears (if b then ks else []) (when b m)
    Clears-when b = Achieves-when S NoCreate IsGone (IsGone-lasts S L) b

  -- A part that only reads.
  pub Builds-Only : {A : Type 0} {m : Prog A} → Only IsRead m → Builds [] m
  Builds-Only = Achieves-Only S NoDelete IsStored IsRead-NoDelete

  -- The objects of the first part, where the rest only reads.
  pub Builds-then :
      {A B : Type 0} {ks : List Key} {m : Prog A} {f : A → Prog B}
      → Builds ks m
      → ((a : A) → Only IsRead (f a))
      → Builds ks (m >>= f)
  Builds-then {ks = ks} {m = m} {f = f} c o =
      subst (λ js. Builds js (m >>= f)) (append-nil ks) (Builds-bind c λ a. Builds-Only (o a))

  -- A handler of exceptions that never returns.
  pub Builds-catch :
      {A : Type 0} {ks : List Key} {m : Prog A} {h : Exn → Prog A}
      → Builds ks m
      → ((e : Exn) → Only IsRead (h e))
      → ((e : Exn) (s : S.State) (a : A) → (run S (h e) s).result ≢ ok a)
      → Builds ks (catch m h)
  Builds-catch {ks = ks} {m = m} {h = h} c o n = record {
    only = Only-catch c.only λ e. Only-imp IsRead-NoDelete (o e);
    within = Only-catch c.within λ e. Only-imp (IsRead-Within ks) (o e);
    done = λ s q. elim (Result-cases (run S m s).result) [
      | inl (a, e) ↦
          let q = ap (λ o. o.state) (catch_ok S m h s e) in
          subst (λ t. All (λ k. IsStored (S.find t k)) ks) (sym q) (c.done s e)
      | inr (x, e) ↦ absurd (n x _ _ (sym (ap (λ o. o.result) (catch_err S m h s e)) ∙ q))
    ];
  }

  create_or_skip-IsStored :
      (k : Key) (v : Value) (s : S.State) {a : Unit {0}}
      → (run S (create_or_skip k v) s).result ≡ ok a
      → IsStored (S.find (run S (create_or_skip k v) s).state k)
  unfolding create_or_skip run
  create_or_skip-IsStored k v s h =
      grind (arith, L.created k v s, L.conflict k v s, L.refused (create k v) s k)

  create_or_skip_wrapped-IsStored :
      (prefix : String) (k : Key) (v : Value) (s : S.State) {a : Unit {0}}
      → (run S (create_or_skip_wrapped prefix k v) s).result ≡ ok a
      → IsStored (S.find (run S (create_or_skip_wrapped prefix k v) s).state k)
  unfolding create_or_skip_wrapped run
  create_or_skip_wrapped-IsStored prefix k v s h =
      grind (arith, L.created k v s, L.conflict k v s, L.refused (create k v) s k)

  create_or_patch-IsStored :
      (k : Key) (v : Value) (s : S.State) {a : Unit {0}}
      → (run S (create_or_patch k v) s).result ≡ ok a
      → IsStored (S.find (run S (create_or_patch k v) s).state k)
  unfolding create_or_patch run
  create_or_patch-IsStored k v s h =
      grind (arith, L.created k v s, L.patched k v (S.respond (create k v) s).1)

  create_or_patch_wrapped-IsStored :
      (prefix : String) (k : Key) (v : Value) (s : S.State) {a : Unit {0}}
      → (run S (create_or_patch_wrapped prefix k v) s).result ≡ ok a
      → IsStored (S.find (run S (create_or_patch_wrapped prefix k v) s).state k)
  unfolding create_or_patch_wrapped run
  create_or_patch_wrapped-IsStored prefix k v s h =
      grind (arith, L.created k v s, L.patched k v (S.respond (create k v) s).1)

  delete_if_present-IsGone :
      (k : Key) (s : S.State) {a : Unit {0}}
      → (run S (delete_if_present k) s).result ≡ ok a
      → IsGone (S.find (run S (delete_if_present k) s).state k)
  unfolding delete_if_present run
  delete_if_present-IsGone k s h =
      grind (arith, L.deleted k s, L.not_found k s, L.refused (delete k) s k)

  then_done-IsStored :
      (k : Key) (v : Value) (s : S.State) {a : Unit {0}}
      → (run S (request (create k v) >>= λ _. ret tt) s).result ≡ ok a
      → IsStored (S.find (run S (request (create k v) >>= λ _. ret tt) s).state k)
  unfolding request ◌>>=◌ run
  then_done-IsStored k v s h = grind (arith, L.created k v s)

  create_made-IsStored :
      (k : Key) (make : Prog Value) (s : S.State) {a : Unit {0}}
      → (run S (create_made k make) s).result ≡ ok a
      → IsStored (S.find (run S (create_made k make) s).state k)
  unfolding create_made
  create_made-IsStored k make s h =
      let (v, _, e, q) = bind_ok_inv S make _ s h in rw q (then_done-IsStored k v _ e)

  create_if_missing-IsStored :
      (k : Key) (make : Prog Value) (s : S.State) {a : Unit {0}}
      → (run S (create_if_missing k make) s).result ≡ ok a
      → IsStored (S.find (run S (create_if_missing k make) s).state k)
  unfolding create_if_missing run
  create_if_missing-IsStored k make s h = grind (
    arith,
    L.found k s,
    L.other (read k) s k tt,
    create_made-IsStored k make (S.respond (read k) s).1,
  )

  pub Builds-create_or_skip : (k : Key) (v : Value) → Builds (k ∷ []) (create_or_skip k v)
  Builds-create_or_skip k v = record {
    only = Only-create_or_skip k v tt;
    within = Only-create_or_skip k v (inl refl);
    done = λ s h. (create_or_skip-IsStored k v s h, tt);
  }

  pub Builds-create_or_skip_wrapped :
      (prefix : String) (k : Key) (v : Value) → Builds (k ∷ []) (create_or_skip_wrapped prefix k v)
  Builds-create_or_skip_wrapped prefix k v = record {
    only = Only-create_or_skip_wrapped prefix k v tt;
    within = Only-create_or_skip_wrapped prefix k v (inl refl);
    done = λ s h. (create_or_skip_wrapped-IsStored prefix k v s h, tt);
  }

  pub Builds-create_or_patch : (k : Key) (v : Value) → Builds (k ∷ []) (create_or_patch k v)
  Builds-create_or_patch k v = record {
    only = Only-create_or_patch k v tt tt;
    within = Only-create_or_patch k v (inl refl) (inl refl);
    done = λ s h. (create_or_patch-IsStored k v s h, tt);
  }

  pub Builds-create_or_patch_wrapped :
      (prefix : String) (k : Key) (v : Value) → Builds (k ∷ []) (create_or_patch_wrapped prefix k v)
  Builds-create_or_patch_wrapped prefix k v = record {
    only = Only-create_or_patch_wrapped prefix k v tt tt;
    within = Only-create_or_patch_wrapped prefix k v (inl refl) (inl refl);
    done = λ s h. (create_or_patch_wrapped-IsStored prefix k v s h, tt);
  }

  pub Builds-create_if_missing :
      (k : Key) {make : Prog Value} → Only IsRead make → Builds (k ∷ []) (create_if_missing k make)
  Builds-create_if_missing k {make} c = record {
    only = Only-create_if_missing k tt (Only-imp IsRead-NoDelete c) (Yields-any make λ v. tt);
    within =
        Only-create_if_missing k tt (Only-imp (IsRead-Within (k ∷ [])) c)
          (Yields-any make λ v. inl refl);
    done = λ s h. (create_if_missing-IsStored k make s h, tt);
  }

  pub Clears-delete_if_present : (k : Key) → Clears (k ∷ []) (delete_if_present k)
  Clears-delete_if_present k = record {
    only = Only-delete_if_present k tt;
    within = Only-delete_if_present k (inl refl);
    done = λ s h. (delete_if_present-IsGone k s h, tt);
  }
