-- ===== src/Server/Rules.antt =====
-- What a run leaves behind, by rules for each way to build a program.
use odoo_operator.Base.{
  In, In-append_left, In-append_right, String, ◌≡◌, ◌≢◌, refl, sym, ◌∙◌, ap, subst, ◌⊎◌, inl, inr,
  Bool, true, false, List, [], ◌++◌, All, All-append, All-imp, if◌then◌else◌,
}
use odoo_operator.Value.{Value}
use odoo_operator.Prog.{
  create, patch, delete, Key, Request, Exn, Result, ok, err, Prog, ret, raise, write, call, ◌>>=◌,
  catch, when, set_status, set_endpoint,
}
use odoo_operator.Prog.Only.{Only-imp, Only, Calls, Only-bind, Only-ret}
use odoo_operator.Prog.Reader.{IsRead}
use odoo_operator.Server.{Server, Presence}
use odoo_operator.Server.Accepted.{Accepts, Accepts-first, Accepts-second, Accepts-tried}
use odoo_operator.Server.Run.{run, prepend, run-bind, run-catch}

-- To split on how a run ended, and keep the equation.
pub Result-cases : {A : Type 0} (r : Result A) → ((a : A) × (r ≡ ok a)) ⊎ ((e : Exn) × (r ≡ err e))
Result-cases (ok a) = inl (a, refl)
Result-cases (err e) = inr (e, refl)

module _ (S : Server) where
  -- What every permitted request keeps, a run keeps, whether it returns or raises.
  pub Calls-run :
      {A : Type 0} (P : Request → Type 0) (I : S.State → Type 0)
      → ((r : Request) → P r → (s : S.State) → I s → I (S.respond r s).1)
      → (m : Prog A) (s : S.State) → Calls P m
      → I s
      → I (run S m s).state
  unfolding run
  Calls-run P I step (ret a) s c h = h
  Calls-run P I step (raise e) s c h = h
  Calls-run P I step (write w m) s c h = Calls-run P I step m s c h
  Calls-run P I step (call r k) s c h =
      Calls-run P I step (k (S.respond r s).0) (S.respond r s).1 (c.1 (S.respond r s).0)
        (step r c.0 s h)

  module _ {A B : Type 0} (m : Prog A) (f : A → Prog B) (s : S.State) where
    pub bind_ok :
        {a : A}
        → (run S m s).result ≡ ok a
        → run S (m >>= f) s ≡ prepend S (run S m s).writes (run S (f a) (run S m s).state)
    bind_ok e = run-bind S m f s ∙ rw e refl

    pub bind_err :
        {e : Exn}
        → (run S m s).result ≡ err e
        → run S (m >>= f) s
          ≡ prepend S
              (run S m s).writes
              (record { result = err e; state = (run S m s).state; writes = [] })
    bind_err e = run-bind S m f s ∙ rw e refl

    pub bind_ok_inv :
        {b : B}
        → (run S (m >>= f) s).result ≡ ok b
        → (a : A) × ((run S m s).result ≡ ok a)
          × ((run S (f a) (run S m s).state).result ≡ ok b)
          × ((run S (m >>= f) s).state ≡ (run S (f a) (run S m s).state).state)
    bind_ok_inv {b} h = elim (Result-cases (run S m s).result) [
      | inl (a, e) ↦
          let q = bind_ok e in (a, e, sym (ap (λ o. o.result) q) ∙ h, ap (λ o. o.state) q)
      | inr (x, e) ↦ absurd (cc (ap (λ o. o.result) (bind_err e)))
    ]

  pub raise_not_ok :
      {A : Type 0} (e : Exn) (s : S.State) {a : A} → (run S (raise e) s).result ≢ ok a
  unfolding run
  raise_not_ok e s h = cc h

  module _ {A : Type 0} (m : Prog A) (h : Exn → Prog A) (s : S.State) where
    pub catch_ok :
        {a : A}
        → (run S m s).result ≡ ok a
        → run S (catch m h) s
          ≡ prepend S
              (run S m s).writes
              (record { result = ok a; state = (run S m s).state; writes = [] })
    catch_ok e = run-catch S m h s ∙ rw e refl

    pub catch_err :
        {e : Exn}
        → (run S m s).result ≡ err e
        → run S (catch m h) s ≡ prepend S (run S m s).writes (run S (h e) (run S m s).state)
    catch_err e = run-catch S m h s ∙ rw e refl

-- The request writes no object but one of these.
abbrev pub Within : List Key → Request → Type 0
Within ks (create k v) = In k ks
Within ks (patch k v) = In k ks
Within ks (delete k) = In k ks
Within ks _ = Unit

pub IsRead-Within : (ks : List Key) (r : Request) → IsRead r → Within ks r
IsRead-Within ks (create k v) h = absurd h
IsRead-Within ks (patch k v) h = absurd h
IsRead-Within ks (delete k) h = absurd h
IsRead-Within ks _ h = tt

module _ (ks js : List Key) where
  Within-append_left : (r : Request) → Within ks r → Within (ks ++ js) r
  Within-append_left (create k v) h = In-append_left k ks js h
  Within-append_left (patch k v) h = In-append_left k ks js h
  Within-append_left (delete k) h = In-append_left k ks js h
  Within-append_left _ h = tt

  Within-append_right : (r : Request) → Within js r → Within (ks ++ js) r
  Within-append_right (create k v) h = In-append_right k ks js h
  Within-append_right (patch k v) h = In-append_right k ks js h
  Within-append_right (delete k) h = In-append_right k ks js h
  Within-append_right _ h = tt

-- The program writes no object but those of the list, and of each of these a property of its
-- presence holds after a run that returned. The requests satisfy `Q`, under which the property lasts.
module _ (S : Server) (Q : Request → Type 0) (I : Presence → Type 0) where
  pub record Lasts : Type 0 where
    pub step :
        (r : Request)
        → Q r
        → (s : S.State) (k : Key) → I (S.find s k)
        → I (S.find (S.respond r s).1 k)

  pub record Achieves {A : Type 0} (ks : List Key) (m : Prog A) : Type 0 where
    pub only : Only Q m
    pub within : Only (Within ks) m
    pub done :
        (s : S.State) {a : A}
        → (run S m s).result ≡ ok a
        → All (λ k. I (S.find (run S m s).state k)) ks

  All-lasts :
      Lasts
      → {A : Type 0} (m : Prog A) (s : S.State) (ks : List Key) → Only Q m
      → All (λ k. I (S.find s k)) ks
      → All (λ k. I (S.find (run S m s).state k)) ks
  All-lasts l m s ks o =
      All-imp (λ k. I (S.find s k)) (λ k. I (S.find (run S m s).state k)) ks
        (λ k. Calls-run S Q (λ t. I (S.find t k)) (λ r q t. l.step r q t k) m s o.calls)

  module _ (l : Lasts) where
    pub Achieves-bind :
        {A B : Type 0} {ks js : List Key} {m : Prog A} {f : A → Prog B}
        → Achieves ks m
        → ((a : A) → Achieves js (f a))
        → Achieves (ks ++ js) (m >>= f)
    Achieves-bind {ks = ks} {js = js} {m = m} {f = f} c cf = record {
      only = Only-bind c.only λ a. (cf a).only;
      within =
          Only-bind (Only-imp (Within-append_left ks js) c.within)
            λ a. Only-imp (Within-append_right ks js) (cf a).within;
      done = λ s h.
          let (a, e, e', q) = bind_ok_inv S m f s h in
          let t = (run S m s).state in
          subst (λ u. All (λ k. I (S.find u k)) (ks ++ js)) (sym q)
            (All-append _ ks js (All-lasts l (f a) t ks (cf a).only (c.done s e))
              ((cf a).done t e'));
    }

    pub Achieves-when :
        (b : Bool) {ks : List Key} {m : Prog Unit}
        → Achieves ks m
        → Achieves (if b then ks else []) (when b m)
    Achieves-when true c = c
    Achieves-when false c = record { only = Only-ret tt; within = Only-ret tt; done = λ s h. tt }

  pub Achieves-ret : {A : Type 0} (a : A) → Achieves [] (ret a)
  Achieves-ret a = record { only = Only-ret a; within = Only-ret a; done = λ s h. tt }

  -- A part that only reads.
  pub Achieves-Only :
      {A : Type 0} {m : Prog A} → ((r : Request) → IsRead r → Q r) → Only IsRead m → Achieves [] m
  Achieves-Only h o = record {
    only = Only-imp h o;
    within = Only-imp (IsRead-Within []) o;
    done = λ s h. tt;
  }

-- The program returns, from every state.
pub record IsTotal (S : Server) {A : Type 0} (m : Prog A) : Type 0 where
  pub at : (s : S.State) → (a : A) × ((run S m s).result ≡ ok a)

-- The program returns, from every state from which the server finds no body invalid.
pub record Succeeds (S : Server) {A : Type 0} (m : Prog A) : Type 0 where
  pub at : (s : S.State) → Accepts S m s → (a : A) × ((run S m s).result ≡ ok a)

module _ {S : Server} where
  pub Succeeds-bind :
      {A B : Type 0} {m : Prog A} {f : A → Prog B}
      → Succeeds S m
      → ((a : A) → Succeeds S (f a))
      → Succeeds S (m >>= f)
  Succeeds-bind {m = m} {f = f} c cf = record {
    at = λ s w.
        let (a, e) = c.at s (Accepts-first m f w) in
        let (b, e') = (cf a).at (run S m s).state (Accepts-second m f w e) in
        (b, ap (λ o. o.result) (bind_ok S m f s e) ∙ e');
  }

  pub Succeeds-catch :
      {A : Type 0} {m : Prog A} (h : Exn → Prog A) → Succeeds S m → Succeeds S (catch m h)
  Succeeds-catch {m = m} h c = record {
    at = λ s w.
        let (a, e) = c.at s (Accepts-tried m h w) in (a, ap (λ o. o.result) (catch_ok S m h s e));
  }

  pub Succeeds-ret : {A : Type 0} (a : A) → Succeeds S (ret a)
  unfolding run
  Succeeds-ret a = record { at = λ s w. (a, refl) }

  pub Succeeds-total : {A : Type 0} {m : Prog A} → IsTotal S m → Succeeds S m
  Succeeds-total c = record { at = λ s w. c.at s }

  pub IsTotal-set_status : (k : String) (v : Value) → IsTotal S (set_status k v)
  unfolding run set_status
  IsTotal-set_status k v = record { at = λ s. (tt, refl) }

  pub Succeeds-when : (b : Bool) {m : Prog Unit} → Succeeds S m → Succeeds S (when b m)
  Succeeds-when true c = c
  Succeeds-when false c = Succeeds-ret tt

  pub Succeeds-set_status : (k : String) (v : Value) → Succeeds S (set_status k v)
  Succeeds-set_status k v = Succeeds-total (IsTotal-set_status k v)

  pub Succeeds-set_endpoint : (k url : String) → Succeeds S (set_endpoint k url)
  unfolding run set_endpoint
  Succeeds-set_endpoint k url = record { at = λ s w. (tt, refl) }
