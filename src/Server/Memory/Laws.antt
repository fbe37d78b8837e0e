-- ===== src/Server/Memory/Laws.antt =====
-- The server in memory keeps the laws of a server, is healthy, and chooses from what is asked.
use Prim.Native.Char.{Char}
use odoo_operator.Base.{
  String, ◌≡◌, ◌≢◌, Bool, false, ◌⊎◌, refl, sym, subst, ap, List, [], ◌∷◌, In, inl, chars, text_of,
}
use odoo_operator.Value.{Value, str}
use odoo_operator.Prog.{
  Key, Result, Prog, has_status, Request, create, patch, read, delete, list_pods, exec, choice, now,
  Exn, api_exception, ok, err,
}
use odoo_operator.Server.{
  Presence, absent, leaving, present, IsStored, IsGone, Misses, IsLawful, IsRandom, IsHealthy,
}
use odoo_operator.Server.Lasting.{Key_discrete}
use odoo_operator.Server.Accepted.{IsAccepted, Accepts, Accepts-all}
use odoo_operator.Server.Memory.{
  Memory, store, create_at, patch_at, read_at, delete_at, choose_of, respond, memory,
}

store-same : (s : Memory) (k : Key) (p : Presence) → store s k p k ≡ p
store-same s k p = elim (Key_discrete k k) as (λ d. elim d [ yes e ↦ p | no n ↦ s k ] ≡ p) [
  | yes e ↦ refl
  | no n ↦ absurd (n refl)
]

store-other : (s : Memory) (j k : Key) (p : Presence) → k ≢ j → store s j p k ≡ s k
store-other s j k p n = elim (Key_discrete k j) as (λ d. elim d [ yes e ↦ p | no n ↦ s k ] ≡ s k) [
  | yes e ↦ absurd (n e)
  | no m ↦ refl
]

-- The laws, each by the presence that the request meets.
other_at : (r : Request) (s : Memory) (k : Key) → Misses k r → (respond r s).1 k ≡ s k
other_at (create j v) s k n = go (s j)
  where
    go : (p : Presence) → (create_at p j v s).1 k ≡ s k
    go absent = store-other s j k _ n
    go (leaving w) = refl
    go (present w) = refl
other_at (patch j v) s k n = go (s j)
  where
    go : (p : Presence) → (patch_at p j v s).1 k ≡ s k
    go absent = refl
    go (leaving w) = store-other s j k _ n
    go (present w) = store-other s j k _ n
other_at (read j) s k n = go (s j)
  where
    go : (p : Presence) → (read_at p s).1 k ≡ s k
    go absent = refl
    go (leaving w) = refl
    go (present w) = refl
other_at (delete j) s k n = go (s j)
  where
    go : (p : Presence) → (delete_at p j s).1 k ≡ s k
    go absent = refl
    go (leaving w) = store-other s j k _ n
    go (present w) = store-other s j k _ n
other_at (list_pods space selector) s k n = refl
other_at (exec space pod command) s k n = refl
other_at (choice alphabet) s k n = go (chars alphabet)
  where
    go : (cs : List Char) → (choose_of cs s).1 k ≡ s k
    go [] = refl
    go (c ∷ cs) = refl
other_at now s k n = refl

refused_at :
    (r : Request) (s : Memory) (k : Key) {e : Exn}
    → (respond r s).0 ≡ err e
    → (respond r s).1 k ≡ s k
refused_at (create j v) s k h = go (s j) h
  where
    go : (p : Presence) {e : Exn} → (create_at p j v s).0 ≡ err e → (create_at p j v s).1 k ≡ s k
    go absent h = absurd (cc h)
    go (leaving w) h = refl
    go (present w) h = refl
refused_at (patch j v) s k h = go (s j) h
  where
    go : (p : Presence) {e : Exn} → (patch_at p j v s).0 ≡ err e → (patch_at p j v s).1 k ≡ s k
    go absent h = refl
    go (leaving w) h = absurd (cc h)
    go (present w) h = absurd (cc h)
refused_at (read j) s k h = other_at (read j) s k tt
refused_at (delete j) s k h = go (s j) h
  where
    go : (p : Presence) {e : Exn} → (delete_at p j s).0 ≡ err e → (delete_at p j s).1 k ≡ s k
    go absent h = refl
    go (leaving w) h = absurd (cc h)
    go (present w) h = absurd (cc h)
refused_at (choice alphabet) s k h = other_at (choice alphabet) s k tt
refused_at _ s k h = refl

created_at :
    (p : Presence) (k : Key) (v : Value) (s : Memory) {x : Value}
    → (create_at p k v s).0 ≡ ok x
    → (p ≡ absent) × (w : Value) × ((create_at p k v s).1 k ≡ present w)
created_at absent k v s h = (refl, v, store-same s k (present v))
created_at (leaving w) k v s h = absurd (cc h)
created_at (present w) k v s h = absurd (cc h)

conflict_at :
    (p : Presence) (k : Key) (v : Value) (s : Memory) {text : String}
    → (create_at p k v s).0 ≡ err (api_exception 409 text)
    → IsStored p
conflict_at absent k v s h = absurd (cc h)
conflict_at (leaving w) k v s h = tt
conflict_at (present w) k v s h = tt

patched_at :
    (p : Presence) (k : Key) (v : Value) (s : Memory) {x : Value}
    → (patch_at p k v s).0 ≡ ok x
    → IsStored p × IsStored ((patch_at p k v s).1 k)
patched_at absent k v s h = absurd (cc h)
patched_at (leaving w) k v s h = (tt, subst IsStored (sym (store-same s k (leaving v))) tt)
patched_at (present w) k v s h = (tt, subst IsStored (sym (store-same s k (present v))) tt)

found_at : (p : Presence) (s : Memory) {x : Value} → (read_at p s).0 ≡ ok x → IsStored p
found_at absent s h = absurd (cc h)
found_at (leaving w) s h = tt
found_at (present w) s h = tt

missing_at :
    (p : Presence) (s : Memory) {text : String}
    → (read_at p s).0 ≡ err (api_exception 404 text)
    → p ≡ absent
missing_at absent s h = refl
missing_at (leaving w) s h = absurd (cc h)
missing_at (present w) s h = absurd (cc h)

deleted_at :
    (p : Presence) (k : Key) (s : Memory) {x : Value}
    → (delete_at p k s).0 ≡ ok x
    → IsGone ((delete_at p k s).1 k)
deleted_at absent k s h = absurd (cc h)
deleted_at (leaving w) k s h = subst IsGone (sym (store-same s k (leaving w))) tt
deleted_at (present w) k s h = subst IsGone (sym (store-same s k absent)) tt

not_found_at :
    (p : Presence) (k : Key) (s : Memory) {text : String}
    → (delete_at p k s).0 ≡ err (api_exception 404 text)
    → p ≡ absent
not_found_at absent k s h = refl
not_found_at (leaving w) k s h = absurd (cc h)
not_found_at (present w) k s h = absurd (cc h)

pub memory-IsLawful : IsLawful memory
memory-IsLawful = record {
  other = other_at;
  refused = refused_at;
  created = λ k v s h. created_at (s k) k v s h;
  conflict = λ k v s h. conflict_at (s k) k v s h;
  patched = λ k v s h. patched_at (s k) k v s h;
  found = λ k s h. found_at (s k) s h;
  missing = λ k s h. missing_at (s k) s h;
  deleted = λ k s h. deleted_at (s k) k s h;
  not_found = λ k s h. not_found_at (s k) k s h;
}

chosen_at :
    (cs : List Char) (s : Memory) {v : Value}
    → (choose_of cs s).0 ≡ ok v
    → (c : Char) × (v ≡ str (text_of (c ∷ []))) × In c cs
chosen_at [] s h = absurd (cc h)
chosen_at (c ∷ cs) s h = (c, cc h, inl refl)

pub memory-IsRandom : IsRandom memory
memory-IsRandom = record { chosen = λ alphabet s h. chosen_at (chars alphabet) s h }

create_stored_at :
    (p : Presence) (k : Key) (v : Value) (s : Memory)
    → IsStored p
    → (text : String) × ((create_at p k v s).0 ≡ err (api_exception 409 text))
create_stored_at absent k v s h = absurd h
create_stored_at (leaving w) k v s h = (_, refl)
create_stored_at (present w) k v s h = (_, refl)

patch_stored_at :
    (p : Presence) (k : Key) (v : Value) (s : Memory)
    → IsStored p
    → ((x : Value) × ((patch_at p k v s).0 ≡ ok x))
      ⊎ ((text : String) × ((patch_at p k v s).0 ≡ err (api_exception 422 text)))
patch_stored_at absent k v s h = absurd h
patch_stored_at (leaving w) k v s h = inl (_, refl)
patch_stored_at (present w) k v s h = inl (_, refl)

read_stored_at : (p : Presence) (s : Memory) → IsStored p → (x : Value) × ((read_at p s).0 ≡ ok x)
read_stored_at absent s h = absurd h
read_stored_at (leaving w) s h = (_, refl)
read_stored_at (present w) s h = (_, refl)

delete_stored_at :
    (p : Presence) (k : Key) (s : Memory) → IsStored p → (x : Value) × ((delete_at p k s).0 ≡ ok x)
delete_stored_at absent k s h = absurd h
delete_stored_at (leaving w) k s h = (_, refl)
delete_stored_at (present w) k s h = (_, refl)

choose_at :
    (cs : List Char) (s : Memory) (one : Char)
    → In one cs
    → (c : String) × ((choose_of cs s).0 ≡ ok (str c))
choose_at [] s one i = absurd i
choose_at (c ∷ cs) s one i = (_, refl)

pub memory-IsHealthy : IsHealthy memory
memory-IsHealthy = record {
  clock = record { tell_time = λ s. (_, refl) };
  create_new = λ k v s e. inl (v, ap (λ p. (create_at p k v s).0) e);
  create_stored = λ k v s h. create_stored_at (s k) k v s h;
  patch_stored = λ k v s h. patch_stored_at (s k) k v s h;
  read_stored = λ k s h. read_stored_at (s k) s h;
  read_absent = λ k s e. (_, ap (λ p. (read_at p s).0) e);
  delete_stored = λ k s h. delete_stored_at (s k) k s h;
  delete_absent = λ k s e. (_, ap (λ p. (delete_at p k s).0) e);
  choose = λ alphabet s one i. choose_at (chars alphabet) s one i;
}

abbrev is_invalid : Result Value → Bool
is_invalid (ok v) = false
is_invalid (err e) = has_status 422 e

create_accepted_at :
    (p : Presence) (k : Key) (v : Value) (s : Memory) (text : String)
    → (create_at p k v s).0 ≢ err (api_exception 422 text)
create_accepted_at absent k v s text e = cc e
create_accepted_at (leaving w) k v s text e = cc (ap is_invalid e)
create_accepted_at (present w) k v s text e = cc (ap is_invalid e)

patch_accepted_at :
    (p : Presence) (k : Key) (v : Value) (s : Memory) (text : String)
    → (patch_at p k v s).0 ≢ err (api_exception 422 text)
patch_accepted_at absent k v s text e = cc (ap is_invalid e)
patch_accepted_at (leaving w) k v s text e = cc e
patch_accepted_at (present w) k v s text e = cc e

memory-IsAccepted : (r : Request) (s : Memory) → IsAccepted memory r s
memory-IsAccepted (create k v) s = create_accepted_at (s k) k v s
memory-IsAccepted (patch k v) s = patch_accepted_at (s k) k v s
memory-IsAccepted _ s = tt

-- The memory finds no body invalid.
pub memory-Accepts : {A : Type 0} (m : Prog A) (s : Memory) → Accepts memory m s
memory-Accepts m s = Accepts-all memory-IsAccepted m s
