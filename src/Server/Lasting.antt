-- ===== src/Server/Lasting.antt =====
-- What lasts through a run on a lawful server: objects that are not written, objects that are
-- stored while nothing is deleted, objects that are gone while nothing is created.
use odoo_operator.Base.{◌≡◌, refl, ◌∙◌, ◌≢◌, inl, inr, arith, String_discrete}
use odoo_operator.Value.{Value}
use odoo_operator.Prog.{Kind, Key, Request, create, patch, delete, Prog}
use odoo_operator.Prog.Only.{Only}
use odoo_operator.Prog.Reader.{IsRead}
use odoo_operator.Server.{Server, IsLawful, IsStored, IsGone, Presence, Misses}
use odoo_operator.Server.Accepted.{IsAccepted}
use odoo_operator.Server.Run.{run}
use odoo_operator.Server.Rules.{Calls-run, Lasts, Result-cases}

pub Kind_discrete : Discrete Kind
Kind_discrete = hlevel

pub Key_discrete : Discrete Key
Key_discrete = hlevel (String_discrete, Kind_discrete)

-- The request deletes nothing.
abbrev pub NoDelete : Request → Type 0
NoDelete (delete k) = ⊥
NoDelete _ = Unit

pub IsRead-NoDelete : (r : Request) → IsRead r → NoDelete r
IsRead-NoDelete (delete k) h = h
IsRead-NoDelete _ h = tt

pub IsRead-Misses : (k : Key) (r : Request) → IsRead r → Misses k r
IsRead-Misses k (create j v) p = absurd p
IsRead-Misses k (patch j v) p = absurd p
IsRead-Misses k (delete j) p = absurd p
IsRead-Misses k _ p = tt

-- The request creates and patches nothing.
abbrev pub NoCreate : Request → Type 0
NoCreate (create k v) = ⊥
NoCreate (patch k v) = ⊥
NoCreate _ = Unit

pub NoCreate-IsAccepted : (S : Server) (r : Request) → NoCreate r → (s : S.State) → IsAccepted S r s
NoCreate-IsAccepted S (create k v) h s = absurd h
NoCreate-IsAccepted S (patch k v) h s = absurd h
NoCreate-IsAccepted S _ h s = tt

-- The request neither patches nor deletes the object.
abbrev pub Spares : Key → Request → Type 0
Spares k (patch j v) = k ≢ j
Spares k (delete j) = k ≢ j
Spares k _ = Unit

-- A write, by whether it hits the object.
hit_or_miss :
    (S : Server) (L : IsLawful S) (I : Presence → Type 0) (r : Request) (s : S.State) (k j : Key)
    → (k ≢ j → Misses k r)
    → (k ≡ j → I (S.find s k) → I (S.find (S.respond r s).1 k))
    → I (S.find s k)
    → I (S.find (S.respond r s).1 k)
hit_or_miss S L I r s k j miss hit h = elim (Key_discrete k j) [
  | yes e ↦ hit e h
  | no n ↦ rw (L.other r s k (miss n)) h
]

module _ (S : Server) (L : IsLawful S) where
  create-IsStored :
      (j : Key) (v : Value) (s : S.State) (k : Key)
      → IsStored (S.find s k)
      → IsStored (S.find (S.respond (create j v) s).1 k)
  create-IsStored j v s k =
      hit_or_miss S L IsStored (create j v) s k j (λ n. n)
        λ e h. grind (arith, L.created j v s, L.refused (create j v) s j)

  patch-IsStored :
      (j : Key) (v : Value) (s : S.State) (k : Key)
      → IsStored (S.find s k)
      → IsStored (S.find (S.respond (patch j v) s).1 k)
  patch-IsStored j v s k =
      hit_or_miss S L IsStored (patch j v) s k j (λ n. n)
        λ e h. grind (arith, L.patched j v s, L.refused (patch j v) s j)

  delete-IsGone :
      (j : Key) (s : S.State) (k : Key)
      → IsGone (S.find s k)
      → IsGone (S.find (S.respond (delete j) s).1 k)
  delete-IsGone j s k =
      hit_or_miss S L IsGone (delete j) s k j (λ n. n)
        λ e h. rw e (elim (Result-cases (S.respond (delete j) s).0) [
          | inl (x, ok') ↦ L.deleted j s ok'
          | inr (x, err') ↦ rw (L.refused (delete j) s j err') (rw e at h)
        ])

  step-IsStored :
      (r : Request)
      → NoDelete r
      → (s : S.State) (k : Key) → IsStored (S.find s k)
      → IsStored (S.find (S.respond r s).1 k)
  step-IsStored (create j v) q s k h = create-IsStored j v s k h
  step-IsStored (patch j v) q s k h = patch-IsStored j v s k h
  step-IsStored (delete j) q s k h = absurd q
  step-IsStored r q s k h = rw (L.other r s k tt) h

  pub IsStored-lasts : Lasts S NoDelete IsStored
  IsStored-lasts = record { step = step-IsStored }

  step-IsGone :
      (r : Request)
      → NoCreate r
      → (s : S.State) (k : Key) → IsGone (S.find s k)
      → IsGone (S.find (S.respond r s).1 k)
  step-IsGone (create j v) q s k h = absurd q
  step-IsGone (patch j v) q s k h = absurd q
  step-IsGone (delete j) q s k h = delete-IsGone j s k h
  step-IsGone r q s k h = rw (L.other r s k tt) h

  pub IsGone-lasts : Lasts S NoCreate IsGone
  IsGone-lasts = record { step = step-IsGone }

  -- An object that no request writes is the same after a run.
  pub Only-frame :
      {A : Type 0} (k : Key) (m : Prog A) (s : S.State)
      → Only (Misses k) m
      → S.find (run S m s).state k ≡ S.find s k
  Only-frame k m s o =
      Calls-run S (Misses k) (λ t. S.find t k ≡ S.find s k) (λ r q t e. L.other r t k q ∙ e) m s
        o.calls refl

  -- A stored object keeps its contents under any creation, its own included.
  step-spared :
      (k : Key) (w : Presence) (r : Request)
      → Spares k r
      → (s : S.State) → (S.find s k ≡ w) × IsStored w
      → (S.find (S.respond r s).1 k ≡ w) × IsStored w
  step-spared k w (create j v) q s (e, h) = elim (Key_discrete k j) [
    | yes p ↦ grind (arith, L.created j v s, L.refused (create j v) s j)
    | no n ↦ (L.other (create j v) s k n ∙ e, h)
  ]
  step-spared k w (patch j v) q s (e, h) = (L.other (patch j v) s k q ∙ e, h)
  step-spared k w (delete j) q s (e, h) = (L.other (delete j) s k q ∙ e, h)
  step-spared k w r q s (e, h) = (L.other r s k tt ∙ e, h)

  -- A stored object that no request patches or deletes is the same after a run.
  pub Only-spared :
      {A : Type 0} (k : Key) (m : Prog A) (s : S.State)
      → Only (Spares k) m
      → IsStored (S.find s k)
      → S.find (run S m s).state k ≡ S.find s k
  Only-spared k m s o h =
      (Calls-run S (Spares k) (λ t. (S.find t k ≡ S.find s k) × IsStored (S.find s k))
        (step-spared k (S.find s k)) m s o.calls (refl, h)).0
