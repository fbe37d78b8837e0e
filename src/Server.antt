-- ===== src/Server.antt =====
-- The cluster's API server and the other services that a handler calls. None of them is code of
-- the repository: a server is a parameter, and what the handlers rely on are the laws below.
pub mod Run
pub mod Accepted
pub mod Rules
pub mod Lasting
pub mod Writes
pub mod View
pub mod Memory
use Prim.Native.Char.{Char}
use odoo_operator.Base.{String, ◌≡◌, ◌≢◌, ◌⊎◌, [], ◌∷◌, In, chars, text_of}
use odoo_operator.Value.{Value, str}
use odoo_operator.Prog.{
  Key, Request, create, patch, read, delete, choice, now, Exn, api_exception, Result, ok, err,
}

-- An object may be stored and already marked for deletion (`metadata.deletionTimestamp`).
pub data Presence : Type 0 where
  absent : Presence
  leaving present : Value → Presence

abbrev pub IsStored : Presence → Type 0
IsStored absent = ⊥
IsStored _ = Unit

abbrev pub IsGone : Presence → Type 0
IsGone (present v) = ⊥
IsGone _ = Unit

pub record Server : Type 1 where
  pub State : Type 0
  pub respond : Request → State → Result Value × State
  pub find : State → Key → Presence

-- The request is no write to the object.
abbrev pub Misses : Key → Request → Type 0
Misses k (create j v) = k ≢ j
Misses k (patch j v) = k ≢ j
Misses k (delete j) = k ≢ j
Misses k _ = Unit

-- What the Kubernetes API documents of its verbs. Nothing else writes while a handler runs.
pub record IsLawful (S : Server) : Type 0 where
  pub other :
      (r : Request) (s : S.State) (k : Key) → Misses k r → S.find (S.respond r s).1 k ≡ S.find s k
  pub refused :
      (r : Request) (s : S.State) (k : Key) {e : Exn}
      → (S.respond r s).0 ≡ err e
      → S.find (S.respond r s).1 k ≡ S.find s k
  pub created :
      (k : Key) (v : Value) (s : S.State) {x : Value}
      → (S.respond (create k v) s).0 ≡ ok x
      → (S.find s k ≡ absent) × (w : Value) × (S.find (S.respond (create k v) s).1 k ≡ present w)
  pub conflict :
      (k : Key) (v : Value) (s : S.State) {text : String}
      → (S.respond (create k v) s).0 ≡ err (api_exception 409 text)
      → IsStored (S.find s k)
  pub patched :
      (k : Key) (v : Value) (s : S.State) {x : Value}
      → (S.respond (patch k v) s).0 ≡ ok x
      → IsStored (S.find s k) × IsStored (S.find (S.respond (patch k v) s).1 k)
  pub found :
      (k : Key) (s : S.State) {x : Value} → (S.respond (read k) s).0 ≡ ok x → IsStored (S.find s k)
  pub missing :
      (k : Key) (s : S.State) {text : String}
      → (S.respond (read k) s).0 ≡ err (api_exception 404 text)
      → S.find s k ≡ absent
  pub deleted :
      (k : Key) (s : S.State) {x : Value}
      → (S.respond (delete k) s).0 ≡ ok x
      → IsGone (S.find (S.respond (delete k) s).1 k)
  pub not_found :
      (k : Key) (s : S.State) {text : String}
      → (S.respond (delete k) s).0 ≡ err (api_exception 404 text)
      → S.find s k ≡ absent

-- `secrets.choice` picks a character of the alphabet; the clock's answer is a text.
pub record IsRandom (S : Server) : Type 0 where
  pub chosen :
      (alphabet : String) (s : S.State) {v : Value}
      → (S.respond (choice alphabet) s).0 ≡ ok v
      → (c : Char) × (v ≡ str (text_of (c ∷ []))) × In c (chars alphabet)

-- The clock tells the time.
pub record HasClock (S : Server) : Type 0 where
  pub tell_time : (s : S.State) → (t : String) × ((S.respond now s).0 ≡ ok (str t))

-- A server with no fault of its own: it refuses only what the verbs' contracts refuse. A creation or
-- a patch may be answered with 422, for a body that is invalid or that changes an immutable field.
pub record IsHealthy (S : Server) : Type 0 where
  pub clock : HasClock S
  pub create_new :
      (k : Key) (v : Value) (s : S.State)
      → S.find s k ≡ absent
      → ((x : Value) × ((S.respond (create k v) s).0 ≡ ok x))
        ⊎ ((text : String) × ((S.respond (create k v) s).0 ≡ err (api_exception 422 text)))
  pub create_stored :
      (k : Key) (v : Value) (s : S.State)
      → IsStored (S.find s k)
      → (text : String) × ((S.respond (create k v) s).0 ≡ err (api_exception 409 text))
  pub patch_stored :
      (k : Key) (v : Value) (s : S.State)
      → IsStored (S.find s k)
      → ((x : Value) × ((S.respond (patch k v) s).0 ≡ ok x))
        ⊎ ((text : String) × ((S.respond (patch k v) s).0 ≡ err (api_exception 422 text)))
  pub read_stored :
      (k : Key) (s : S.State)
      → IsStored (S.find s k)
      → (x : Value) × ((S.respond (read k) s).0 ≡ ok x)
  pub read_absent :
      (k : Key) (s : S.State)
      → S.find s k ≡ absent
      → (text : String) × ((S.respond (read k) s).0 ≡ err (api_exception 404 text))
  pub delete_stored :
      (k : Key) (s : S.State)
      → IsStored (S.find s k)
      → (x : Value) × ((S.respond (delete k) s).0 ≡ ok x)
  pub delete_absent :
      (k : Key) (s : S.State)
      → S.find s k ≡ absent
      → (text : String) × ((S.respond (delete k) s).0 ≡ err (api_exception 404 text))
  pub choose :
      (alphabet : String) (s : S.State) (one : Char)
      → In one (chars alphabet)
      → (c : String) × ((S.respond (choice alphabet) s).0 ≡ ok (str c))
