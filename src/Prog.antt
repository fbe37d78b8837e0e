-- ===== src/Prog.antt =====
-- A handler as the sequence of its effects: calls of the cluster's API and of other outside
-- services, writes to the status patch, and exceptions.
pub mod Only
pub mod Reader
use odoo_operator.Base.{ℕ, String, List, Bool, true, false, ◌==◌}
use odoo_operator.Value.{Value, str}

pub data Kind : Type 0 where
  service_account pvc secret config_map role role_binding deployment stateful_set : Kind
  service job cron_job pg_cluster scheduled_backup namespace_kind : Kind

-- An object of the cluster: its kind, namespace and name.
pub record Key : Type 0 where
  pub kind : Kind
  pub space : String
  pub name : String

pub data Request : Type 0 where
  create patch : Key → Value → Request
  read delete : Key → Request
  list_pods : String → String → Request
  exec : String → String → List String → Request
  choice : String → Request
  now : Request

-- An `ApiException` has a status, and every exception a text, `str(e)`.
pub data Exn : Type 0 where
  api_exception : ℕ → String → Exn
  permanent_error value_error other_error : String → Exn

abbrev pub message : Exn → String
message (api_exception code text) = text
message (permanent_error text) = text
message (value_error text) = text
message (other_error text) = text

pub data Result {ℓ} (A : Type ℓ) : Type ℓ where
  ok : A → Result A
  err : Exn → Result A

-- `patch.status[key] = value`, and the same below `patch.status['endpoints']`.
pub data Write : Type 0 where
  status : String → Value → Write
  endpoint : String → String → Write

pub data Prog (A : Type 0) : Type 0 where
  ret : A → Prog A
  raise : Exn → Prog A
  write : Write → Prog A → Prog A
  call : Request → (Result Value → Prog A) → Prog A

module _ {A B : Type 0} where
  infixl 5 ◌>>=◌ ◌>>◌
  unfoldable pub ◌>>=◌ : Prog A → (A → Prog B) → Prog B
  ret a >>= f = f a
  raise e >>= f = raise e
  write w m >>= f = write w (m >>= f)
  call r k >>= f = call r (λ x. k x >>= f)

  abbrev pub ◌>>◌ : Prog A → Prog B → Prog B
  m >> n = m >>= λ _. n

-- `try: m` with `except Exception as e: h(e)`
unfoldable pub catch : {A : Type 0} → Prog A → (Exn → Prog A) → Prog A
catch (ret a) h = ret a
catch (raise e) h = h e
catch (write w m) h = write w (catch m h)
catch (call r k) h = call r (λ x. catch (k x) h)

abbrev pub answer : Result Value → Prog Value
answer (ok v) = ret v
answer (err e) = raise e

unfoldable pub request : Request → Prog Value
request r = call r answer

unfoldable pub set_status : String → Value → Prog Unit
set_status k v = write (status k v) (ret tt)

unfoldable pub set_endpoint : String → String → Prog Unit
set_endpoint k url = write (endpoint k url) (ret tt)

-- `e.status == n` for an `ApiException`; any other exception is not caught by the clause.
abbrev pub has_status : ℕ → Exn → Bool
has_status n (api_exception code text) = code == n
has_status n _ = false

-- A response that is used as a text.
unfoldable pub as_text : Value → Prog String
as_text (str s) = ret s
as_text _ = raise (other_error "TypeError")

-- `if b: m`
abbrev pub when : Bool → Prog Unit → Prog Unit
when b m = elim b [ true ↦ m | false ↦ ret tt ]
